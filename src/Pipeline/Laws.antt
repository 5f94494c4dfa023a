-- ===== src/Pipeline/Laws.antt =====
-- What `Pipeline.query` promises: where its citations come from, what it charges, what it costs.
use eu_rag.Base.{
  ℕ, refl, subst, ap, String, ◌≡◌, ◌≢◌, Bool, true, false, ◌&&◌, Option, none, some, List,
  if◌then◌else◌, find, Member, eqb, get_elem?-Member,
}
use eu_rag.Base.Text.{Unicode}
use eu_rag.Chunk.{Chunk}
use eu_rag.Llm.{Outcome, ok, unavailable, crash, Client, Api, World, Io}
use eu_rag.Llm.Ensures.{Ensures, Ensures-pure, Ensures-bind, Ensures-Anything, Anything, ok_inj}
use eu_rag.Registry.{Registry, ChunkRow, Cipher, in_tenants, row_to_chunk, get_chunks}
use eu_rag.Registry.Tenancy.{get_chunks-gate}
use eu_rag.Retrieval.Bm25.{Lexer, FloatMath}
use eu_rag.Retrieval.Hybrid.{lift, retrieve_scored}
use eu_rag.Generation.Citations.{Citation, cite, markers_used, mem}
use eu_rag.Generation.Answerer.{llm, smalltalk, AnswerResult, answer_question}
use eu_rag.Generation.Answerer.Laws.{answer_question-IsGrounded, IsGrounded}
use eu_rag.Generation.Answerer.Sources.{IsSourced, answer_question-Ensures}
use eu_rag.Pipeline.{
  Pipeline, Request, retriever, answer, escalate, keep_primary, contextualised, primary_client,
  escalation_of, asked, has_sources,
}

-- A citation of a stored passage whose tenant is among those that the request may read.
pub record IsReadable (cipher : Cipher) (reg : Registry) (tenants : Option (List String))
    (x : Citation) : Type 0 where
  pub marker : ℕ
  pub chunk : Chunk
  pub row : ChunkRow
  pub is_stored : Member row reg.chunks
  pub is_allowed : in_tenants tenants row.tenant ≡ true
  pub is_decrypted : row_to_chunk cipher row ≡ some chunk
  pub is_quoted : x ≡ cite marker chunk

module _ (u : Unicode) {F : Type 0} (cipher : Cipher) (reg : Registry)
    (tenants : Option (List String)) where
  -- Every citation is readable; in an answer that a model wrote, each marker has one.
  abbrev pub IsScoped : AnswerResult F → Type 0
  IsScoped r =
      ((x : Citation) → Member x r.citations → IsReadable cipher reg tenants x)
      × (r.mode ≡ llm
          → (m : ℕ) → mem m (markers_used u r.answer) ≡ true
          → (x : Citation) × (find (λ c. eqb c.marker m) r.citations ≡ some x)
            × IsReadable cipher reg tenants x)

  abbrev pub IsAnswer : AnswerResult F → Type 0
  IsAnswer r = IsScoped r × (r.mode ≢ smalltalk)

  scoped :
      (ids : List String) (cs : List Chunk) (r : AnswerResult F)
      → get_chunks cipher reg ids tenants ≡ some cs
      → IsGrounded u cs r
      → IsSourced cs r
      → IsAnswer r
  scoped ids cs r e grounded (sourced, canned) = (
    (
      (λ x m. let (i, c, there, q) = sourced x m in readable i c x there q),
      λ mode m used.
          let (i, c, at, found, hit) = grounded mode m used in
          (_, hit, readable m c (cite m c) (get_elem?-Member cs i c found) refl),
    ),
    canned,
  )
    where
      readable :
          (i : ℕ) (c : Chunk) (x : Citation)
          → Member c cs
          → x ≡ cite i c
          → IsReadable cipher reg tenants x
      readable i c x there q =
          let (row, stored, allowed, hit, _) =
            get_chunks-gate cipher reg ids tenants cs c e there in
          record {
            marker = i;
            chunk = c;
            row = row;
            is_stored = stored;
            is_allowed = allowed;
            is_decrypted = hit;
            is_quoted = q;
          }

-- what may be read of these tenants may be read of any list that has them
pub IsScoped-in_tenants :
    (u : Unicode) {F : Type 0} (cipher : Cipher) (reg : Registry) (ts ts' : Option (List String))
    (r : AnswerResult F)
    → ((tenant : String) → in_tenants ts tenant ≡ true → in_tenants ts' tenant ≡ true)
    → IsScoped u cipher reg ts r
    → IsScoped u cipher reg ts' r
IsScoped-in_tenants u cipher reg ts ts' r wider (cited, marked) = (
  λ x m. widened x (cited x m),
  λ mode m used. let (x, hit, readable) = marked mode m used in (x, hit, widened x readable),
)
  where
    widened : (x : Citation) → IsReadable cipher reg ts x → IsReadable cipher reg ts' x
    widened x q = record {
      marker = q.marker;
      chunk = q.chunk;
      row = q.row;
      is_stored = q.is_stored;
      is_allowed = wider q.row.tenant q.is_allowed;
      is_decrypted = q.is_decrypted;
      is_quoted = q.is_quoted;
    }

lift-Ensures : {A : Type 0} (o : Option A) → Ensures (λ a. o ≡ some a) (lift o)
lift-Ensures none = record { yields = λ w a e. cc }
lift-Ensures (some a) = record { yields = λ w b e. ap some (ok_inj e) }

escalate-Ensures :
    {F : Type 0} (P : AnswerResult F → Type 0) (r : AnswerResult F) (client : Option Client)
    (deeper : Client → Io (AnswerResult F))
    → ((d : AnswerResult F) → P d → P (record d { escalated = true }))
    → P r
    → ((c : Client) → Ensures P (deeper c))
    → Ensures P (escalate r client deeper)
unfolding escalate
escalate-Ensures P r none deeper closed h hd = record { yields = λ w d e. subst P (ok_inj e) h }
escalate-Ensures {F} P r (some c) deeper closed h hd = record {
  yields = λ w d e.
      go w d (r.insufficient && has_sources r.mode) (deeper c w).0 (deeper c w).1 ((hd c).yields w)
        e;
}
  where
    go :
        (w : World) (d : AnswerResult F) (b : Bool) (o : Outcome (AnswerResult F)) (w' : World)
        → ((a : AnswerResult F) → o ≡ ok a → P a)
        → (if b then keep_primary r (o, w') else (ok r, w)).0 ≡ ok d
        → P d
    go w d false o w' hd e = subst P (ok_inj e) h
    go w d true (ok a) w' hd e = subst P (ok_inj e) (closed a (hd a refl))
    go w d true (unavailable k) w' hd e = subst P (ok_inj e) h
    go w d true crash w' hd e = cc

module _ (u : Unicode) {F V : Type 0} (api : Api) (math : FloatMath F) (lexer : Lexer)
    (p : Pipeline F V) where
  answer-Ensures :
      (req : Request) (question : String) (client : Client) (k max_per_doc : ℕ)
      → Ensures
          (IsAnswer u p.cipher p.registry req.tenants)
          (answer u api math lexer p req question client k max_per_doc)
  unfolding answer
  answer-Ensures req question client k max_per_doc =
      Ensures-bind Anything
        (retrieve_scored u api math lexer (retriever p) question k max_per_doc req.tenants) _
        (Ensures-Anything _)
        (λ found _.
          Ensures-bind (λ cs. get_chunks p.cipher p.registry found.0 req.tenants ≡ some cs) (lift _)
            _ (lift-Ensures _)
            (λ cs e.
              Ensures-bind (IsAnswer u p.cipher p.registry req.tenants)
                (answer_question u api question cs client req.profile) _
                (record {
                  yields = λ w r h.
                      scoped u p.cipher p.registry req.tenants found.0 cs r e
                        (answer_question-IsGrounded u api question cs client req.profile w r h).0
                        ((answer_question-Ensures u api question cs client req.profile).yields w r
                          h);
                })
                (λ r h. Ensures-pure _ h)))

  pub asked-Ensures :
      (req : Request)
      → Ensures (IsAnswer u p.cipher p.registry req.tenants) (asked u api math lexer p req)
  unfolding asked
  asked-Ensures req =
      Ensures-bind Anything (contextualised u api p.clients.contextualizer req.question req.history)
        _ (Ensures-Anything _)
        (λ question _.
          Ensures-bind Anything (primary_client p req) _ (Ensures-Anything _) (λ client _.
            Ensures-bind Anything (escalation_of p req.escalation_model req.api_key) _
              (Ensures-Anything _)
              (λ escalation _.
                Ensures-bind (IsAnswer u p.cipher p.registry req.tenants)
                  (answer u api math lexer p req question client p.settings.top_k 2) _
                  (answer-Ensures req question client p.settings.top_k 2)
                  (λ r h.
                    escalate-Ensures (IsAnswer u p.cipher p.registry req.tenants) r escalation _
                      (λ d hd. hd) h
                      (λ c. answer-Ensures req question c p.settings.escalation_top_k 6)))))
