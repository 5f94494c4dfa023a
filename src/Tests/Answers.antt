-- ===== src/Tests/Answers.antt =====
-- Questions to the pipeline and to the route.
use eu_rag.Base.{
  ◌≡◌, ◌≢◌, ◌⊎◌, ◌≤◌, refl, String, ℕ, ◌-◌, Bool, true, false, ◌&&◌, Option, none, some, List, [],
  ◌∷◌, if◌then◌else◌, ◌==◌, length, arith, Member, inl,
}
use eu_rag.Base.Text.{◌<>◌}
use eu_rag.Chunk.{Chunk}
use eu_rag.Llm.{
  Outcome, ok, unavailable, overloaded, Client, anthropic, Api, Costs, Response,
  internal_server_error, outcome,
}
use eu_rag.Smalltalk.{is_smalltalk}
use eu_rag.Registry.{no_cipher, get_chunks, in_tenants, row_to_chunk, ChunkRow}
use eu_rag.Registry.Tenancy.{get_chunks-gate}
use eu_rag.Retrieval.Hybrid.{retrieve_scored}
use eu_rag.Generation.Answerer.{AnswerResult, answer_question, is_refunded}
use eu_rag.Generation.Answerer.Laws.{answer_question-IsGrounded, IsGrounded, IsCited}
use eu_rag.Generation.Answerer.Total.{answer_question-returns}
use eu_rag.Pipeline.{query, answer, smalltalk_result, retriever}
use eu_rag.Pipeline.Laws.{IsScoped}
use eu_rag.Pipeline.Query.{query-IsScoped, query-refunded}
use eu_rag.Pipeline.Cost.{query-Costs}
use eu_rag.Pipeline.Failure.{FirstAnswerEnds, query-unavailable}
use eu_rag.Quota.Anon
use eu_rag.Quota.User
use eu_rag.Api.{response, http_error}
use eu_rag.Api.Query.{Answered, query_route, query_anonymous, query_user}
use eu_rag.Api.Query.Charge.{price, Shows, pays_by_quota, query_anonymous-charge, query_user-charge}
use eu_rag.Api.Query.Laws.{readable, query_route-IsScoped, query_route-refused}
use eu_rag.Tests.Sample.{
  ascii, folding, helpful, broken, math, lexer, pipeline, registry, world, asks, returned, app,
  state, spent_state, clock, body, bob, replied,
}

abbrev question : String
question = "which law applies here?"

abbrev answered : AnswerResult ℕ
answered =
    returned smalltalk_result
      (query ascii folding helpful math lexer pipeline (asks question) world).0

answer_text : answered.answer ≡ "the law applies [1]."
unfolding query eu_rag.Smalltalk.is_smalltalk eu_rag.Smalltalk.normalise eu_rag.Base.Text.strip
    eu_rag.Base.Text.lstrip eu_rag.Base.Text.rstrip eu_rag.Base.Text.◌<>◌ eu_rag.Base.Text.decimal
    eu_rag.Base.Text.join eu_rag.Base.Text.contains eu_rag.Pipeline.build_clients
    eu_rag.Llm.get_llm_client eu_rag.Llm.complete eu_rag.Llm.outcome eu_rag.Pipeline.answer
    eu_rag.Retrieval.Hybrid.retrieve_scored eu_rag.Registry.get_chunks eu_rag.Registry.row_to_chunk
    eu_rag.Retrieval.Pick.pick eu_rag.Retrieval.Pick.doc_of eu_rag.Retrieval.Fusion.rrf_fuse
    eu_rag.Retrieval.Sort.sort_down eu_rag.Retrieval.Bm25.search eu_rag.Retrieval.Bm25.tokenize
    eu_rag.Retrieval.Bm25.counter eu_rag.Retrieval.Bm25.total eu_rag.Retrieval.Bm25.add_chunk
    eu_rag.Retrieval.Bm25.count_terms eu_rag.Base.Dict.get eu_rag.Base.Dict.put
    eu_rag.Generation.Answerer.answer_question eu_rag.Generation.Answerer.judge
    eu_rag.Generation.Answerer.shipped eu_rag.Generation.Answerer.is_acceptable
    eu_rag.Generation.Citations.build_citations eu_rag.Generation.Citations.markers_used
    eu_rag.Generation.Citations.validate_answer eu_rag.Pipeline.escalate
    eu_rag.Api.Query.query_route eu_rag.Api.Query.query_anonymous eu_rag.Quota.Anon.consume
    eu_rag.Generation.Answerer.is_refunded eu_rag.Security.Turnstile.verify
    eu_rag.Pipeline.resolve_llm
answer_text = refl

is_answered :
    (query ascii folding helpful math lexer pipeline (asks question) world).0 ≡ ok answered
unfolding query eu_rag.Smalltalk.is_smalltalk eu_rag.Smalltalk.normalise eu_rag.Base.Text.strip
    eu_rag.Base.Text.lstrip eu_rag.Base.Text.rstrip eu_rag.Base.Text.◌<>◌ eu_rag.Base.Text.decimal
    eu_rag.Base.Text.join eu_rag.Base.Text.contains eu_rag.Pipeline.build_clients
    eu_rag.Llm.get_llm_client eu_rag.Llm.complete eu_rag.Llm.outcome eu_rag.Pipeline.answer
    eu_rag.Retrieval.Hybrid.retrieve_scored eu_rag.Registry.get_chunks eu_rag.Registry.row_to_chunk
    eu_rag.Retrieval.Pick.pick eu_rag.Retrieval.Pick.doc_of eu_rag.Retrieval.Fusion.rrf_fuse
    eu_rag.Retrieval.Sort.sort_down eu_rag.Retrieval.Bm25.search eu_rag.Retrieval.Bm25.tokenize
    eu_rag.Retrieval.Bm25.counter eu_rag.Retrieval.Bm25.total eu_rag.Retrieval.Bm25.add_chunk
    eu_rag.Retrieval.Bm25.count_terms eu_rag.Base.Dict.get eu_rag.Base.Dict.put
    eu_rag.Generation.Answerer.answer_question eu_rag.Generation.Answerer.judge
    eu_rag.Generation.Answerer.shipped eu_rag.Generation.Answerer.is_acceptable
    eu_rag.Generation.Citations.build_citations eu_rag.Generation.Citations.markers_used
    eu_rag.Generation.Citations.validate_answer eu_rag.Pipeline.escalate
    eu_rag.Api.Query.query_route eu_rag.Api.Query.query_anonymous eu_rag.Quota.Anon.consume
    eu_rag.Generation.Answerer.is_refunded eu_rag.Security.Turnstile.verify
    eu_rag.Pipeline.resolve_llm
is_answered = refl

query-IsScoped_example : IsScoped ascii no_cipher registry (some ("public" ∷ [])) answered
query-IsScoped_example =
    query-IsScoped ascii folding helpful math lexer pipeline (asks question) world answered
      is_answered

is_greeted :
    (query ascii folding helpful math lexer pipeline (asks "hello!") world).0 ≡ ok smalltalk_result
unfolding query eu_rag.Smalltalk.is_smalltalk eu_rag.Smalltalk.normalise eu_rag.Base.Text.strip
    eu_rag.Base.Text.lstrip eu_rag.Base.Text.rstrip eu_rag.Base.Text.◌<>◌ eu_rag.Base.Text.decimal
    eu_rag.Base.Text.join eu_rag.Base.Text.contains eu_rag.Pipeline.build_clients
    eu_rag.Llm.get_llm_client eu_rag.Llm.complete eu_rag.Llm.outcome eu_rag.Pipeline.answer
    eu_rag.Retrieval.Hybrid.retrieve_scored eu_rag.Registry.get_chunks eu_rag.Registry.row_to_chunk
    eu_rag.Retrieval.Pick.pick eu_rag.Retrieval.Pick.doc_of eu_rag.Retrieval.Fusion.rrf_fuse
    eu_rag.Retrieval.Sort.sort_down eu_rag.Retrieval.Bm25.search eu_rag.Retrieval.Bm25.tokenize
    eu_rag.Retrieval.Bm25.counter eu_rag.Retrieval.Bm25.total eu_rag.Retrieval.Bm25.add_chunk
    eu_rag.Retrieval.Bm25.count_terms eu_rag.Base.Dict.get eu_rag.Base.Dict.put
    eu_rag.Generation.Answerer.answer_question eu_rag.Generation.Answerer.judge
    eu_rag.Generation.Answerer.shipped eu_rag.Generation.Answerer.is_acceptable
    eu_rag.Generation.Citations.build_citations eu_rag.Generation.Citations.markers_used
    eu_rag.Generation.Citations.validate_answer eu_rag.Pipeline.escalate
    eu_rag.Api.Query.query_route eu_rag.Api.Query.query_anonymous eu_rag.Quota.Anon.consume
    eu_rag.Generation.Answerer.is_refunded eu_rag.Security.Turnstile.verify
    eu_rag.Pipeline.resolve_llm
is_greeted = refl

is_free_of_charge : is_refunded (smalltalk_result {F = ℕ}).mode ≡ true
unfolding is_refunded
is_free_of_charge = refl

query-refunded_example :
    (query ascii folding helpful math lexer pipeline (asks "hello!") world
      ≡ (ok smalltalk_result, world))
    × (is_smalltalk folding "hello!" ≡ true)
query-refunded_example =
    query-refunded ascii folding helpful math lexer pipeline (asks "hello!") world smalltalk_result
      is_greeted is_free_of_charge

query-Costs_example :
    Costs
      (if is_smalltalk folding question then 0 else 15)
      (query ascii folding helpful math lexer pipeline (asks question))
query-Costs_example = query-Costs ascii folding helpful math lexer pipeline (asks question)

is_unavailable :
    (query ascii folding broken math lexer pipeline (asks question) world).0
    ≡ unavailable overloaded
unfolding query eu_rag.Smalltalk.is_smalltalk eu_rag.Smalltalk.normalise eu_rag.Base.Text.strip
    eu_rag.Base.Text.lstrip eu_rag.Base.Text.rstrip eu_rag.Base.Text.◌<>◌ eu_rag.Base.Text.decimal
    eu_rag.Base.Text.join eu_rag.Base.Text.contains eu_rag.Pipeline.build_clients
    eu_rag.Llm.get_llm_client eu_rag.Llm.complete eu_rag.Llm.outcome eu_rag.Pipeline.answer
    eu_rag.Retrieval.Hybrid.retrieve_scored eu_rag.Registry.get_chunks eu_rag.Registry.row_to_chunk
    eu_rag.Retrieval.Pick.pick eu_rag.Retrieval.Pick.doc_of eu_rag.Retrieval.Fusion.rrf_fuse
    eu_rag.Retrieval.Sort.sort_down eu_rag.Retrieval.Bm25.search eu_rag.Retrieval.Bm25.tokenize
    eu_rag.Retrieval.Bm25.counter eu_rag.Retrieval.Bm25.total eu_rag.Retrieval.Bm25.add_chunk
    eu_rag.Retrieval.Bm25.count_terms eu_rag.Base.Dict.get eu_rag.Base.Dict.put
    eu_rag.Generation.Answerer.answer_question eu_rag.Generation.Answerer.judge
    eu_rag.Generation.Answerer.shipped eu_rag.Generation.Answerer.is_acceptable
    eu_rag.Generation.Citations.build_citations eu_rag.Generation.Citations.markers_used
    eu_rag.Generation.Citations.validate_answer eu_rag.Pipeline.escalate
    eu_rag.Api.Query.query_route eu_rag.Api.Query.query_anonymous eu_rag.Quota.Anon.consume
    eu_rag.Generation.Answerer.is_refunded eu_rag.Security.Turnstile.verify
    eu_rag.Pipeline.resolve_llm
is_unavailable = refl

query-unavailable_example :
    FirstAnswerEnds ascii folding broken math lexer pipeline (asks question) world (
      unavailable overloaded,
      (query ascii folding broken math lexer pipeline (asks question) world).1,
    )
query-unavailable_example =
    query-unavailable ascii folding broken math lexer pipeline (asks question) world overloaded
      is_unavailable

abbrev passage : Chunk
passage = record {
  chunk_id = "gdpr:0";
  doc_id = "gdpr";
  index = 0;
  text = "the law applies";
  title = "GDPR";
  source_url = "https://eur-lex";
}

abbrev reply_to_passage : AnswerResult ℕ
reply_to_passage =
    returned smalltalk_result
      (answer_question ascii helpful question (passage ∷ []) (anthropic "sonnet" none) none world).0

is_replied :
    (answer_question ascii helpful question (passage ∷ []) (anthropic "sonnet" none) none world).0
    ≡ ok reply_to_passage
unfolding query eu_rag.Smalltalk.is_smalltalk eu_rag.Smalltalk.normalise eu_rag.Base.Text.strip
    eu_rag.Base.Text.lstrip eu_rag.Base.Text.rstrip eu_rag.Base.Text.◌<>◌ eu_rag.Base.Text.decimal
    eu_rag.Base.Text.join eu_rag.Base.Text.contains eu_rag.Pipeline.build_clients
    eu_rag.Llm.get_llm_client eu_rag.Llm.complete eu_rag.Llm.outcome eu_rag.Pipeline.answer
    eu_rag.Retrieval.Hybrid.retrieve_scored eu_rag.Registry.get_chunks eu_rag.Registry.row_to_chunk
    eu_rag.Retrieval.Pick.pick eu_rag.Retrieval.Pick.doc_of eu_rag.Retrieval.Fusion.rrf_fuse
    eu_rag.Retrieval.Sort.sort_down eu_rag.Retrieval.Bm25.search eu_rag.Retrieval.Bm25.tokenize
    eu_rag.Retrieval.Bm25.counter eu_rag.Retrieval.Bm25.total eu_rag.Retrieval.Bm25.add_chunk
    eu_rag.Retrieval.Bm25.count_terms eu_rag.Base.Dict.get eu_rag.Base.Dict.put
    eu_rag.Generation.Answerer.answer_question eu_rag.Generation.Answerer.judge
    eu_rag.Generation.Answerer.shipped eu_rag.Generation.Answerer.is_acceptable
    eu_rag.Generation.Citations.build_citations eu_rag.Generation.Citations.markers_used
    eu_rag.Generation.Citations.validate_answer eu_rag.Pipeline.escalate
    eu_rag.Api.Query.query_route eu_rag.Api.Query.query_anonymous eu_rag.Quota.Anon.consume
    eu_rag.Generation.Answerer.is_refunded eu_rag.Security.Turnstile.verify
    eu_rag.Pipeline.resolve_llm
is_replied = refl

answer_question-IsGrounded_example :
    IsGrounded ascii (passage ∷ []) reply_to_passage × IsCited reply_to_passage
answer_question-IsGrounded_example =
    answer_question-IsGrounded ascii helpful question (passage ∷ []) (anthropic "sonnet" none) none
      world reply_to_passage is_replied

helpful-Delivers :
    (n : ℕ) (model : String) (key : Option String) (system user : String)
    → (text : String) × (outcome (helpful n model key system user) ≡ ok text)
unfolding outcome
helpful-Delivers n model key system user = (_, refl)

answer_question-returns_example :
    (r : AnswerResult ℕ) × ((answer_question ascii helpful question
        (passage ∷ [])
        (anthropic "sonnet" none)
        none
        world).0
      ≡ ok r)
answer_question-returns_example =
    answer_question-returns ascii helpful helpful-Delivers question (passage ∷ [])
      (anthropic "sonnet" none) none world

is_read :
    get_chunks no_cipher registry ("gdpr:0" ∷ "memo:0" ∷ []) (some ("public" ∷ []))
    ≡ some (passage ∷ [])
unfolding query eu_rag.Smalltalk.is_smalltalk eu_rag.Smalltalk.normalise eu_rag.Base.Text.strip
    eu_rag.Base.Text.lstrip eu_rag.Base.Text.rstrip eu_rag.Base.Text.◌<>◌ eu_rag.Base.Text.decimal
    eu_rag.Base.Text.join eu_rag.Base.Text.contains eu_rag.Pipeline.build_clients
    eu_rag.Llm.get_llm_client eu_rag.Llm.complete eu_rag.Llm.outcome eu_rag.Pipeline.answer
    eu_rag.Retrieval.Hybrid.retrieve_scored eu_rag.Registry.get_chunks eu_rag.Registry.row_to_chunk
    eu_rag.Retrieval.Pick.pick eu_rag.Retrieval.Pick.doc_of eu_rag.Retrieval.Fusion.rrf_fuse
    eu_rag.Retrieval.Sort.sort_down eu_rag.Retrieval.Bm25.search eu_rag.Retrieval.Bm25.tokenize
    eu_rag.Retrieval.Bm25.counter eu_rag.Retrieval.Bm25.total eu_rag.Retrieval.Bm25.add_chunk
    eu_rag.Retrieval.Bm25.count_terms eu_rag.Base.Dict.get eu_rag.Base.Dict.put
    eu_rag.Generation.Answerer.answer_question eu_rag.Generation.Answerer.judge
    eu_rag.Generation.Answerer.shipped eu_rag.Generation.Answerer.is_acceptable
    eu_rag.Generation.Citations.build_citations eu_rag.Generation.Citations.markers_used
    eu_rag.Generation.Citations.validate_answer eu_rag.Pipeline.escalate
    eu_rag.Api.Query.query_route eu_rag.Api.Query.query_anonymous eu_rag.Quota.Anon.consume
    eu_rag.Generation.Answerer.is_refunded eu_rag.Security.Turnstile.verify
    eu_rag.Pipeline.resolve_llm
is_read = refl

get_chunks-gate_example :
    (r : ChunkRow) × Member r registry.chunks
    × (in_tenants (some ("public" ∷ [])) r.tenant ≡ true)
    × (row_to_chunk no_cipher r ≡ some passage)
    × Member passage.chunk_id ("gdpr:0" ∷ "memo:0" ∷ [])
get_chunks-gate_example =
    get_chunks-gate no_cipher registry ("gdpr:0" ∷ "memo:0" ∷ []) (some ("public" ∷ []))
      (passage ∷ []) passage is_read (inl refl)

abbrev first_reply : Answered ℕ
first_reply =
    replied (query_route ascii folding helpful math lexer app clock none "10.0.0.1" body state).0

is_routed :
    (query_route ascii folding helpful math lexer app clock none "10.0.0.1" body state).0
    ≡ response first_reply
unfolding query eu_rag.Smalltalk.is_smalltalk eu_rag.Smalltalk.normalise eu_rag.Base.Text.strip
    eu_rag.Base.Text.lstrip eu_rag.Base.Text.rstrip eu_rag.Base.Text.◌<>◌ eu_rag.Base.Text.decimal
    eu_rag.Base.Text.join eu_rag.Base.Text.contains eu_rag.Pipeline.build_clients
    eu_rag.Llm.get_llm_client eu_rag.Llm.complete eu_rag.Llm.outcome eu_rag.Pipeline.answer
    eu_rag.Retrieval.Hybrid.retrieve_scored eu_rag.Registry.get_chunks eu_rag.Registry.row_to_chunk
    eu_rag.Retrieval.Pick.pick eu_rag.Retrieval.Pick.doc_of eu_rag.Retrieval.Fusion.rrf_fuse
    eu_rag.Retrieval.Sort.sort_down eu_rag.Retrieval.Bm25.search eu_rag.Retrieval.Bm25.tokenize
    eu_rag.Retrieval.Bm25.counter eu_rag.Retrieval.Bm25.total eu_rag.Retrieval.Bm25.add_chunk
    eu_rag.Retrieval.Bm25.count_terms eu_rag.Base.Dict.get eu_rag.Base.Dict.put
    eu_rag.Generation.Answerer.answer_question eu_rag.Generation.Answerer.judge
    eu_rag.Generation.Answerer.shipped eu_rag.Generation.Answerer.is_acceptable
    eu_rag.Generation.Citations.build_citations eu_rag.Generation.Citations.markers_used
    eu_rag.Generation.Citations.validate_answer eu_rag.Pipeline.escalate
    eu_rag.Api.Query.query_route eu_rag.Api.Query.query_anonymous eu_rag.Quota.Anon.consume
    eu_rag.Generation.Answerer.is_refunded eu_rag.Security.Turnstile.verify
    eu_rag.Pipeline.resolve_llm
is_routed = refl

query_route-IsScoped_example :
    IsScoped ascii no_cipher registry (readable app none) first_reply.result
query_route-IsScoped_example =
    query_route-IsScoped ascii folding helpful math lexer app clock none "10.0.0.1" body state
      first_reply is_routed

is_refused :
    (query_route ascii folding helpful math lexer app clock none "10.0.0.1" body spent_state).0
    ≡ http_error 401 "anonymous_limit_reached"
unfolding query eu_rag.Smalltalk.is_smalltalk eu_rag.Smalltalk.normalise eu_rag.Base.Text.strip
    eu_rag.Base.Text.lstrip eu_rag.Base.Text.rstrip eu_rag.Base.Text.◌<>◌ eu_rag.Base.Text.decimal
    eu_rag.Base.Text.join eu_rag.Base.Text.contains eu_rag.Pipeline.build_clients
    eu_rag.Llm.get_llm_client eu_rag.Llm.complete eu_rag.Llm.outcome eu_rag.Pipeline.answer
    eu_rag.Retrieval.Hybrid.retrieve_scored eu_rag.Registry.get_chunks eu_rag.Registry.row_to_chunk
    eu_rag.Retrieval.Pick.pick eu_rag.Retrieval.Pick.doc_of eu_rag.Retrieval.Fusion.rrf_fuse
    eu_rag.Retrieval.Sort.sort_down eu_rag.Retrieval.Bm25.search eu_rag.Retrieval.Bm25.tokenize
    eu_rag.Retrieval.Bm25.counter eu_rag.Retrieval.Bm25.total eu_rag.Retrieval.Bm25.add_chunk
    eu_rag.Retrieval.Bm25.count_terms eu_rag.Base.Dict.get eu_rag.Base.Dict.put
    eu_rag.Generation.Answerer.answer_question eu_rag.Generation.Answerer.judge
    eu_rag.Generation.Answerer.shipped eu_rag.Generation.Answerer.is_acceptable
    eu_rag.Generation.Citations.build_citations eu_rag.Generation.Citations.markers_used
    eu_rag.Generation.Citations.validate_answer eu_rag.Pipeline.escalate
    eu_rag.Api.Query.query_route eu_rag.Api.Query.query_anonymous eu_rag.Quota.Anon.consume
    eu_rag.Generation.Answerer.is_refunded eu_rag.Security.Turnstile.verify
    eu_rag.Pipeline.resolve_llm
is_refused = refl

query_route-refused_example :
    (query_route ascii folding helpful math lexer app clock none "10.0.0.1" body
      spent_state).1.world
    ≡ world
query_route-refused_example =
    query_route-refused ascii folding helpful math lexer app clock none "10.0.0.1" body spent_state
      401 "anonymous_limit_reached" is_refused

abbrev visitor : String
visitor = "ip:" <> "10.0.0.1"

query_anonymous-charge_example :
    let ran = query_anonymous ascii folding helpful math lexer app clock "10.0.0.1" body state in
    (Anon.remaining 20 visitor 2 ran.1.anon_quota ≡ (
      if visitor == visitor
      then Anon.remaining 20 visitor 2 state.anon_quota - price ran.0
      else Anon.remaining 20 visitor 2 state.anon_quota))
    × Shows (some (Anon.remaining 20 visitor 2 ran.1.anon_quota)) ran.0
query_anonymous-charge_example =
    query_anonymous-charge ascii folding helpful math lexer app 20 1000 "10.0.0.1" visitor body
      state

query_user-charge_example :
    let ran = query_user ascii folding helpful math lexer app clock bob body state in
    let charged_for = pays_by_quota app bob state.auth in
    (User.remaining "bob" 5 ran.1.user_quota ≡ (
      if charged_for && "bob" == "bob"
      then User.remaining "bob" 5 state.user_quota - price ran.0
      else User.remaining "bob" 5 state.user_quota))
    × Shows (if charged_for then some (User.remaining "bob" 5 ran.1.user_quota) else none) ran.0
query_user-charge_example =
    query_user-charge ascii folding helpful math lexer app clock bob "bob" body state
