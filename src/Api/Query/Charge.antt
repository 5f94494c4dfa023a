-- ===== src/Api/Query/Charge.antt =====
-- What POST /query charges.
use eu_rag.Base.{
  ℕ, ◌+◌, ◌-◌, ◌≡◌, refl, ap, String, true, false, ◌&&◌, not, Bool, find, is_some, Option-cases,
  Option, none, some, arith, if◌then◌else◌, ◌==◌, eq_iff, eq_refl, Bool-cases, inl, inr,
}
use eu_rag.Base.Text.{Unicode, ◌<>◌, is_empty}
use eu_rag.Llm.{Outcome, ok, unavailable, crash, Api}
use eu_rag.Smalltalk.{Folding}
use eu_rag.Retrieval.Bm25.{Lexer, FloatMath}
use eu_rag.Generation.Answerer.{AnswerResult, is_refunded}
use eu_rag.Auth.{Principal, AuthStore, User, is_user, get_byok}
use eu_rag.Quota.Anon
use eu_rag.Quota.Anon.Laws.{consume-remaining, refund-consume}
use eu_rag.Quota.User
use eu_rag.Quota.User.Laws.{user_consume-remaining, user_refund-consume, consume_refused}
use eu_rag.Security.Turnstile.{verify}
use eu_rag.Api.{App, State, Reply, response, http_error, llm_error, server_error}
use eu_rag.Api.Deps.{Plan, paid_tier, byok_plan, spend_free_question, refund_free_question, is_free}
use eu_rag.Api.Query.{
  QueryRequest, Answered, Clock, settle_anonymous, settle, audited, run, query_anonymous, charged,
  query_user, raised_by_one,
}

-- What a reply takes from an allowance: an answer that a model gave, and an exception that nothing
-- foresaw.
abbrev pub price : {F : Type 0} → Reply (Answered F) → ℕ
price (response a) = if is_refunded a.result.mode then 0 else 1
price (http_error status code) = 0
price (llm_error k) = 0
price server_error = 1

-- The count that a reply shows, if it is an answer, is this one.
abbrev pub Shows : {F : Type 0} → Option ℕ → Reply (Answered F) → Type 0
Shows left (response a) = a.left ≡ left
Shows left (http_error status code) = Unit
Shows left (llm_error k) = Unit
Shows left server_error = Unit

-- a stored key that the application's cipher opens
abbrev pub is_working : Option (String → Option String) → Option String → Bool
is_working none enc = false
is_working (some decrypt) none = false
is_working (some decrypt) (some enc) = not (is_empty enc) && is_some (decrypt enc)

abbrev pub has_working_key : Option (String → Option String) → Option User → Bool
has_working_key decrypt none = false
has_working_key decrypt (some user) = is_working decrypt user.byok_key_enc

-- there are accounts, and this one has no key of its own that works
abbrev pub pays_by_quota : {F V : Type 0} → App F V → Principal → AuthStore → Bool
pays_by_quota app p store =
    app.auth_enabled && not (has_working_key app.decrypt (find (is_user p.username) store.users))

module _ {F V : Type 0} (app : App F V) where
  byok_plan-is_free :
      (enc : Option String) (decrypt : Option (String → Option String))
      → is_free (byok_plan app.settings enc decrypt).tier ≡ not (is_working decrypt enc)
  unfolding byok_plan
  byok_plan-is_free none none = refl
  byok_plan-is_free none (some decrypt) = refl
  byok_plan-is_free (some enc) none = refl
  byok_plan-is_free (some enc) (some decrypt) = elim (Bool-cases (is_empty enc)) [
    | inl empty ↦ rw empty refl
    | inr full ↦ elim (Option-cases (decrypt enc)) [
      | inl closed ↦ rw (full, closed) refl
      | inr (key, opens) ↦ rw (full, opens) refl
    ]
  ]

  paid_tier-is_free :
      (p : Principal) (store : AuthStore)
      → is_free (paid_tier app p store).tier ≡ pays_by_quota app p store
  unfolding paid_tier get_byok
  paid_tier-is_free p store = elim (Bool-cases app.auth_enabled) [
    | inr off ↦ rw off refl
    | inl on ↦ elim (Option-cases (find (is_user p.username) store.users)) [
      | inl missing ↦ rw (on, missing) refl
      | inr (user, there) ↦ rw (on, there) (byok_plan-is_free user.byok_key_enc app.decrypt)
    ]
  ]

module _ (day limit : ℕ) (key : String) (j : String) (t : Anon.AnonTable) where
  -- the two counts of a question that is allowed, kept or given back
  allowed_question :
      (Anon.consume day key limit t).0.0 ≡ true
      → (Anon.remaining day j limit (Anon.consume day key limit t).1
          ≡ (if j == key then Anon.remaining day j limit t - 1 else Anon.remaining day j limit t))
        × ((Anon.consume day key limit t).0.1
            ≡ Anon.remaining day key limit (Anon.consume day key limit t).1)
        × (Anon.remaining day j limit (Anon.refund day key (Anon.consume day key limit t).1)
            ≡ Anon.remaining day j limit t)
        × ((Anon.consume day key limit t).0.1 + 1
            ≡ Anon.remaining day key limit (Anon.refund day key (Anon.consume day key limit t).1))
  allowed_question allowed = ground (
    arith,
    refund-consume day key limit j t,
    refund-consume day key limit key t,
    consume-remaining day key limit j t,
    consume-remaining day key limit key t,
    eq_iff j key,
    eq_refl key,
  )

  -- the question has been charged, and is settled on the same day
  settle_anonymous-charge :
      {F : Type 0} (o : Outcome (AnswerResult F)) (s : State)
      → s.anon_quota ≡ (Anon.consume day key limit t).1
      → (Anon.consume day key limit t).0.0 ≡ true
      → let (reply, s') = settle_anonymous day key (Anon.consume day key limit t).0.1 o s in
        (Anon.remaining day j limit s'.anon_quota ≡ (
          if j == key
          then Anon.remaining day j limit t - price reply
          else Anon.remaining day j limit t))
        × Shows (some (Anon.remaining day key limit s'.anon_quota)) reply
  unfolding settle_anonymous
  settle_anonymous-charge (ok r) s taken allowed = elim (Bool-cases (is_refunded r.mode)) [
    | inl unspent ↦ rw (unspent, taken) (ground (arith, allowed_question allowed))
    | inr spent ↦ rw (spent, taken) (ground (arith, allowed_question allowed))
  ]
  settle_anonymous-charge (unavailable k) s taken allowed =
      rw taken (ground (arith, allowed_question allowed))
  settle_anonymous-charge crash s taken allowed =
      rw taken (ground (arith, allowed_question allowed))

module _ (limit : ℕ) (name j : String) (t : User.UserTable) where
  -- the two counts of a question that is allowed, kept or given back
  allowed_user :
      (User.consume name limit t).0.0 ≡ true
      → (User.remaining j limit (User.consume name limit t).1
          ≡ (if j == name then User.remaining j limit t - 1 else User.remaining j limit t))
        × ((User.consume name limit t).0.1
            ≡ User.remaining name limit (User.consume name limit t).1)
        × (User.remaining j limit (User.refund name (User.consume name limit t).1)
            ≡ User.remaining j limit t)
        × ((User.consume name limit t).0.1 + 1
            ≡ User.remaining name limit (User.refund name (User.consume name limit t).1))
  allowed_user allowed = ground (
    arith,
    user_refund-consume name limit j t,
    user_refund-consume name limit name t,
    user_consume-remaining name limit j t,
    user_consume-remaining name limit name t,
    eq_iff j name,
    eq_refl name,
  )

module _ {F V : Type 0} (app : App F V) (now : ℕ) (p : Principal) (plan : Plan)
    (body : QueryRequest) where
  -- a free question has been charged, and is settled
  settle-charge :
      (j : String) (t : User.UserTable) (o : Outcome (AnswerResult F)) (s : State)
      → let limit = app.settings.free_user_questions in
        is_free plan.tier ≡ true
        → s.user_quota ≡ (User.consume p.username limit t).1
        → (User.consume p.username limit t).0.0 ≡ true
        → let (reply, s') =
            settle app now p plan body (some (User.consume p.username limit t).0.1) o s in
          (User.remaining j limit s'.user_quota ≡ (
            if j == p.username
            then User.remaining j limit t - price reply
            else User.remaining j limit t))
          × Shows (some (User.remaining p.username limit s'.user_quota)) reply
  unfolding settle audited refund_free_question
  settle-charge j t (ok r) s on_quota taken allowed = elim (Bool-cases (is_refunded r.mode)) [
    | inl unspent ↦ elim (Bool-cases app.auth_enabled) [
      | inl enabled ↦
          rw (unspent, taken, on_quota, enabled)
            (ground (arith, allowed_user _ p.username j t allowed))
      | inr disabled ↦
          rw (unspent, taken, on_quota, disabled)
            (ground (arith, allowed_user _ p.username j t allowed))
    ]
    | inr spent ↦ elim (Bool-cases app.auth_enabled) [
      | inl enabled ↦
          rw (spent, enabled, taken) (ground (arith, allowed_user _ p.username j t allowed))
      | inr disabled ↦
          rw (spent, disabled, taken) (ground (arith, allowed_user _ p.username j t allowed))
    ]
  ]
  settle-charge j t (unavailable k) s on_quota taken allowed =
      rw (on_quota, taken) (ground (arith, allowed_user _ p.username j t allowed))
  settle-charge j t crash s on_quota taken allowed =
      rw taken (ground (arith, allowed_user _ p.username j t allowed))

module _ (u : Unicode) (folding : Folding) {F V : Type 0} (api : Api) (math : FloatMath F)
    (lexer : Lexer) (app : App F V) where
  -- Of an anonymous question that is settled on the day that it is asked: its address is charged
  -- exactly the price of the reply, no other address is charged, and a count that is shown is the
  -- count that is left.
  pub query_anonymous-charge :
      (day now : ℕ) (ip j : String) (body : QueryRequest) (s : State)
      → let limit = app.settings.free_anon_questions in
        let (reply, s') =
          query_anonymous u folding api math lexer app
            (record { asked = day; answered = day; now = now })
            ip
            body
            s in
        (Anon.remaining day j limit s'.anon_quota ≡ (
          if j == ("ip:" <> ip)
          then Anon.remaining day j limit s.anon_quota - price reply
          else Anon.remaining day j limit s.anon_quota))
        × Shows (some (Anon.remaining day ("ip:" <> ip) limit s'.anon_quota)) reply
  unfolding query_anonymous run
  query_anonymous-charge day now ip j body s =
      let key = "ip:" <> ip in
      let limit = app.settings.free_anon_questions in
      elim (Bool-cases (
        not (is_empty app.settings.turnstile_secret)
        && not (verify app.siteverify body.turnstile_token app.settings.turnstile_secret ip))) [
          | inl blocked ↦ rw blocked (ground arith)
          | inr passed ↦ elim (Bool-cases (Anon.consume day key limit s.anon_quota).0.0) [
            | inl allowed ↦
                rw (passed, allowed)
                  (settle_anonymous-charge day limit key j s.anon_quota _ _ refl allowed)
            | inr refused ↦
                rw (passed, refused)
                  (ground (
                    arith,
                    consume-remaining day key limit j s.anon_quota,
                    eq_iff j key,
                    eq_refl key,
                  ))
          ]
        ]

module _ {F V : Type 0} (app : App F V) (now : ℕ) (p : Principal) (plan : Plan)
    (body : QueryRequest) where
  -- other questions than the free ones are charged to nobody
  settle-uncharged :
      (o : Outcome (AnswerResult F)) (s : State)
      → is_free plan.tier ≡ false
      → ((settle app now p plan body none o s).1.user_quota ≡ s.user_quota)
        × Shows none (settle app now p plan body none o s).0
  unfolding settle audited refund_free_question raised_by_one
  settle-uncharged (ok r) s other = elim (Bool-cases (is_refunded r.mode)) [
    | inl unspent ↦ elim (Bool-cases app.auth_enabled) [
      | inl enabled ↦ rw (unspent, enabled, other) (refl, refl)
      | inr disabled ↦ rw (unspent, disabled, other) (refl, refl)
    ]
    | inr spent ↦ elim (Bool-cases app.auth_enabled) [
      | inl enabled ↦ rw (spent, enabled) (refl, refl)
      | inr disabled ↦ rw (spent, disabled) (refl, refl)
    ]
  ]
  settle-uncharged (unavailable k) s other = rw other (refl, tt)
  settle-uncharged crash s other = (refl, tt)

module _ (u : Unicode) (folding : Folding) {F V : Type 0} (api : Api) (math : FloatMath F)
    (lexer : Lexer) (app : App F V) where
  charged-charge :
      (clock : Clock) (p : Principal) (plan : Plan) (j : String) (body : QueryRequest) (s : State)
      → let limit = app.settings.free_user_questions in
        let (spent, t) = spend_free_question app p plan s.user_quota in
        let (reply, s') =
          charged u folding api math lexer app clock.now p plan body spent
            (record s { user_quota = t }) in
        (User.remaining j limit s'.user_quota ≡ (
          if is_free plan.tier && j == p.username
          then User.remaining j limit s.user_quota - price reply
          else User.remaining j limit s.user_quota))
        × Shows
            (if is_free plan.tier
              then some (User.remaining p.username limit s'.user_quota)
              else none)
            reply
  unfolding spend_free_question charged run
  charged-charge clock p plan j body s =
      let limit = app.settings.free_user_questions in
      elim (Bool-cases (is_free plan.tier)) [
        | inl on_quota ↦ elim (Bool-cases (User.consume p.username limit s.user_quota).0.0) [
          | inl allowed ↦
              rw (on_quota, allowed)
                (settle-charge app clock.now p plan body j s.user_quota _ _ on_quota refl allowed)
          | inr refused ↦
              rw (on_quota, refused)
                (ground (
                  arith,
                  user_consume-remaining p.username limit j s.user_quota,
                  consume_refused p.username limit s.user_quota,
                  eq_iff j p.username,
                  eq_refl p.username,
                ))
        ]
        | inr other ↦
            let (same, none_shown) = settle-uncharged app clock.now p plan body _ _ other in
            rw other (ap (λ t. User.remaining j limit t) same, none_shown)
      ]

  -- Of a question of an account: where there are accounts, and this one has stored no key of its own
  -- that the application's cipher opens, its lifetime allowance is charged exactly the price of the
  -- reply and a count that is shown is the count that is left. With such a key, or where there are
  -- no accounts, no allowance is charged and no count is shown. No other account is charged.
  pub query_user-charge :
      (clock : Clock) (p : Principal) (j : String) (body : QueryRequest) (s : State)
      → let limit = app.settings.free_user_questions in
        let charged_for = pays_by_quota app p s.auth in
        let (reply, s') = query_user u folding api math lexer app clock p body s in
        (User.remaining j limit s'.user_quota ≡ (
          if charged_for && j == p.username
          then User.remaining j limit s.user_quota - price reply
          else User.remaining j limit s.user_quota))
        × Shows
            (if charged_for then some (User.remaining p.username limit s'.user_quota) else none)
            reply
  unfolding query_user
  query_user-charge clock p j body s =
      rw (paid_tier-is_free app p s.auth) at
        (charged-charge clock p (paid_tier app p s.auth) j body s)
