-- ===== src/Api/Account/Routes/Keys.antt =====
-- The model key of an account, from api/routes/account.py to the plan of its questions in
-- api/deps.py, encrypted by core/security/crypto.py.
use eu_rag.Base.{
  ℕ, ◌≡◌, ◌≢◌, inl, inr, refl, sym, ap, subst, ◌∙◌, String, Bool, true, false, not, Option, none,
  some, arith, eq_iff, eq_refl, find, length, if◌then◌else◌, Bool-cases, Option-cases, some_inj,
}
use eu_rag.Base.Text.{Unicode, is_empty, has_prefix, strip, count}
use eu_rag.Sql.{find-update, find-update_hit, find-update_miss}
use eu_rag.Security.Crypto.{Bytes, Aead, IsAead, nonce_length, encrypt, decrypt, decrypt-encrypt}
use eu_rag.Auth.{Principal, User, AuthStore, audit, is_user, get_byok, set_byok, clear_byok}
use eu_rag.Api.{App, response}
use eu_rag.Api.Deps.{Plan, byok, free_plan, paid_tier, byok_plan}
use eu_rag.Api.Account.Routes.{KeyStatus, set_key, store_key, clear_key}

-- what is stored is found again
set_byok-get_byok :
    (now : ℕ) (username encrypted : String) (s : AuthStore) (r : User)
    → find (is_user username) s.users ≡ some r
    → get_byok username (set_byok now username encrypted s) ≡ some encrypted
unfolding get_byok set_byok
set_byok-get_byok now username encrypted s r there =
    rw
      (find-update_hit (is_user username)
        (λ r. record r { byok_key_enc = some encrypted; byok_set_at = some now }) s.users (λ x h. h)
        r there)
      refl

-- the audit log has no part in it
audit-get_byok :
    (now : ℕ) (actor action resource detail : String) (s : AuthStore) (j : String)
    → get_byok j (audit now actor action resource detail s) ≡ get_byok j s
unfolding get_byok audit
audit-get_byok now actor action resource detail s j = refl

encrypt-is_empty :
    (a : Aead) (nonce : Bytes) (text : String) → is_empty (encrypt a nonce text) ≡ false
unfolding encrypt eu_rag.Base.Text.◌<>◌
encrypt-is_empty a nonce text = refl

set_byok-other :
    (now : ℕ) (username encrypted j : String) (s : AuthStore)
    → j ≢ username
    → get_byok j (set_byok now username encrypted s) ≡ get_byok j s
unfolding get_byok set_byok
set_byok-other now username encrypted j s other =
    rw
      (find-update_miss (is_user j) (is_user username)
        (λ r. record r { byok_key_enc = some encrypted; byok_set_at = some now }) s.users
        (λ r hit. ground (arith, eq_iff r.username username, eq_iff r.username j)) (λ r. refl))
      refl

clear_byok-get_byok :
    (username : String) (s : AuthStore) → get_byok username (clear_byok username s) ≡ none
unfolding get_byok clear_byok
clear_byok-get_byok username s = elim (Option-cases (find (is_user username) s.users)) [
  | inl none_there ↦
      rw
        (
          find-update (is_user username) (is_user username)
              (λ r. record r { byok_key_enc = none; byok_set_at = none }) s.users (λ r. refl),
          none_there,
        )
        refl
  | inr (r, there) ↦
      rw
        (find-update_hit (is_user username)
          (λ r. record r { byok_key_enc = none; byok_set_at = none }) s.users (λ x h. h) r there)
        refl
]

module _ {F V : Type 0} (app : App F V) (p : Principal) where
  -- the plan of a question that is asked with a key of one's own
  abbrev pub own_plan : String → Plan
  own_plan key = record {
    tier = byok;
    answer_model = some app.settings.llm_model;
    escalation_model = some app.settings.escalation_model;
    api_key = some key;
  }

  paid_tier_own :
      (enc key : String) (dec : String → Option String) (s : AuthStore)
      → app.auth_enabled ≡ true
      → app.decrypt ≡ some dec
      → get_byok p.username s ≡ some enc
      → is_empty enc ≡ false
      → dec enc ≡ some key
      → paid_tier app p s ≡ own_plan key
  unfolding paid_tier byok_plan
  paid_tier_own enc key dec s enabled cipher there full opens =
      simp (enabled, cipher, there, full, opens) refl

  paid_tier_free :
      (s : AuthStore)
      → app.auth_enabled ≡ true
      → get_byok p.username s ≡ none
      → paid_tier app p s ≡ free_plan app.settings
  unfolding paid_tier byok_plan
  paid_tier_free s enabled missing = simp (enabled, missing) refl

  set_key-stored :
      (u : Unicode) (enc : String → String) (now : ℕ) (api_key : String) (s s' : AuthStore)
      (status : KeyStatus)
      → set_key u (some enc) now api_key p (some s) ≡ (response status, some s')
      → (has_prefix "sk-ant-" (strip u api_key) ≡ true)
        × (status ≡ (byok, true))
        × (s'
            ≡ audit now p.username "account.byok_set" "" ""
                (set_byok now p.username (enc (strip u api_key)) s))
  unfolding set_key store_key
  set_key-stored u enc now api_key s s' status e = (ground arith, ground arith, ground arith)

  -- A key that the route stores, for an account that exists, is one of Anthropic's form, and the
  -- account's next questions are asked with it, on the paid models: what is decrypted for them is
  -- the key without its blanks. No other account's key is touched, and once the key is cleared the
  -- account is on the free plan. This is under a cipher that keeps AES-GCM's promise.
  pub set_key-paid_tier :
      (u : Unicode) (a : Aead) (nonce : Bytes) (now later : ℕ) (api_key : String) (s s' : AuthStore)
      (r : User) (status : KeyStatus)
      → IsAead a
      → length nonce ≡ nonce_length
      → a.decode_utf8 (a.encode_utf8 (strip u api_key)) ≡ some (strip u api_key)
      → app.auth_enabled ≡ true
      → app.decrypt ≡ some (decrypt a)
      → find (is_user p.username) s.users ≡ some r
      → set_key u (some (encrypt a nonce)) now api_key p (some s) ≡ (response status, some s')
      → (has_prefix "sk-ant-" (strip u api_key) ≡ true)
        × (paid_tier app p s' ≡ own_plan (strip u api_key))
        × ((j : String) → j ≢ p.username → get_byok j s' ≡ get_byok j s)
        × (s'' : AuthStore) × ((clear_key later p (some s')).1 ≡ some s'')
        × (paid_tier app p s'' ≡ free_plan app.settings)
  unfolding clear_key
  set_key-paid_tier u a nonce now later api_key s s' r status laws n utf8 enabled cipher there e =
      let key = strip u api_key in
      let enc = encrypt a nonce key in
      let (form, _, written) = set_key-stored u (encrypt a nonce) now api_key s s' status e in
      let (opens, _) = decrypt-encrypt a laws nonce key n utf8 in
      let found : get_byok p.username s' ≡ some enc =
        ap (get_byok p.username) written
        ∙ audit-get_byok now p.username _ "" "" _ p.username
        ∙ set_byok-get_byok now p.username enc s r there in
      (
        form,
        paid_tier_own enc key (decrypt a) s' enabled cipher found (encrypt-is_empty a nonce key)
            opens,
        λ j other.
            ap (get_byok j) written
            ∙ audit-get_byok now p.username _ "" "" _ j
            ∙ set_byok-other now p.username enc j s other,
        audit later p.username "account.byok_cleared" "" "" (clear_byok p.username s'),
        refl,
        paid_tier_free
            (audit later p.username "account.byok_cleared" "" "" (clear_byok p.username s')) enabled
            (audit-get_byok later p.username _ "" "" _ p.username
              ∙ clear_byok-get_byok p.username s'),
      )
