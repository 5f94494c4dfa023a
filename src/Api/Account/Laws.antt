-- ===== src/Api/Account/Laws.antt =====
-- What is left of an account that the route of api/routes/account.py deletes.
use eu_rag.Base.{
  ℕ, ◌≡◌, ◌≢◌, ◌⊎◌, refl, String, Bool, true, false, arith, if◌then◌else◌, Option, none, some, ◌==◌,
  eq_iff, find, some_inj, sym, subst,
}
use eu_rag.Base.Text.{Unicode, strip}
use eu_rag.Registry.{public_tenant}
use eu_rag.Retrieval.Bm25.{FloatMath}
use eu_rag.Auth.{AuthStore, Principal, erased_actor, user_exists, is_user}
use eu_rag.Auth
use eu_rag.Auth.Erasure.{names, holds_token, erase_user-forgets}
use eu_rag.Chats.{ChatStore, get_chat}
use eu_rag.Chats.Erasure.{erase_chats-forgets}
use eu_rag.Pipeline.{Pipeline}
use eu_rag.Pipeline.Erase.{Forget, VectorSearch, erase_tenant}
use eu_rag.Pipeline.Erase.Laws.{
  IsGone, IsKept, IsUnlisted, IsOf, erase_tenant-IsKept, erase_tenant-IsGone, erase_tenant-failed,
  erase_tenant-parts,
}
use eu_rag.Api.{Reply, response, http_error, llm_error, server_error}
use eu_rag.Api.Account.{
  Holdings, Deleted, delete_account, erase_own, finish, confirmed, delete_from, erase_conversations,
}

-- the account of the request has no trace in the store of accounts, and no other row is touched
abbrev pub IsForgotten : String → AuthStore → AuthStore → Type 0
IsForgotten username store store' =
    (user_exists username store' ≡ false)
    × (holds_token username store'.refresh_tokens ≡ false)
    × (names username store'.audit_rows ≡ false)
    × ((j : String) → j ≢ username → find (is_user j) store'.users ≡ find (is_user j) store.users)

erase_conversations-forgets :
    {J : Type 0} (username j : String) (chats : Option (ChatStore J)) (kept : ChatStore J)
    → (erase_conversations username chats).1 ≡ some kept
    → get_chat j username kept ≡ none
unfolding erase_conversations
erase_conversations-forgets username j none kept e = cc
erase_conversations-forgets username j (some chats) kept e =
    let (gone, _, _) = erase_chats-forgets username chats in rw (sym (some_inj e)) (gone j)

module _ {F V J : Type 0} (math : FloatMath F) (forget : Forget F V) (p : Principal)
    (s : Holdings F V J) (store : AuthStore) where
  -- no chat opens for the name
  abbrev pub HasNoChat : Holdings F V J → Type 0
  HasNoChat s' =
      (kept : ChatStore J) (j : String)
      → s'.conversations ≡ some kept
      → get_chat j p.username kept ≡ none

  -- the documents that are not of the account's own tenant, which is not the public one
  abbrev pub KeepsOthers : Holdings F V J → Type 0
  KeepsOthers s' =
      (d : String)
      → (IsOf p.tenant d s.pipeline → p.tenant ≡ "public")
      → IsKept d s.pipeline s'.pipeline

  -- the vector store raises when it is to forget a document of the tenant
  abbrev pub StoreFails : Type 0
  StoreFails =
      (d : String) × (v : VectorSearch F V) × IsOf p.tenant d s.pipeline × ((forget d v).0 ≡ false)

  -- how the deletion of the account ends
  abbrev pub IsDeletion : Reply Deleted → Holdings F V J → Type 0
  IsDeletion (response deleted) s' =
      (store' : AuthStore) × (s'.auth ≡ some store')
      × IsForgotten p.username store store'
      × HasNoChat s'
      × ((d : String) → p.tenant ≢ "public" → IsOf p.tenant d s.pipeline → IsGone d s'.pipeline)
      × KeepsOthers s'
  IsDeletion server_error s' =
      (p.tenant ≢ "public")
      × StoreFails
      × (s'.auth ≡ s.auth)
      × (s'.user_quota ≡ s.user_quota)
      × HasNoChat s'
      × ((d : String) → IsKept d s.pipeline s'.pipeline ⊎ IsUnlisted d s'.pipeline)
      × KeepsOthers s'
  IsDeletion (http_error status code) s' = ⊥
  IsDeletion (llm_error k) s' = ⊥

  -- what is done to the documents
  abbrev pub IsErasure : Option ℕ × Pipeline F V → Type 0
  IsErasure (none, q) =
      (p.tenant ≢ "public")
      × StoreFails
      × ((d : String) → IsKept d s.pipeline q ⊎ IsUnlisted d q)
      × ((d : String) → (IsOf p.tenant d s.pipeline → p.tenant ≡ "public") → IsKept d s.pipeline q)
  IsErasure (some n, q) =
      ((d : String) → p.tenant ≢ "public" → IsOf p.tenant d s.pipeline → IsGone d q)
      × ((d : String) → (IsOf p.tenant d s.pipeline → p.tenant ≡ "public") → IsKept d s.pipeline q)

  erase_tenant-IsErasure :
      (p.tenant == public_tenant) ≡ false
      → (o : Option ℕ) → (erase_tenant math forget p.tenant s.pipeline).0 ≡ o
      → IsErasure (o, (erase_tenant math forget p.tenant s.pipeline).1)
  erase_tenant-IsErasure own none e =
      let other : p.tenant ≢ "public" = λ same. ground (arith, eq_iff p.tenant "public") in
      (
        other,
        erase_tenant-failed math forget p.tenant s.pipeline own e,
        erase_tenant-parts math forget p.tenant s.pipeline own,
        λ d apart.
            erase_tenant-IsKept math forget p.tenant s.pipeline own d (λ of. other (apart of)),
      )
  erase_tenant-IsErasure own (some n) e =
      let other : p.tenant ≢ "public" = λ same. ground (arith, eq_iff p.tenant "public") in
      let (_, gone) = erase_tenant-IsGone math forget p.tenant s.pipeline own n e in
      (
        λ d _ of. gone d of,
        λ d apart.
            erase_tenant-IsKept math forget p.tenant s.pipeline own d (λ of. other (apart of)),
      )

  erase_own-IsErasure : IsErasure (erase_own math forget p.tenant s.pipeline)
  unfolding erase_own
  erase_own-IsErasure = go (p.tenant == public_tenant) refl
    where
      go :
          (official : Bool)
          → (p.tenant == public_tenant) ≡ official
          → IsErasure (
              if official
              then (some 0, s.pipeline)
              else erase_tenant math forget p.tenant s.pipeline)
      go true named = (
        λ d other of. absurd (other ((eq_iff p.tenant public_tenant).0 named)),
        λ d apart. (refl, refl, λ cid e. refl),
      )
      go false own = erase_tenant-IsErasure own _ refl

  finish-IsDeletion :
      (now : ℕ) (o : Option ℕ × Pipeline F V)
      → p.username ≢ erased_actor
      → IsErasure o
      → let (reply, s') = finish now p store o s in IsDeletion reply s'
  unfolding finish
  finish-IsDeletion now (none, q) other (own, fails, parts, kept) = (
    own,
    fails,
    refl,
    refl,
    λ chats j is_kept. erase_conversations-forgets p.username j s.conversations chats is_kept,
    parts,
    kept,
  )
  finish-IsDeletion now (some n, q) other (gone, kept) =
      let (no_user, no_token, no_row, _, _) = erase_user-forgets now p.username store other in
      (
        Auth.erase_user now p.username store,
        refl,
        (
          no_user,
          no_token,
          no_row,
          λ j apart.
              let (_, _, _, _, others) = erase_user-forgets now p.username store other in
              others j apart,
        ),
        λ chats j is_kept. erase_conversations-forgets p.username j s.conversations chats is_kept,
        gone,
        kept,
      )

module _ (u : Unicode) {F V J : Type 0} (math : FloatMath F) (forget : Forget F V) where
  delete_from-IsDeletion :
      (now : ℕ) (confirm_username : String) (p : Principal) (s : Holdings F V J) (store : AuthStore)
      → u.lower (strip u confirm_username) ≡ p.username
      → p.username ≢ erased_actor
      → let (reply, s') = delete_from u math forget now confirm_username p (some store) s in
        IsDeletion math forget p s store reply s'
  unfolding delete_from confirmed
  delete_from-IsDeletion now confirm_username p s store same other =
      rw ((eq_iff (u.lower (strip u confirm_username)) p.username).1 same) (
        finish-IsDeletion math forget p s store now (erase_own math forget p.tenant s.pipeline)
          other (erase_own-IsErasure math forget p s store))

  -- On an instance with accounts, a request that confirms its own name is answered with a response,
  -- unless the vector store raises for a document of its tenant. After a response the store of
  -- accounts has no account, no refresh token and no audit row of the name, and its other accounts
  -- are as they were; no chat opens for the name; the documents with a row of its tenant, if that
  -- is not the public one, are gone with their passages and their entries in the live index. After
  -- the exception the account is usable: the store of accounts and the allowances are as they were,
  -- the chats are gone, and each document is kept or gone from the registry. In both cases every
  -- document of no row of the tenant is kept, and each public one.
  pub delete_account-forgets :
      (now : ℕ) (confirm_username : String) (p : Principal) (s : Holdings F V J) (store : AuthStore)
      → s.auth ≡ some store
      → u.lower (strip u confirm_username) ≡ p.username
      → p.username ≢ erased_actor
      → let (reply, s') = delete_account u math forget now confirm_username p s in
        IsDeletion math forget p s store reply s'
  unfolding delete_account
  delete_account-forgets now confirm_username p s store on same other =
      subst
        (λ auth.
          let (reply, s') = delete_from u math forget now confirm_username p auth s in
          IsDeletion math forget p s store reply s')
        (sym on) (delete_from-IsDeletion now confirm_username p s store same other)
