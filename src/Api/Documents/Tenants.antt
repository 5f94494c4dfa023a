-- ===== src/Api/Documents/Tenants.antt =====
-- What an administrator erases with a tenant, by api/routes/admin.py.
use eu_rag.Base.{
  ℕ, ◌≡◌, ◌≢◌, ◌⊎◌, inl, inr, refl, String, Bool, not, if◌then◌else◌, true, false, Option, none,
  some, ◌==◌, eq_iff, arith, Bool-cases,
}
use eu_rag.Registry.{public_tenant}
use eu_rag.Retrieval.Bm25.{FloatMath}
use eu_rag.Auth.{Principal, is_admin}
use eu_rag.Chats.{ChatStore, get_chat}
use eu_rag.Chats.Erasure.{erase_chats-forgets}
use eu_rag.Pipeline.Erase.{Forget, VectorSearch, erase_tenant}
use eu_rag.Sql.{row_count}
use eu_rag.Pipeline.Erase.Laws.{
  IsGone, IsKept, IsUnlisted, IsOf, erase_tenant-IsKept, erase_tenant-IsGone, erase_tenant-failed,
  erase_tenant-parts,
}
use eu_rag.Api.{App, Reply, response, http_error, llm_error, server_error}
use eu_rag.Api.Deps.{require_admin}
use eu_rag.Api.Documents.{Site, TenantErased, erase_chats_of, erased, erase_as, erase_tenant_route}

-- the chats of a user are gone
abbrev pub HasNoChats : {J : Type 0} → String → Option (ChatStore J) → Type 0
HasNoChats username none = Unit
HasNoChats username (some chats) = (id : String) → get_chat id username chats ≡ none

erase_chats_of-HasNoChats :
    {J : Type 0} (tenant : String) (o : Option (ChatStore J))
    → HasNoChats tenant (erase_chats_of tenant o).1
unfolding erase_chats_of
erase_chats_of-HasNoChats tenant none = tt
erase_chats_of-HasNoChats tenant (some chats) =
    let (gone, _, _) = erase_chats-forgets tenant chats in gone

module _ {F V J : Type 0} (app : App F V) (math : FloatMath F) (forget : Forget F V)
    (tenant : String) (p : Principal) (s : Site F V J) where
  -- the vector store raises when it is to forget a document of the tenant
  abbrev pub StoreFails : Type 0
  StoreFails =
      (d : String) × (v : VectorSearch F V) × IsOf tenant d s.pipeline × ((forget d v).0 ≡ false)

  -- how the route ends
  abbrev pub IsTenantErased : Reply TenantErased → Site F V J → Type 0
  IsTenantErased (response r) s' =
      (app.auth_enabled ≡ true)
      × (is_admin p ≡ true)
      × (tenant ≢ public_tenant)
      × (r.documents_erased ≡ row_count (λ r. r.tenant == tenant) s.pipeline.registry.documents)
      × ((d : String) → IsOf tenant d s.pipeline → IsGone d s'.pipeline)
      × ((d : String) → (IsOf tenant d s.pipeline → ⊥) → IsKept d s.pipeline s'.pipeline)
      × HasNoChats tenant s'.conversations
  IsTenantErased (http_error status code) s' =
      (s' ≡ s)
      × (((status ≡ 403) × (is_admin p ≡ false))
          ⊎ (((status ≡ 404) × (app.auth_enabled ≡ false))
              ⊎ ((status ≡ 400) × (tenant ≡ public_tenant))))
  IsTenantErased (llm_error k) s' = ⊥
  IsTenantErased server_error s' =
      (app.auth_enabled ≡ true)
      × (is_admin p ≡ true)
      × (tenant ≢ public_tenant)
      × StoreFails
      × ((d : String) → IsKept d s.pipeline s'.pipeline ⊎ IsUnlisted d s'.pipeline)
      × ((d : String) → (IsOf tenant d s.pipeline → ⊥) → IsKept d s.pipeline s'.pipeline)
      × (s'.auth ≡ s.auth)
      × (s'.conversations ≡ s.conversations)

  erased-IsTenantErased :
      (now : ℕ)
      → app.auth_enabled ≡ true
      → is_admin p ≡ true
      → (tenant == public_tenant) ≡ false
      → (o : Option ℕ) → (erase_tenant math forget tenant s.pipeline).0 ≡ o
      → let q = (erase_tenant math forget tenant s.pipeline).1 in
        let (r, s') = erased app math forget now tenant p (o, q) s in IsTenantErased r s'
  unfolding erased
  erased-IsTenantErased now on admin own none e = (
    on,
    admin,
    λ same. ground (arith, eq_iff tenant public_tenant),
    erase_tenant-failed math forget tenant s.pipeline own e,
    erase_tenant-parts math forget tenant s.pipeline own,
    erase_tenant-IsKept math forget tenant s.pipeline own,
    refl,
    refl,
  )
  erased-IsTenantErased now on admin own (some n) e =
      let (counted, gone) = erase_tenant-IsGone math forget tenant s.pipeline own n e in
      (
        on,
        admin,
        λ same. ground (arith, eq_iff tenant public_tenant),
        counted,
        gone,
        erase_tenant-IsKept math forget tenant s.pipeline own,
        erase_chats_of-HasNoChats tenant s.conversations,
      )

  erase_as-IsTenantErased :
      (now : ℕ)
      → is_admin p ≡ true
      → let (r, s') = erase_as app math forget now tenant (response p) s in IsTenantErased r s'
  unfolding erase_as
  erase_as-IsTenantErased now admin = go app.auth_enabled (tenant == public_tenant) refl refl
    where
      reached : Reply TenantErased × Site F V J
      reached = erased app math forget now tenant p (erase_tenant math forget tenant s.pipeline) s

      go :
          (on official : Bool)
          → app.auth_enabled ≡ on
          → (tenant == public_tenant) ≡ official
          → let (r, s') =
              if not on
              then (http_error 404 "auth is disabled on this instance", s)
              else if official
              then (http_error 400 "refusing to erase the public corpus", s)
              else reached in
            IsTenantErased r s'
      go false official off named = (refl, inr (inl (refl, off)))
      go true true on named = (refl, inr (inr (refl, (eq_iff tenant public_tenant).0 named)))
      go true false on named = erased-IsTenantErased now on admin named _ refl

  -- The route that erases a tenant answers only an administrator, where accounts are on, and never
  -- for the public tenant: then every document that has a row of the tenant is gone from the registry
  -- and from the live index, and these rows are counted, every other document is kept, and the chats
  -- of the user of that name are gone. For others nothing at all is changed, and the reply is 403,
  -- 404 or 400 for the first of these that fails. It ends in an exception only where the vector store
  -- raises for a document of the tenant: then each document is kept or gone from the registry, those
  -- of no row of the tenant are kept, and the log and the chats are as they were.
  pub erase_tenant_route-IsTenantErased :
      (now : ℕ)
      → let (r, s') = erase_tenant_route app math forget now tenant p s in IsTenantErased r s'
  unfolding erase_tenant_route require_admin erase_as
  erase_tenant_route-IsTenantErased now = elim (Bool-cases (is_admin p)) [
    | inl admin ↦ rw admin (erase_as-IsTenantErased now admin)
    | inr user ↦ rw user (refl, inl (refl, user))
  ]
