-- ===== src/Pipeline/Erase.antt =====
-- `erase_document` and `erase_tenant` of core/pipeline.py. What Qdrant does when it is told to forget
-- a document is the parameter `forget`.
pub mod Entries
pub mod Laws
use eu_rag.Base.{
  ℕ, String, Bool, true, false, Option, none, some, List, [], ◌∷◌, ◌==◌, if◌then◌else◌, select,
  length, not, is_some,
}
use eu_rag.Registry.{Registry, public_tenant, delete_document, tenant_doc_ids}
use eu_rag.Retrieval.Bm25.{FloatMath, Index, remove_chunk, ids}
use eu_rag.Retrieval.Pick.{doc_of}
use eu_rag.Pipeline.{Pipeline}

abbrev pub VectorSearch : Type 0 → Type 0 → Type 0
VectorSearch F V = V → ℕ → Option (List String) → Option (List (String × F))

-- `delete_document` of the vector store, on the searches that it answers: whether the call returns
-- (it raises otherwise), and the searches that are answered afterwards
abbrev pub Forget : Type 0 → Type 0 → Type 0
Forget F V = String → VectorSearch F V → Bool × VectorSearch F V

module _ {F : Type 0} (math : FloatMath F) where
  -- the loop over the ids of the live index
  pub remove_ids : List String → Index F → Index F
  remove_ids [] index = index
  remove_ids (cid ∷ cids) index = remove_ids cids (remove_chunk math cid index)

module _ {F V : Type 0} (math : FloatMath F) (forget : Forget F V) where
  -- whether it existed, or none for an exception of the vector store, with the state that is reached
  unfoldable pub erase_document : String → Pipeline F V → Option Bool × Pipeline F V
  unfolding remove_ids
  erase_document doc_id p =
      let (existed, registry) = delete_document doc_id p.registry in
      let (returns, found) = forget doc_id p.vector_search in
      if not existed
      then (some false, record p { registry = registry })
      else if returns
      then (
        some true,
        record p {
          registry = registry;
          vector_search = found;
          bm25 = remove_ids math (select (λ cid. doc_of cid == doc_id) (ids math p.bm25)) p.bm25;
        },
      )
      else (none, record p { registry = registry; vector_search = found })

  -- the loop, which an exception ends: whether it comes to its end
  pub erase_documents : List String → Pipeline F V → Bool × Pipeline F V
  erase_documents [] p = (true, p)
  erase_documents (doc_id ∷ doc_ids) p =
      let (erased, p') = erase_document doc_id p in
      let rest = erase_documents doc_ids p' in if is_some erased then rest else (false, p')

  -- none is the ValueError, or an exception of the loop
  unfoldable pub erase_tenant : String → Pipeline F V → Option ℕ × Pipeline F V
  unfolding erase_documents
  erase_tenant tenant p =
      let doc_ids = tenant_doc_ids p.registry tenant in
      let (ends, p') = erase_documents doc_ids p in
      if tenant == public_tenant
      then (none, p)
      else (if ends then some (length doc_ids) else none, p')
