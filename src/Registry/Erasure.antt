-- ===== src/Registry/Erasure.antt =====
-- What saving and deleting a document does to it and to the others.
use eu_rag.Base.{
  String, ◌≡◌, ◌≢◌, refl, ap, ◌∙◌, Bool, Option, none, some, List, [], ◌∷◌, arith, eq_iff, eq_refl,
  find, any, is_some, length,
}
use eu_rag.Sql.{insert, find-delete_self, find-delete_miss, find-insert_hit, find-insert_miss}
use eu_rag.Chunk.{Chunk, Document}
use eu_rag.Registry.{
  Registry, DocumentRow, Cipher, is_document, of_document, document_hash, document_tenant,
  tenant_of, hash_of, drop_document, delete_document, document_row, save,
}

any-find : {A : Type 0} (p : A → Bool) (xs : List A) → any p xs ≡ is_some (find p xs)
any-find p [] = refl
any-find p (x ∷ xs) = ground (arith, any-find p xs)

is_some-tenant_of : (o : Option DocumentRow) → is_some o ≡ is_some (tenant_of o)
is_some-tenant_of none = refl
is_some-tenant_of (some r) = refl

module _ (doc_id : String) where
  find-drop :
      (d : String) (reg : Registry)
      → d ≢ doc_id
      → find (is_document d) (drop_document doc_id reg).documents
        ≡ find (is_document d) reg.documents
  unfolding drop_document
  find-drop d reg other =
      find-delete_miss (is_document d) (is_document doc_id) reg.documents
        (λ r e. ground (arith, eq_iff r.doc_id doc_id, eq_iff r.doc_id d))

  find-drop_self :
      (reg : Registry) → find (is_document doc_id) (drop_document doc_id reg).documents ≡ none
  unfolding drop_document
  find-drop_self reg = find-delete_self (is_document doc_id) reg.documents

  -- Deleting a document tells whether it was there; afterwards neither it nor any chunk of it is,
  -- and every other document is what it was.
  pub delete_document-forgets :
      (reg : Registry) (d : String)
      → let (deleted, reg') = delete_document doc_id reg in
        (deleted ≡ is_some (document_tenant reg doc_id))
        × (document_tenant reg' doc_id ≡ none)
        × (find (of_document doc_id) reg'.chunks ≡ none)
        × (d ≢ doc_id
            → (document_tenant reg' d ≡ document_tenant reg d)
              × (document_hash reg' d ≡ document_hash reg d)
              × (find (of_document d) reg'.chunks ≡ find (of_document d) reg.chunks))
  unfolding delete_document document_tenant document_hash
  delete_document-forgets reg d = (
    any-find (is_document doc_id) reg.documents
        ∙ is_some-tenant_of (find (is_document doc_id) reg.documents),
    ap tenant_of (find-drop_self reg),
    find-delete_self (of_document doc_id) reg.chunks,
    λ other. (
      ap tenant_of (find-drop d reg other),
      ap hash_of (find-drop d reg other),
      find-delete_miss (of_document d) (of_document doc_id) reg.chunks
          (λ r e. ground (arith, eq_iff r.doc_id doc_id, eq_iff r.doc_id d)),
    ),
  )

documents-save :
    (cipher : Cipher) (doc : Document) (content_hash : String) (cs : List (Chunk × String))
    (tenant : String) (reg reg' : Registry)
    → save cipher doc content_hash cs tenant reg ≡ some reg'
    → reg'.documents
      ≡ insert
          (document_row doc content_hash (length cs) tenant)
          (drop_document doc.doc_id reg).documents
unfolding save
documents-save cipher doc content_hash cs tenant reg reg' e = ground arith

-- A save that goes through leaves the document with the new content and in the saver's tenant,
-- whoever owned a document of that id before; no other document changes its owner or its content.
pub save-document :
    (cipher : Cipher) (doc : Document) (content_hash : String) (cs : List (Chunk × String))
    (tenant : String) (reg reg' : Registry) (d : String)
    → save cipher doc content_hash cs tenant reg ≡ some reg'
    → (document_hash reg' doc.doc_id ≡ some content_hash)
      × (document_tenant reg' doc.doc_id ≡ some tenant)
      × (d ≢ doc.doc_id
          → (document_tenant reg' d ≡ document_tenant reg d)
            × (document_hash reg' d ≡ document_hash reg d))
unfolding document_row document_tenant document_hash
save-document cipher doc content_hash cs tenant reg reg' d e =
    let row = document_row doc content_hash (length cs) tenant in
    let cleared = (drop_document doc.doc_id reg).documents in
    let written = documents-save cipher doc content_hash cs tenant reg reg' e in
    let own : find (is_document doc.doc_id) reg'.documents ≡ some row =
      ap (find (is_document doc.doc_id)) written
      ∙ find-insert_hit (is_document doc.doc_id) row cleared (find-drop_self doc.doc_id reg)
          (eq_refl doc.doc_id) in
    let other : d ≢ doc.doc_id
        → find (is_document d) reg'.documents ≡ find (is_document d) reg.documents =
      λ ne.
        ap (find (is_document d)) written
        ∙ find-insert_miss (is_document d) row cleared (ground (arith, eq_iff doc.doc_id d))
        ∙ find-drop doc.doc_id d reg ne in
    (ap hash_of own, ap tenant_of own, λ ne. (ap tenant_of (other ne), ap hash_of (other ne)))
