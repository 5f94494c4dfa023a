-- ===== src/Registry.antt =====
-- core/registry.py: the documents and their chunks, by tenant. The two tables are SQLite's, and
-- deleting a document deletes its chunks (ON DELETE CASCADE).
pub mod Tenancy
pub mod Erasure
pub mod Keys
pub mod Listing
use eu_rag.Base.{
  ℕ, String, Bool, true, false, ◌&&◌, Option, none, some, List, [], ◌∷◌, ◌++◌, ◌==◌, if◌then◌else◌,
  find, select, any, length, map,
}
use eu_rag.Sql.{insert, delete, row_count}
use eu_rag.Chunk.{Chunk, Document}

abbrev pub public_tenant : String
public_tenant = "public"

pub record DocumentRow : Type 0 where
  pub doc_id : String
  pub title : String
  pub source_url : String
  pub source_type : String
  pub language : String
  pub fetched_at : String
  pub content_hash : String
  pub n_chunks : ℕ
  pub tenant : String

pub record ChunkRow : Type 0 where
  pub chunk_id : String
  pub doc_id : String
  pub index : ℕ
  pub text : String
  pub title : String
  pub source_url : String
  pub tenant : String

pub record Registry : Type 0 where
  pub documents : List DocumentRow
  pub chunks : List ChunkRow

-- `_encrypt` and `_decrypt`: the identity where no cipher is configured. Encryption takes the
-- chunk's nonce, and decryption is none where it raises.
pub record Cipher : Type 0 where
  pub encrypt : String → String → String
  pub decrypt : String → Option String

abbrev pub no_cipher : Cipher
no_cipher = record { encrypt = λ nonce text. text; decrypt = λ stored. some stored }

abbrev pub is_document : String → DocumentRow → Bool
is_document doc_id r = r.doc_id == doc_id

abbrev pub of_document : String → ChunkRow → Bool
of_document doc_id r = r.doc_id == doc_id

abbrev pub hash_of : Option DocumentRow → Option String
hash_of none = none
hash_of (some r) = some r.content_hash

abbrev pub tenant_of : Option DocumentRow → Option String
tenant_of none = none
tenant_of (some r) = some r.tenant

unfoldable pub document_hash : Registry → String → Option String
document_hash reg doc_id = hash_of (find (is_document doc_id) reg.documents)

unfoldable pub document_tenant : Registry → String → Option String
document_tenant reg doc_id = tenant_of (find (is_document doc_id) reg.documents)

unfoldable pub tenant_doc_ids : Registry → String → List String
tenant_doc_ids reg tenant = map (λ r. r.doc_id) (select (λ r. r.tenant == tenant) reg.documents)

-- DELETE FROM documents WHERE doc_id = ?, with the cascade
pub drop_document : String → Registry → Registry
drop_document doc_id reg = record {
  documents = delete (is_document doc_id) reg.documents;
  chunks = delete (of_document doc_id) reg.chunks;
}

-- The row is there to be deleted or it is not: `cursor.rowcount > 0`.
unfoldable pub delete_document : String → Registry → Bool × Registry
unfolding drop_document
delete_document doc_id reg = (any (is_document doc_id) reg.documents, drop_document doc_id reg)

unfoldable pub chunk_row : Cipher → String → String → Chunk → ChunkRow
chunk_row cipher nonce tenant c = record {
  chunk_id = c.chunk_id;
  doc_id = c.doc_id;
  index = c.index;
  text = cipher.encrypt nonce c.text;
  title = c.title;
  source_url = c.source_url;
  tenant = tenant;
}

-- `executemany` of the INSERT; none is an integrity error, on a chunk id that is there. Each chunk
-- comes with its nonce.
pub insert_chunks : Cipher → String → List (Chunk × String) → List ChunkRow → Option (List ChunkRow)
unfolding chunk_row
insert_chunks cipher tenant [] rows = some rows
insert_chunks cipher tenant ((c, nonce) ∷ cs) rows =
    let rest = insert_chunks cipher tenant cs (insert (chunk_row cipher nonce tenant c) rows) in
    if any (λ r. r.chunk_id == c.chunk_id) rows then none else rest

pub document_row : Document → String → ℕ → String → DocumentRow
document_row doc content_hash n_chunks tenant = record {
  doc_id = doc.doc_id;
  title = doc.title;
  source_url = doc.source_url;
  source_type = doc.source_type;
  language = doc.language;
  fetched_at = doc.fetched_at;
  content_hash = content_hash;
  n_chunks = n_chunks;
  tenant = tenant;
}

-- `save`; where it raises, the transaction is rolled back
unfoldable pub save :
    Cipher → Document → String → List (Chunk × String) → String → Registry → Option Registry
unfolding drop_document document_row insert_chunks
save cipher doc content_hash cs tenant reg =
    let cleared = drop_document doc.doc_id reg in
    elim (insert_chunks cipher tenant cs cleared.chunks) [
      | none ↦ none
      | some rows ↦ some (record {
        documents = insert (document_row doc content_hash (length cs) tenant) cleared.documents;
        chunks = rows;
      })
    ]

-- tenant IN (…); no clause for None
abbrev pub in_tenants : Option (List String) → String → Bool
in_tenants none tenant = true
in_tenants (some ts) tenant = any (λ t. t == tenant) ts

-- `_row_to_chunk`
unfoldable pub row_to_chunk : Cipher → ChunkRow → Option Chunk
row_to_chunk cipher r = elim (cipher.decrypt r.text) [
  | none ↦ none
  | some text ↦ some (record {
    chunk_id = r.chunk_id;
    doc_id = r.doc_id;
    index = r.index;
    text = text;
    title = r.title;
    source_url = r.source_url;
  })
]

both : Option Chunk → Option (List Chunk) → Option (List Chunk)
both none cs = none
both (some c) none = none
both (some c) (some cs) = some (c ∷ cs)

later : Option Chunk → Option Chunk → Option Chunk
later none earlier = earlier
later (some c) earlier = some c

prepend : Option Chunk → List Chunk → List Chunk
prepend none rest = rest
prepend (some c) rest = c ∷ rest

-- the dictionary `by_id`, in the order of the rows; one row that does not decrypt fails the read
pub read_rows : Cipher → List ChunkRow → Option (List Chunk)
unfolding row_to_chunk both
read_rows cipher [] = some []
read_rows cipher (r ∷ rows) = both (row_to_chunk cipher r) (read_rows cipher rows)

-- `by_id[cid]`: of two rows with one id the later wins
pub by_id : String → List Chunk → Option Chunk
unfolding later
by_id cid [] = none
by_id cid (c ∷ cs) = later (by_id cid cs) (if c.chunk_id == cid then some c else none)

-- `[by_id[cid] for cid in chunk_ids if cid in by_id]`
pub collect : List String → List Chunk → List Chunk
unfolding by_id prepend
collect [] cs = []
collect (cid ∷ ids) cs = prepend (by_id cid cs) (collect ids cs)

-- WHERE chunk_id IN (…) AND tenant IN (…)
abbrev pub wanted : List String → Option (List String) → ChunkRow → Bool
wanted ids tenants r = any (λ cid. cid == r.chunk_id) ids && in_tenants tenants r.tenant

unfoldable pub get_chunks :
    Cipher → Registry → List String → Option (List String) → Option (List Chunk)
unfolding read_rows collect
get_chunks cipher reg [] tenants = some []
get_chunks cipher reg (cid ∷ ids) tenants =
    elim (read_rows cipher (select (wanted (cid ∷ ids) tenants) reg.chunks)) [
      | none ↦ none
      | some cs ↦ some (collect (cid ∷ ids) cs)
    ]

unfoldable pub all_chunks : Cipher → Registry → Option (List Chunk)
unfolding read_rows
all_chunks cipher reg = read_rows cipher reg.chunks
