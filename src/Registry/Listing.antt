-- ===== src/Registry/Listing.antt =====
-- `list_documents` of core/registry.py. SQLite compares texts by their bytes, which is by their code
-- points, and titles that are equal stay in the order of insertion.
use Prim.Native.Nat.{Ordering}
use Prim.Native.String.{compare}
use eu_rag.Base.{
  ℕ, ◌≡◌, String, Bool, true, false, Option, List, map, select, sym, Member, map-Member, Member-map,
  select-Member, Member-select,
}
use eu_rag.Registry.{Registry, DocumentRow, in_tenants}
use eu_rag.Retrieval.Sort.{sort_down, sort_down-Member, Member-sort_down}

-- the columns that the query selects
pub record Listed : Type 0 where
  pub doc_id : String
  pub title : String
  pub source_url : String
  pub source_type : String
  pub language : String
  pub fetched_at : String
  pub n_chunks : ℕ
  pub tenant : String

abbrev pub listed : DocumentRow → Listed
listed r = record {
  doc_id = r.doc_id;
  title = r.title;
  source_url = r.source_url;
  source_type = r.source_type;
  language = r.language;
  fetched_at = r.fetched_at;
  n_chunks = r.n_chunks;
  tenant = r.tenant;
}

-- b stands in front of a
abbrev pub is_behind : String → String → Bool
is_behind a b = elim (compare a b) [ Ordering.gt ↦ true | _ ↦ false ]

unfoldable pub list_documents : Registry → Option (List String) → List Listed
list_documents reg tenants = map listed (
    sort_down is_behind (λ (r : DocumentRow). r.title)
      (select (λ r. in_tenants tenants r.tenant) reg.documents))

-- A document is listed, with the columns of its row, exactly when its tenant is asked for.
pub list_documents-IsScoped :
    (reg : Registry) (tenants : Option (List String)) (d : Listed)
    → (Member d (list_documents reg tenants)
        → (r : DocumentRow) × Member r reg.documents
          × (in_tenants tenants r.tenant ≡ true)
          × (d ≡ listed r))
      × ((r : DocumentRow)
          → Member r reg.documents
          → in_tenants tenants r.tenant ≡ true
          → Member (listed r) (list_documents reg tenants))
unfolding list_documents
list_documents-IsScoped reg tenants d =
    let q : DocumentRow → Bool = λ r. in_tenants tenants r.tenant in
    let title : DocumentRow → String = λ r. r.title in
    (
      λ m.
          let (r, sorted, same) = map-Member listed d _ m in
          let (there, asked) =
            select-Member q r reg.documents (sort_down-Member is_behind title r _ sorted) in
          (r, there, asked, sym same),
      λ r there asked. Member-map listed r (sort_down is_behind title (select q reg.documents)) (
          Member-sort_down is_behind title r (select q reg.documents)
            (Member-select q r reg.documents there asked)),
    )
