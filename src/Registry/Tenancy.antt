-- ===== src/Registry/Tenancy.antt =====
-- The tenant gate: what `get_chunks` can hand out.
use eu_rag.Base.{
  String, ◌≡◌, ◌⊎◌, inl, inr, refl, sym, subst, ap, ◌∙◌, true, false, Option, none, some, List, [],
  ◌∷◌, arith, ◌==◌, eq_iff, select, Member, Bool-cases, select-Member, some_inj,
}
use eu_rag.Chunk.{Chunk}
use eu_rag.Registry.{
  Registry, ChunkRow, Cipher, in_tenants, wanted, row_to_chunk, read_rows, by_id, collect,
  get_chunks, both, prepend,
}

module _ (cipher : Cipher) where
  read_rows-Member :
      (rows : List ChunkRow) (cs : List Chunk) (c : Chunk)
      → read_rows cipher rows ≡ some cs
      → Member c cs
      → (r : ChunkRow) × Member r rows × (row_to_chunk cipher r ≡ some c)
  unfolding read_rows
  read_rows-Member [] cs c e m = absurd (subst (Member c) (sym (some_inj e)) m)
  read_rows-Member (r ∷ rows) cs c e m =
      go (row_to_chunk cipher r) (read_rows cipher rows) refl refl e
        (λ ds er m. read_rows-Member rows ds c er m)
    where
      Found : List ChunkRow → Type 0
      Found rows = (r : ChunkRow) × Member r rows × (row_to_chunk cipher r ≡ some c)

      pick :
          (d : Chunk) (ds : List Chunk)
          → row_to_chunk cipher r ≡ some d
          → (Member c ds → Found rows)
          → Member c (d ∷ ds)
          → Found (r ∷ rows)
      pick d ds hit ih (inl q) = (r, inl refl, hit ∙ ap some (sym q))
      pick d ds hit ih (inr m) = let (r', there, e) = ih m in (r', inr there, e)

      go :
          (o : Option Chunk) (rest : Option (List Chunk))
          → row_to_chunk cipher r ≡ o
          → read_rows cipher rows ≡ rest
          → both o rest ≡ some cs
          → ((ds : List Chunk) → read_rows cipher rows ≡ some ds → Member c ds → Found rows)
          → Found (r ∷ rows)
      go none rest eo er e ih = cc
      go (some d) none eo er e ih = cc
      go (some d) (some ds) eo er e ih =
          pick d ds eo (ih ds er) (subst (Member c) (sym (some_inj e)) m)

by_id-Member :
    (cid : String) (cs : List Chunk) (c : Chunk)
    → by_id cid cs ≡ some c
    → Member c cs × (c.chunk_id ≡ cid)
unfolding by_id
by_id-Member cid [] c e = cc
by_id-Member cid (d ∷ cs) c e =
    go (by_id cid cs) refl (by_id-Member cid cs c) (Bool-cases (d.chunk_id == cid))
  where
    go :
        (o : Option Chunk)
        → by_id cid cs ≡ o
        → (by_id cid cs ≡ some c → Member c cs × (c.chunk_id ≡ cid))
        → (d.chunk_id == cid ≡ true) ⊎ (d.chunk_id == cid ≡ false)
        → Member c (d ∷ cs) × (c.chunk_id ≡ cid)
    go (some b) eo ih h = let (there, same) = ih (ground arith) in (inr there, same)
    go none eo ih (inl h) =
        let q : d ≡ c = ground arith in
        (inl (sym q), ap (λ (x : Chunk). x.chunk_id) (sym q) ∙ (eq_iff d.chunk_id cid).0 h)
    go none eo ih (inr h) = absurd (ground arith)

collect-Member :
    (ids : List String) (cs : List Chunk) (c : Chunk)
    → Member c (collect ids cs)
    → Member c cs × Member c.chunk_id ids
unfolding collect
collect-Member [] cs c m = absurd m
collect-Member (cid ∷ ids) cs c m = go (by_id cid cs) refl m (collect-Member ids cs c)
  where
    go :
        (o : Option Chunk)
        → by_id cid cs ≡ o
        → Member c (prepend o (collect ids cs))
        → (Member c (collect ids cs) → Member c cs × Member c.chunk_id ids)
        → Member c cs × Member c.chunk_id (cid ∷ ids)
    go none eo m ih = let (there, id) = ih m in (there, inr id)
    go (some d) eo (inr m) ih = let (there, id) = ih m in (there, inr id)
    go (some d) eo (inl q) ih =
        let (there, same) = by_id-Member cid cs c (eo ∙ ap some (sym q)) in (there, inl same)

-- A chunk that `get_chunks` hands out was asked for by its id, and is what a row of the table
-- decrypts to whose tenant is among the tenants that were allowed.
pub get_chunks-gate :
    (cipher : Cipher) (reg : Registry) (ids : List String) (tenants : Option (List String))
    (cs : List Chunk) (c : Chunk)
    → get_chunks cipher reg ids tenants ≡ some cs
    → Member c cs
    → (r : ChunkRow) × Member r reg.chunks
      × (in_tenants tenants r.tenant ≡ true)
      × (row_to_chunk cipher r ≡ some c)
      × Member c.chunk_id ids
unfolding get_chunks
get_chunks-gate cipher reg [] tenants cs c e m = absurd (subst (Member c) (sym (some_inj e)) m)
get_chunks-gate cipher reg (cid ∷ ids) tenants cs c e m =
    go (read_rows cipher (select (wanted (cid ∷ ids) tenants) reg.chunks)) refl e
  where
    go :
        (o : Option (List Chunk))
        → read_rows cipher (select (wanted (cid ∷ ids) tenants) reg.chunks) ≡ o
        → elim o [ none ↦ none | some ds ↦ some (collect (cid ∷ ids) ds) ] ≡ some cs
        → (r : ChunkRow) × Member r reg.chunks
          × (in_tenants tenants r.tenant ≡ true)
          × (row_to_chunk cipher r ≡ some c)
          × Member c.chunk_id (cid ∷ ids)
    go none eo e = cc
    go (some ds) eo e =
        let (there, id) = collect-Member (cid ∷ ids) ds c (subst (Member c) (sym (some_inj e)) m) in
        let (r, selected, hit) =
          read_rows-Member cipher (select (wanted (cid ∷ ids) tenants) reg.chunks) ds c eo there in
        let (in_table, accepted) =
          select-Member (wanted (cid ∷ ids) tenants) r reg.chunks selected in
        (r, in_table, ground arith, hit, id)
