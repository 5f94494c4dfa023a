-- ===== src/Sql.antt =====
-- The SQL that the stores write (core/db.py runs it): a table is the list of its rows in insertion
-- order, and a statement is an operation on that list. `find` of Base is a query for one row.
pub mod Keys
use eu_rag.Base.{
  ℕ, suc, ◌+◌, ◌≡◌, refl, ap, Bool, true, false, not, Option, none, some, List, [], ◌∷◌, ◌++◌,
  arith, if◌then◌else◌, length, find, select, All,
}

module _ {ℓ} {R : Type ℓ} where
  -- INSERT
  abbrev pub insert : R → List R → List R
  insert r rows = rows ++ (r ∷ [])

  -- UPDATE … SET f WHERE p
  abbrev pub update : (R → Bool) → (R → R) → List R → List R
  update p f [] = []
  update p f (r ∷ rows) = (if p r then f r else r) ∷ update p f rows

  -- DELETE … WHERE p
  abbrev pub delete : (R → Bool) → List R → List R
  delete p [] = []
  delete p (r ∷ rows) = let rest = delete p rows in if p r then rest else r ∷ rest

  -- the `rowcount` of an UPDATE or a DELETE … WHERE p
  abbrev pub row_count : (R → Bool) → List R → ℕ
  row_count p [] = 0
  row_count p (r ∷ rows) = let n = row_count p rows in if p r then suc n else n

  -- what an UPDATE does to one row
  abbrev pub amend : (R → Bool) → (R → R) → Option R → Option R
  amend p f none = none
  amend p f (some r) = some (if p r then f r else r)

module _ {ℓ} {R : Type ℓ} (q : R → Bool) where
  pub find-insert_hit :
      (r : R) (rows : List R) → find q rows ≡ none → q r ≡ true → find q (insert r rows) ≡ some r
  find-insert_hit r [] miss hit = rw hit
  find-insert_hit r (x ∷ rows) miss hit = ground (arith, find-insert_hit r rows)

  pub find-insert_miss :
      (r : R) (rows : List R) → q r ≡ false → find q (insert r rows) ≡ find q rows
  find-insert_miss r [] miss = rw miss
  find-insert_miss r (x ∷ rows) miss = ground (arith, find-insert_miss r rows)

  -- an UPDATE that touches only rows the query looks for, and keeps them so
  pub find-update_hit :
      (f : R → R) (rows : List R)
      → ((r : R) → q r ≡ true → q (f r) ≡ true)
      → (r : R) → find q rows ≡ some r
      → find q (update q f rows) ≡ some (f r)
  find-update_hit f [] keeps r e = cc
  find-update_hit f (x ∷ rows) keeps r e = ground (arith, keeps x, find-update_hit f rows keeps r)

  -- an UPDATE that leaves alone what the query looks for
  pub find-update :
      (p : R → Bool) (f : R → R) (rows : List R)
      → ((r : R) → q (f r) ≡ q r)
      → find q (update p f rows) ≡ amend p f (find q rows)
  find-update p f [] keeps = refl
  find-update p f (x ∷ rows) keeps = ground (arith, keeps x, find-update p f rows keeps)

  -- an UPDATE of other rows
  pub find-update_miss :
      (p : R → Bool) (f : R → R) (rows : List R)
      → ((r : R) → p r ≡ true → q r ≡ false)
      → ((r : R) → q (f r) ≡ q r)
      → find q (update p f rows) ≡ find q rows
  find-update_miss p f [] apart keeps = refl
  find-update_miss p f (x ∷ rows) apart keeps =
      ground (arith, apart x, keeps x, find-update_miss p f rows apart keeps)

  pub find-delete_miss :
      (p : R → Bool) (rows : List R)
      → ((r : R) → p r ≡ true → q r ≡ false)
      → find q (delete p rows) ≡ find q rows
  find-delete_miss p [] apart = refl
  find-delete_miss p (x ∷ rows) apart = ground (arith, apart x, find-delete_miss p rows apart)

  pub find-delete_self : (rows : List R) → find q (delete q rows) ≡ none
  find-delete_self [] = refl
  find-delete_self (x ∷ rows) = ground (arith, find-delete_self rows)

  -- the row that a query finds passes its test
  pub find-test : (rows : List R) (r : R) → find q rows ≡ some r → q r ≡ true
  find-test [] r e = cc
  find-test (x ∷ rows) r e = ground (arith, find-test rows r)

module _ {ℓ κ} {R : Type ℓ} (P : R → Type κ) where
  pub All-insert : (r : R) (rows : List R) → All P rows → P r → All P (insert r rows)
  All-insert r [] h p = (p, tt)
  All-insert r (x ∷ rows) h p = (h.0, All-insert r rows h.1 p)

  pub All-update :
      (p : R → Bool) (f : R → R) (rows : List R)
      → ((r : R) → P r → P (f r))
      → All P rows
      → All P (update p f rows)
  All-update p f [] keeps h = h
  All-update p f (x ∷ rows) keeps h = ground (arith, keeps x, All-update p f rows keeps h.1)

  pub All-delete : (p : R → Bool) (rows : List R) → All P rows → All P (delete p rows)
  All-delete p [] h = h
  All-delete p (x ∷ rows) h = ground (arith, All-delete p rows h.1)

  pub All-find : (q : R → Bool) (rows : List R) (r : R) → All P rows → find q rows ≡ some r → P r
  All-find q [] r h e = cc
  All-find q (x ∷ rows) r h e = ground (arith, All-find q rows r h.1)
