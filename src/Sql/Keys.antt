-- ===== src/Sql/Keys.antt =====
-- PRIMARY KEY and UNIQUE: no two rows of a table are the same row by `same`. A table that keeps
-- this never makes an INSERT raise an integrity error.
use eu_rag.Base.{◌≡◌, refl, Bool, none, List, [], ◌∷◌, arith, find}
use eu_rag.Sql.{insert, update, delete, find-insert_miss}

module _ {ℓ} {R : Type ℓ} (same : R → R → Bool) where
  abbrev pub HasUniqueKeys : List R → Type ℓ
  HasUniqueKeys [] = Unit
  HasUniqueKeys (r ∷ rows) = (find (same r) rows ≡ none) × HasUniqueKeys rows

  pub insert-HasUniqueKeys :
      ((a b : R) → same a b ≡ same b a)
      → (r : R) (rows : List R) → find (same r) rows ≡ none
      → HasUniqueKeys rows
      → HasUniqueKeys (insert r rows)
  insert-HasUniqueKeys symm r [] miss h = (refl, tt)
  insert-HasUniqueKeys symm r (x ∷ rows) miss h =
      ground (arith, symm x r, find-insert_miss (same x) r rows, insert-HasUniqueKeys symm r rows)

  find-delete-none :
      (q p : R → Bool) (rows : List R) → find q rows ≡ none → find q (delete p rows) ≡ none
  find-delete-none q p [] h = refl
  find-delete-none q p (x ∷ rows) h = ground (arith, find-delete-none q p rows)

  pub delete-HasUniqueKeys :
      (p : R → Bool) (rows : List R) → HasUniqueKeys rows → HasUniqueKeys (delete p rows)
  delete-HasUniqueKeys p [] h = h
  delete-HasUniqueKeys p (x ∷ rows) h =
      ground (arith, find-delete-none (same x) p rows, delete-HasUniqueKeys p rows h.1)

  find-update-none :
      (p : R → Bool) (f : R → R)
      → ((a b : R) → same a (f b) ≡ same a b)
      → (a : R) (rows : List R) → find (same a) rows ≡ none
      → find (same a) (update p f rows) ≡ none
  find-update-none p f keeps a [] h = refl
  find-update-none p f keeps a (x ∷ rows) h =
      ground (arith, keeps a x, find-update-none p f keeps a rows)

  -- `f` leaves the key columns alone
  pub update-HasUniqueKeys :
      (p : R → Bool) (f : R → R)
      → ((a b : R) → same a (f b) ≡ same a b)
      → ((a : R) → same (f a) ≡ same a)
      → (rows : List R) → HasUniqueKeys rows
      → HasUniqueKeys (update p f rows)
  update-HasUniqueKeys p f keeps keeps' [] h = h
  update-HasUniqueKeys p f keeps keeps' (x ∷ rows) h = ground (
    arith,
    keeps' x,
    find-update-none p f keeps x rows,
    update-HasUniqueKeys p f keeps keeps' rows h.1,
  )
