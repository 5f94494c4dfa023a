-- ===== src/Quota/Anon/Laws.antt =====
-- What the anonymous quota promises: a daily allowance that is spent, given back and never overrun.
use eu_rag.Base.{
  ℕ, ◌+◌, ◌-◌, ◌≤◌, ◌<◌, min, String, ◌≡◌, ◌≢◌, refl, Bool, true, ◌&&◌, none, List, [], ◌∷◌, arith,
  ltb, ◌==◌, eq_iff, eq_refl, if◌then◌else◌, find, All, inl, inr, Option-cases,
}
use eu_rag.Sql.{
  insert, find-insert_hit, find-insert_miss, find-update_hit, find-update_miss, find-update,
  find-delete_miss, find-test,
}
use eu_rag.Sql.Keys.{
  HasUniqueKeys, insert-HasUniqueKeys, update-HasUniqueKeys, delete-HasUniqueKeys,
}
use eu_rag.Quota.Anon.{
  AnonRow, AnonTable, retain_days, is_row, used_of, first_row, remaining, sweep, take_one,
  give_back, spend, consume, refund,
}

find-sweep :
    (day : ℕ) (key : String) (t : AnonTable)
    → find (is_row key day) (sweep day t) ≡ find (is_row key day) t
unfolding sweep
find-sweep day key t = find-delete_miss (is_row key day) _ t (λ r p. ground arith)

module _ (day : ℕ) (key : String) where
  -- what `spend` does to the row that the next query reads
  used-spend :
      (t : AnonTable)
      → used_of (find (is_row key day) (spend day key (find (is_row key day) t) t))
        ≡ used_of (find (is_row key day) t) + 1
  unfolding spend
  used-spend t = elim (Option-cases (find (is_row key day) t)) [
    | inl miss ↦
        rw (miss, spend, find-sweep)
          (rw
            (find-insert_hit (is_row key day) (first_row key day) t miss
              (ground (arith, eq_refl key)))
            (omega arith))
    | inr (r, hit) ↦
        rw (hit, spend) (rw (find-update_hit (is_row key day) take_one t (λ x e. e) r hit) refl)
  ]

  used-spend_ne :
      (j : String) (t : AnonTable)
      → j ≢ key
      → used_of (find (is_row j day) (spend day key (find (is_row key day) t) t))
        ≡ used_of (find (is_row j day) t)
  unfolding spend
  used-spend_ne j t ne = elim (Option-cases (find (is_row key day) t)) [
    | inl miss ↦
        rw (miss, spend, find-sweep)
          (rw (find-insert_miss (is_row j day) (first_row key day) t (ground (arith, eq_iff key j)))
            refl)
    | inr (r, hit) ↦
        rw (hit, spend)
          (rw
            (find-update_miss (is_row j day) (is_row key day) take_one t
              (λ x e. ground (arith, eq_iff x.quota_key key, eq_iff x.quota_key j)) (λ x. refl))
            refl)
  ]

  used-refund :
      (j : String) (t : AnonTable)
      → used_of (find (is_row j day) (refund day key t)) ≡ (
          if j == key then used_of (find (is_row j day) t) - 1 else used_of (find (is_row j day) t))
  unfolding refund
  used-refund j t =
      rw
        (find-update (is_row j day) (λ r. is_row key day r && ltb 0 r.used) give_back t (λ r. refl))
        (elim (Option-cases (find (is_row j day) t)) [
          | inl miss ↦ rw miss (ground arith)
          | inr (r, hit) ↦ rw hit (
              ground (
                arith,
                find-test (is_row j day) t r hit,
                eq_iff r.quota_key j,
                eq_iff r.quota_key key,
                eq_iff j key,
              ))
        ])

  -- Whether a question is allowed is whether any is left; an allowed one takes exactly one from
  -- its key and tells how many are left, and no other key's allowance moves; a refused one changes
  -- nothing.
  pub consume-remaining :
      (limit : ℕ) (j : String) (t : AnonTable)
      → let ((allowed, left), t') = consume day key limit t in
        (allowed ≡ ltb 0 (remaining day key limit t))
        × (left ≡ remaining day key limit t')
        × (remaining day j limit t'
            ≡ (if j == key then remaining day j limit t - 1 else remaining day j limit t))
  unfolding consume remaining
  consume-remaining limit j t = ground (arith, used-spend t, used-spend_ne j t, eq_iff j key)

  -- Giving back the question that was just taken, on the day it was taken, restores what every key
  -- has left.
  pub refund-consume :
      (limit : ℕ) (j : String) (t : AnonTable)
      → (consume day key limit t).0.0 ≡ true
      → remaining day j limit (refund day key (consume day key limit t).1) ≡ remaining day j limit t
  unfolding consume remaining
  refund-consume limit j t h =
      rw used-refund (ground (arith, used-spend t, used-spend_ne j t, eq_iff j key))

-- of a day's questions, those of one key that are allowed
pub granted : ℕ → ℕ → String → List String → AnonTable → ℕ
granted day limit j [] t = 0
granted day limit j (key ∷ keys) t =
    let ((allowed, _), t') = consume day key limit t in
    (if key == j && allowed then 1 else 0) + granted day limit j keys t'

pub asked : String → List String → ℕ
asked j [] = 0
asked j (key ∷ keys) = (if key == j then 1 else 0) + asked j keys

-- Over any sequence of one day's questions, from any keys in any order, a key gets as many as it
-- asks or as it had left, whichever is less.
pub granted-eq-min :
    (day limit : ℕ) (j : String) (keys : List String) (t : AnonTable)
    → granted day limit j keys t ≡ min (asked j keys) (remaining day j limit t)
unfolding granted asked
granted-eq-min day limit j [] t = omega arith
granted-eq-min day limit j (key ∷ keys) t = ground (
  arith,
  consume-remaining day key limit j t,
  consume-remaining day key limit key t,
  granted-eq-min day limit j keys (consume day key limit t).1,
  eq_iff key j,
  eq_iff j key,
)

-- PRIMARY KEY (quota_key, day)
abbrev pub same_row : AnonRow → AnonRow → Bool
same_row a b = is_row a.quota_key a.day b

same_row_symm : (a b : AnonRow) → same_row a b ≡ same_row b a
same_row_symm a b = ground (arith, eq_iff a.quota_key b.quota_key, eq_iff b.quota_key a.quota_key)

-- No question and no refund makes two rows of one key and day: the INSERT never meets its row.
pub quota-HasUniqueKeys :
    (day : ℕ) (key : String) (limit : ℕ) (t : AnonTable)
    → HasUniqueKeys same_row t
    → HasUniqueKeys same_row (consume day key limit t).1 × HasUniqueKeys same_row (refund day key t)
unfolding consume refund spend sweep
quota-HasUniqueKeys day key limit t h = (
  elim (Option-cases (find (is_row key day) t)) [
    | inl miss ↦ ground (
      arith,
      delete-HasUniqueKeys same_row (λ (r : AnonRow). ltb r.day (day - retain_days))
          (insert (first_row key day) t)
          (insert-HasUniqueKeys same_row same_row_symm (first_row key day) t miss h),
    )
    | inr (r, hit) ↦ ground (
      arith,
      update-HasUniqueKeys same_row (is_row key day) take_one (λ a b. refl) (λ a. refl) t h,
    )
  ],
  update-HasUniqueKeys same_row (λ r. is_row key day r && ltb 0 r.used) give_back (λ a b. refl)
      (λ a. refl) t h,
)

All-sweep : (day : ℕ) (t : AnonTable) → All (λ r. day ≤ r.day + retain_days) (sweep day t)
unfolding sweep
All-sweep day [] = tt
All-sweep day (r ∷ t) = ground (arith, All-sweep day t)

-- The first question of a key's day, where it is allowed, leaves no row older than the days that
-- are kept.
pub consume-retains :
    (day : ℕ) (key : String) (limit : ℕ) (t : AnonTable)
    → find (is_row key day) t ≡ none
    → 0 < limit
    → All (λ r. day ≤ r.day + retain_days) (consume day key limit t).1
unfolding consume spend
consume-retains day key limit t miss h =
    ground (arith, All-sweep day (insert (first_row key day) t))
