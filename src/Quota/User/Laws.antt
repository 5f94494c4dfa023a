-- ===== src/Quota/User/Laws.antt =====
-- What the lifetime quota of an account promises.
use eu_rag.Base.{
  ℕ, ◌+◌, ◌-◌, min, String, ◌≡◌, ◌≢◌, refl, Bool, true, false, ◌&&◌, List, [], ◌∷◌, arith, ltb,
  ◌==◌, eq_iff, eq_refl, if◌then◌else◌, find, inl, inr, Option-cases, Bool-cases,
}
use eu_rag.Sql.{
  find-insert_hit, find-insert_miss, find-update_hit, find-update_miss, find-update,
  find-delete_miss, find-delete_self, find-test,
}
use eu_rag.Sql.Keys.{
  HasUniqueKeys, insert-HasUniqueKeys, update-HasUniqueKeys, delete-HasUniqueKeys,
}
use eu_rag.Quota.User.{
  UserRow, UserTable, is_user, used_of, first_row, remaining, take_one, give_back, spend, consume,
  refund, erase_user,
}

module _ (name : String) where
  used-spend :
      (t : UserTable)
      → used_of (find (is_user name) (spend name (find (is_user name) t) t))
        ≡ used_of (find (is_user name) t) + 1
  unfolding spend
  used-spend t = elim (Option-cases (find (is_user name) t)) [
    | inl miss ↦
        rw (miss, spend)
          (rw (find-insert_hit (is_user name) (first_row name) t miss (eq_refl name)) (omega arith))
    | inr (r, hit) ↦
        rw (hit, spend) (rw (find-update_hit (is_user name) take_one t (λ x e. e) r hit) refl)
  ]

  used-spend_ne :
      (j : String) (t : UserTable)
      → j ≢ name
      → used_of (find (is_user j) (spend name (find (is_user name) t) t))
        ≡ used_of (find (is_user j) t)
  unfolding spend
  used-spend_ne j t ne = elim (Option-cases (find (is_user name) t)) [
    | inl miss ↦
        rw (miss, spend)
          (rw (find-insert_miss (is_user j) (first_row name) t (ground (arith, eq_iff name j)))
            refl)
    | inr (r, hit) ↦
        rw (hit, spend)
          (rw
            (find-update_miss (is_user j) (is_user name) take_one t
              (λ x e. ground (arith, eq_iff x.username name, eq_iff x.username j)) (λ x. refl))
            refl)
  ]

  used-refund :
      (j : String) (t : UserTable)
      → used_of (find (is_user j) (refund name t))
        ≡ (if j == name then used_of (find (is_user j) t) - 1 else used_of (find (is_user j) t))
  unfolding refund
  used-refund j t =
      rw (find-update (is_user j) (λ r. is_user name r && ltb 0 r.used) give_back t (λ r. refl))
        (elim (Option-cases (find (is_user j) t)) [
          | inl miss ↦ rw miss (ground arith)
          | inr (r, hit) ↦ rw hit (
              ground (
                arith,
                find-test (is_user j) t r hit,
                eq_iff r.username j,
                eq_iff r.username name,
                eq_iff j name,
              ))
        ])

  -- Whether an account's question is allowed is whether any is left; an allowed one takes exactly
  -- one from that account and tells how many are left, and no other account's allowance moves; a
  -- refused one changes nothing.
  pub user_consume-remaining :
      (limit : ℕ) (j : String) (t : UserTable)
      → let ((allowed, left), t') = consume name limit t in
        (allowed ≡ ltb 0 (remaining name limit t))
        × (left ≡ remaining name limit t')
        × (remaining j limit t'
            ≡ (if j == name then remaining j limit t - 1 else remaining j limit t))
  unfolding consume remaining
  user_consume-remaining limit j t = ground (arith, used-spend t, used-spend_ne j t, eq_iff j name)

  -- Giving back a question that was just taken restores what every account has left.
  pub user_refund-consume :
      (limit : ℕ) (j : String) (t : UserTable)
      → (consume name limit t).0.0 ≡ true
      → remaining j limit (refund name (consume name limit t).1) ≡ remaining j limit t
  unfolding consume remaining
  user_refund-consume limit j t h =
      rw used-refund (ground (arith, used-spend t, used-spend_ne j t, eq_iff j name))

  -- A refused question leaves the table as it is.
  pub consume_refused :
      (limit : ℕ) (t : UserTable)
      → (consume name limit t).0.0 ≡ false
      → ((consume name limit t).1 ≡ t) × (remaining name limit t ≡ 0)
  unfolding consume remaining
  consume_refused limit t h = ground arith

  -- Erasing an account gives its name a fresh allowance and touches no other account's.
  pub remaining-erase_user :
      (limit : ℕ) (j : String) (t : UserTable)
      → remaining j limit (erase_user name t) ≡ (if j == name then limit else remaining j limit t)
  unfolding remaining erase_user
  remaining-erase_user limit j t = elim (Bool-cases (j == name)) [
    | inl same ↦
        rw same (rw ((eq_iff j name).0 same) (rw (find-delete_self (is_user name) t) (omega arith)))
    | inr other ↦ rw other (
        rw
          (find-delete_miss (is_user j) (is_user name) t
            (λ x e. ground (arith, eq_iff x.username name, eq_iff x.username j, eq_iff j name)))
          refl)
  ]

-- the questions of one account that are allowed, among those of all accounts in order
pub granted : ℕ → String → List String → UserTable → ℕ
granted limit j [] t = 0
granted limit j (name ∷ names) t =
    let ((allowed, _), t') = consume name limit t in
    (if name == j && allowed then 1 else 0) + granted limit j names t'

pub asked : String → List String → ℕ
asked j [] = 0
asked j (name ∷ names) = (if name == j then 1 else 0) + asked j names

-- Over an account's whole life it gets as many free questions as it asks or as it had left.
pub user_granted-eq-min :
    (limit : ℕ) (j : String) (names : List String) (t : UserTable)
    → granted limit j names t ≡ min (asked j names) (remaining j limit t)
unfolding granted asked
user_granted-eq-min limit j [] t = omega arith
user_granted-eq-min limit j (name ∷ names) t = ground (
  arith,
  user_consume-remaining name limit j t,
  user_consume-remaining name limit name t,
  user_granted-eq-min limit j names (consume name limit t).1,
  eq_iff name j,
  eq_iff j name,
)

-- PRIMARY KEY username
abbrev pub same_user : UserRow → UserRow → Bool
same_user a b = is_user a.username b

same_user_symm : (a b : UserRow) → same_user a b ≡ same_user b a
same_user_symm a b = ground (arith, eq_iff a.username b.username, eq_iff b.username a.username)

-- No operation makes two rows of one account.
pub user_quota-HasUniqueKeys :
    (name : String) (limit : ℕ) (t : UserTable)
    → HasUniqueKeys same_user t
    → HasUniqueKeys same_user (consume name limit t).1
      × HasUniqueKeys same_user (refund name t)
      × HasUniqueKeys same_user (erase_user name t)
unfolding consume refund spend erase_user
user_quota-HasUniqueKeys name limit t h = (
  elim (Option-cases (find (is_user name) t)) [
    | inl miss ↦
        ground (arith, insert-HasUniqueKeys same_user same_user_symm (first_row name) t miss h)
    | inr (r, hit) ↦ ground (
      arith,
      update-HasUniqueKeys same_user (is_user name) take_one (λ a b. refl) (λ a. refl) t h,
    )
  ],
  update-HasUniqueKeys same_user (λ r. is_user name r && ltb 0 r.used) give_back (λ a b. refl)
      (λ a. refl) t h,
  delete-HasUniqueKeys same_user (is_user name) t h,
)
