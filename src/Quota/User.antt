-- ===== src/Quota/User.antt =====
-- `UserQuota` of core/quota.py: a lifetime allowance, one row for each account.
pub mod Laws
use eu_rag.Base.{
  ℕ, ◌+◌, ◌-◌, String, Bool, true, false, ◌&&◌, Option, none, some, List, ltb, leb, ◌==◌,
  if◌then◌else◌, find,
}
use eu_rag.Sql.{insert, update, delete}

pub record UserRow : Type 0 where
  pub username : String
  pub used : ℕ

abbrev pub UserTable : Type 0
UserTable = List UserRow

-- WHERE username = ?
abbrev pub is_user : String → UserRow → Bool
is_user username r = r.username == username

abbrev pub used_of : Option UserRow → ℕ
used_of none = 0
used_of (some r) = r.used

unfoldable pub remaining : String → ℕ → UserTable → ℕ
remaining username limit t = limit - used_of (find (is_user username) t)

unfoldable pub erase_user : String → UserTable → UserTable
erase_user username t = delete (is_user username) t

abbrev pub first_row : String → UserRow
first_row username = record { username = username; used = 1 }

abbrev take_one : UserRow → UserRow
take_one r = record r { used = r.used + 1 }

abbrev give_back : UserRow → UserRow
give_back r = record r { used = r.used - 1 }

spend : String → Option UserRow → UserTable → UserTable
spend username none t = insert (first_row username) t
spend username (some r) t = update (is_user username) take_one t

unfoldable pub consume : String → ℕ → UserTable → (Bool × ℕ) × UserTable
unfolding spend
consume username limit t =
    let row = find (is_user username) t in
    let used = used_of row in
    if leb limit used then ((false, 0), t) else ((true, limit - used - 1), spend username row t)

-- UPDATE … WHERE username = ? AND used > 0
unfoldable pub refund : String → UserTable → UserTable
refund username t = update (λ r. is_user username r && ltb 0 r.used) give_back t
