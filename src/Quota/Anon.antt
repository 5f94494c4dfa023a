-- ===== src/Quota/Anon.antt =====
-- `AnonQuota` of core/quota.py. A day is its ordinal number: the ISO strings that the table holds
-- compare as their days do.
pub mod Laws
use eu_rag.Base.{
  ℕ, ◌+◌, ◌-◌, String, Bool, true, false, ◌&&◌, Option, none, some, List, ltb, leb, eqb, ◌==◌,
  if◌then◌else◌, find,
}
use eu_rag.Sql.{insert, update, delete}

pub record AnonRow : Type 0 where
  pub quota_key : String
  pub day : ℕ
  pub used : ℕ

abbrev pub AnonTable : Type 0
AnonTable = List AnonRow

abbrev pub retain_days : ℕ
retain_days = 2

-- WHERE quota_key = ? AND day = ?
abbrev pub is_row : String → ℕ → AnonRow → Bool
is_row key day r = r.quota_key == key && eqb r.day day

-- row["used"] if row else 0
abbrev pub used_of : Option AnonRow → ℕ
used_of none = 0
used_of (some r) = r.used

-- `max(0, …)` is the truncated subtraction
unfoldable pub remaining : ℕ → String → ℕ → AnonTable → ℕ
remaining today key limit t = limit - used_of (find (is_row key today) t)

pub sweep : ℕ → AnonTable → AnonTable
sweep day t = delete (λ r. ltb r.day (day - retain_days)) t

-- (key, day, 1), as INSERT writes it
abbrev pub first_row : String → ℕ → AnonRow
first_row key day = record { quota_key = key; day = day; used = 1 }

abbrev take_one : AnonRow → AnonRow
take_one r = record r { used = r.used + 1 }

abbrev give_back : AnonRow → AnonRow
give_back r = record r { used = r.used - 1 }

spend : ℕ → String → Option AnonRow → AnonTable → AnonTable
spend day key none t = sweep day (insert (first_row key day) t)
spend day key (some r) t = update (is_row key day) take_one t

unfoldable pub consume : ℕ → String → ℕ → AnonTable → (Bool × ℕ) × AnonTable
unfolding spend sweep
consume today key limit t =
    let row = find (is_row key today) t in
    let used = used_of row in
    if leb limit used then ((false, 0), t) else ((true, limit - used - 1), spend today key row t)

-- UPDATE … WHERE quota_key = ? AND day = ? AND used > 0
unfoldable pub refund : ℕ → String → AnonTable → AnonTable
refund today key t = update (λ r. is_row key today r && ltb 0 r.used) give_back t
