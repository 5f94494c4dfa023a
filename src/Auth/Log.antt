-- ===== src/Auth/Log.antt =====
-- `audit_entries` of core/security/auth.py: the audit log, its newest entries first. SQLite takes a
-- negative limit for no limit. The id of an entry is its place in the table.
use eu_rag.Base.{List, [], ◌∷◌, ◌++◌, min, take}
use eu_rag.Base.Int.{ℤ, pos, negsuc}
use eu_rag.Auth.{AuditRow, AuthStore}

-- min(limit, 1000)
unfoldable pub capped : ℤ → ℤ
capped (pos n) = pos (min n 1000)
capped (negsuc n) = negsuc n

-- ORDER BY id DESC
unfoldable pub newest_first : List AuditRow → List AuditRow
newest_first [] = []
newest_first (r ∷ rows) = newest_first rows ++ (r ∷ [])

unfoldable pub audit_entries : ℤ → AuthStore → List AuditRow
unfolding newest_first
audit_entries (pos n) s = take n (newest_first s.audit_rows)
audit_entries (negsuc n) s = newest_first s.audit_rows
