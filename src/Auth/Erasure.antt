-- ===== src/Auth/Erasure.antt =====
-- The erasure of an account.
use eu_rag.Base.{
  ℕ, suc, ◌≡◌, ◌≢◌, refl, String, Bool, false, List, [], ◌∷◌, ◌==◌, eq_iff, arith, find, any,
  length, length-append,
}
use eu_rag.Sql.{insert, delete, find-delete_self, find-delete_miss}
use eu_rag.Auth.{
  RefreshToken, AuditRow, AuthStore, is_user, audit, user_exists, erase_user, pseudonymise,
  erased_actor,
}

-- whether a row of the log names an account
abbrev pub names : String → List AuditRow → Bool
names username rows = any (λ r. r.actor == username) rows

abbrev pub holds_token : String → List RefreshToken → Bool
holds_token username tokens = any (λ t. t.username == username) tokens

pseudonymise-names :
    (username : String) (rows : List AuditRow)
    → username ≢ erased_actor
    → names username (pseudonymise username rows) ≡ false
unfolding pseudonymise
pseudonymise-names username [] other = refl
pseudonymise-names username (r ∷ rows) other =
    ground (arith, eq_iff erased_actor username, pseudonymise-names username rows)

pseudonymise-length :
    (username : String) (rows : List AuditRow) → length (pseudonymise username rows) ≡ length rows
unfolding pseudonymise
pseudonymise-length username [] = refl
pseudonymise-length username (r ∷ rows) = omega (arith, pseudonymise-length username rows)

delete-holds_token :
    (username : String) (tokens : List RefreshToken)
    → holds_token username (delete (λ t. t.username == username) tokens) ≡ false
delete-holds_token username [] = refl
delete-holds_token username (t ∷ tokens) = ground (arith, delete-holds_token username tokens)

insert-names :
    (username : String) (r : AuditRow) (rows : List AuditRow)
    → (r.actor == username) ≡ false
    → names username rows ≡ false
    → names username (insert r rows) ≡ false
insert-names username r [] h e = ground arith
insert-names username r (x ∷ rows) h e = ground (arith, insert-names username r rows h)

-- Once an account is erased, it does not exist, no refresh token and no row of the audit log is
-- its own, every other account is as it was, and the log has lost no row and won one.
pub erase_user-forgets :
    (now : ℕ) (username : String) (s : AuthStore)
    → username ≢ erased_actor
    → (user_exists username (erase_user now username s) ≡ false)
      × (holds_token username (erase_user now username s).refresh_tokens ≡ false)
      × (names username (erase_user now username s).audit_rows ≡ false)
      × (length (erase_user now username s).audit_rows ≡ suc (length s.audit_rows))
      × ((j : String)
          → j ≢ username
          → find (is_user j) (erase_user now username s).users ≡ find (is_user j) s.users)
unfolding erase_user audit user_exists
erase_user-forgets now username s other = (
  rw (find-delete_self (is_user username) s.users) refl,
  delete-holds_token username s.refresh_tokens,
  insert-names username _ (pseudonymise username s.audit_rows)
      (ground (arith, eq_iff erased_actor username))
      (pseudonymise-names username s.audit_rows other),
  omega (
    arith,
    length-append (pseudonymise username s.audit_rows) (_ ∷ []),
    pseudonymise-length username s.audit_rows,
  ),
  λ j apart.
      find-delete_miss (is_user j) (is_user username) s.users
        (λ r same. ground (arith, eq_iff r.username username, eq_iff r.username j)),
)
