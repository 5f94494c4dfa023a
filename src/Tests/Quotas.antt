-- ===== src/Tests/Quotas.antt =====
-- The allowances.
use eu_rag.Base.{◌≡◌, refl, min, true, [], ◌∷◌}
use eu_rag.Quota.Anon
use eu_rag.Quota.Anon.{AnonTable, is_row, retain_days}
use eu_rag.Quota.Anon.Laws.{
  consume-remaining, refund-consume, granted-eq-min, consume-retains, same_row,
}
use eu_rag.Quota.Anon.Laws
use eu_rag.Quota.User.{UserTable}

abbrev visitors : AnonTable
visitors =
    record { quota_key = "ip:a"; day = 20; used = 1 }
    ∷ record { quota_key = "ip:b"; day = 12; used = 2 }
    ∷ []

abbrev accounts : UserTable
accounts = record { username = "bob"; used = 4 } ∷ []

is_allowed : (Anon.consume 20 "ip:a" 2 visitors).0.0 ≡ true
unfolding Anon.consume
is_allowed = refl

granted-eq-min_example :
    Anon.Laws.granted 20 2 "ip:a" ("ip:a" ∷ "ip:b" ∷ "ip:a" ∷ []) visitors
    ≡ min
        (Anon.Laws.asked "ip:a" ("ip:a" ∷ "ip:b" ∷ "ip:a" ∷ []))
        (Anon.remaining 20 "ip:a" 2 visitors)
granted-eq-min_example = granted-eq-min 20 2 "ip:a" ("ip:a" ∷ "ip:b" ∷ "ip:a" ∷ []) visitors
