-- ===== src/Tests/Account.antt =====
-- The model key of alice.
use eu_rag.Base.{ℕ, ◌≡◌, ◌≢◌, refl, String, true, some, []}
use eu_rag.Base.Text.{strip, has_prefix}
use eu_rag.Auth.{AuthStore, principal_of, audit, set_byok, get_byok}
use eu_rag.Security.Crypto.{Aead, IsAead, encrypt, decrypt}
use eu_rag.Api.{App, response}
use eu_rag.Api.Deps.{byok, free_plan, paid_tier}
use eu_rag.Api.Account.Routes.{set_key, clear_key}
use eu_rag.Api.Account.Routes.Keys.{own_plan, set_key-paid_tier}
use eu_rag.Tests.Sample
use eu_rag.Tests.Sample.{ascii}
use eu_rag.Tests.Accounts.{alice, store}
use eu_rag.Tests.Corpus
use eu_rag.Tests.Corpus.{nonce}

abbrev aead : Aead
aead = record Corpus.aead { encode_utf8 = λ text. []; decode_utf8 = λ bytes. some "sk-ant-key" }

aead-IsAead : IsAead aead
aead-IsAead = record {
  open-seal = λ nonce plain. refl;
  decode-encode_64 = Corpus.aead-IsAead.decode-encode_64;
}

abbrev app : App ℕ Unit
app = record Sample.app { decrypt = some (decrypt aead) }

abbrev with_key : AuthStore
with_key =
    audit 3 "alice" "account.byok_set" "" ""
      (set_byok 3 "alice" (encrypt aead nonce (strip ascii " sk-ant-key")) store)

alice_sets :
    set_key ascii (some (encrypt aead nonce)) 3 " sk-ant-key" (principal_of alice) (some store)
    ≡ (response (byok, true), some with_key)
unfolding set_key strip
alice_sets = refl

key_utf8 :
    aead.decode_utf8 (aead.encode_utf8 (strip ascii " sk-ant-key"))
    ≡ some (strip ascii " sk-ant-key")
unfolding strip
key_utf8 = refl

set_key-paid_tier_example :
    (has_prefix "sk-ant-" (strip ascii " sk-ant-key") ≡ true)
    × (paid_tier app (principal_of alice) with_key
        ≡ own_plan app (principal_of alice) (strip ascii " sk-ant-key"))
    × ((j : String) → j ≢ "alice" → get_byok j with_key ≡ get_byok j store)
    × (s : AuthStore) × ((clear_key 4 (principal_of alice) (some with_key)).1 ≡ some s)
    × (paid_tier app (principal_of alice) s ≡ free_plan app.settings)
set_key-paid_tier_example =
    set_key-paid_tier app (principal_of alice) ascii aead nonce 3 4 " sk-ant-key" store with_key
      alice (byok, true) aead-IsAead refl key_utf8 refl refl refl alice_sets
