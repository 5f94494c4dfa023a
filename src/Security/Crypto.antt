-- ===== src/Security/Crypto.antt =====
-- core/security/crypto.py: encryption at rest. AES-256-GCM and base64 are the parameter `Aead`.
use eu_rag.Base.{
  ℕ, String, ◌≡◌, refl, subst, false, Option, none, some, List, [], ◌∷◌, ◌++◌, length, take, drop,
  if◌then◌else◌,
}
use eu_rag.Base.Text.{◌<>◌, has_prefix, count}
use eu_rag.Base.Text.Laws.{has_prefix-append, drop_text, drop_text-append}

abbrev pub Bytes : Type 0
Bytes = List ℕ

-- With one key: `open_sealed nonce sealed` is none where the tag does not fit (`InvalidTag`).
pub record Aead : Type 0 where
  pub seal : Bytes → Bytes → Bytes
  pub open_sealed : Bytes → Bytes → Option Bytes
  pub encode_64 : Bytes → String
  pub decode_64 : String → Bytes
  pub encode_utf8 : String → Bytes
  pub decode_utf8 : Bytes → Option String

abbrev pub cipher_prefix : String
cipher_prefix = "enc1:"

abbrev pub nonce_length : ℕ
nonce_length = 12

and_then {ℓ κ} : {A : Type ℓ} {B : Type κ} → Option A → (A → Option B) → Option B
and_then none f = none
and_then (some a) f = f a

module _ (a : Aead) where
  -- `nonce` is what `os.urandom(12)` gave
  unfoldable pub encrypt : Bytes → String → String
  encrypt nonce plaintext =
      cipher_prefix <> a.encode_64 (nonce ++ a.seal nonce (a.encode_utf8 plaintext))

  -- none: it raises
  unfoldable pub decrypt : String → Option String
  unfolding and_then
  decrypt stored =
      if has_prefix cipher_prefix stored
      then (let raw = a.decode_64 (drop_text (count cipher_prefix) stored) in
          and_then (a.open_sealed (take nonce_length raw) (drop nonce_length raw)) a.decode_utf8)
      else some stored

-- What the two packages promise.
pub record IsAead (a : Aead) : Type 0 where
  pub open-seal : (nonce plain : Bytes) → a.open_sealed nonce (a.seal nonce plain) ≡ some plain
  pub decode-encode_64 : (b : Bytes) → a.decode_64 (a.encode_64 b) ≡ b

take-append : (xs ys : Bytes) → take (length xs) (xs ++ ys) ≡ xs
take-append [] ys = refl
take-append (x ∷ xs) ys = rw (take-append xs ys)

drop-append : (xs ys : Bytes) → drop (length xs) (xs ++ ys) ≡ ys
drop-append [] ys = refl
drop-append (x ∷ xs) ys = drop-append xs ys

-- What was encrypted under a nonce of twelve bytes is read back, if it is a text that UTF-8 can
-- write; a row that was stored before the
-- key was set, and so lacks the prefix, is read as it stands.
pub decrypt-encrypt :
    (a : Aead)
    → IsAead a
    → (nonce : Bytes) (text : String) → length nonce ≡ nonce_length
    → a.decode_utf8 (a.encode_utf8 text) ≡ some text
    → (decrypt a (encrypt a nonce text) ≡ some text)
      × ((has_prefix cipher_prefix text ≡ false) → decrypt a text ≡ some text)
unfolding decrypt encrypt
decrypt-encrypt a laws nonce text n utf8 =
    let sealed = a.seal nonce (a.encode_utf8 text) in
    let body = a.encode_64 (nonce ++ sealed) in
    let front : take nonce_length (nonce ++ sealed) ≡ nonce =
      subst (λ k. take k (nonce ++ sealed) ≡ nonce) n (take-append nonce sealed) in
    let back : drop nonce_length (nonce ++ sealed) ≡ sealed =
      subst (λ k. drop k (nonce ++ sealed) ≡ sealed) n (drop-append nonce sealed) in
    (
      rw (has_prefix-append cipher_prefix body, drop_text-append cipher_prefix body)
          (rw (laws.decode-encode_64 (nonce ++ sealed), front, back, laws.open-seal, and_then)
            utf8),
      λ plain. rw plain refl,
    )
