-- ===== src/Crypto.antt =====
-- src/lib/crypto.ts: hashed tokens and encrypted secrets under a ring of keys, and
-- src/modules/notifications/unsubscribe.ts. A text is the list of its characters' codes; node:crypto
-- and base64url are an interface. Random bytes are parameters.
pub mod Text
pub mod Unsubscribe
pub mod RoundTrip
mod Tests
use production_backend_found.Prelude.{
  ℕ, ◌≡◌, Bool, true, false, not, Option, none, some, List, [], ◌∷◌, ◌++◌, map, all, any, ◌==◌,
  if◌then◌else◌,
}
use production_backend_found.Errors.{Result, ok, err, ◌>>=◌, or_throw, plain_error}
use production_backend_found.Crypto.Text.{Chars, codes_eq, join_dots, split_dots, is_dot_free}

-- The packages: what the code calls, and what it relies on.
pub record CryptoLibrary : Type 1 where
  pub Key : Type 0
  pub Bytes : Type 0
  -- `hkdfSync` of a master key for a purpose, and the legacy key of the token secret.
  pub hkdf : Chars → Chars → Key
  pub sha256_key : Chars → Key
  -- `createHmac('sha256', key).update(value).digest()`, by a derived key and by a secret.
  pub hmac : Key → Chars → Bytes
  pub hmac_secret : Chars → Chars → Bytes
  pub same_bytes : Bytes → Bytes → Bool
  -- AES-256-GCM: the ciphertext and its tag, and back unless the tag is wrong.
  pub encipher : Key → Bytes → Chars → Bytes × Bytes
  pub decipher : Key → Bytes → Bytes → Bytes → Option Chars
  pub base64url : Bytes → Chars
  pub from_base64url : Chars → Bytes
  pub decipher-encipher :
      (key : Key) (iv : Bytes) (value : Chars)
      → decipher key iv (encipher key iv value).1 (encipher key iv value).0 ≡ some value
  pub from_base64url-base64url : (bytes : Bytes) → from_base64url (base64url bytes) ≡ bytes
  pub base64url_dot_free : (bytes : Bytes) → is_dot_free (base64url bytes) ≡ true
  pub same_bytes_refl : (bytes : Bytes) → same_bytes bytes bytes ≡ true

-- `cryptoKeyring`, `activeKeyId` and TOKEN_HASH_SECRET.
pub record Keyring : Type 0 where
  pub keys : List (Chars × Chars)
  pub active_key_id : Chars
  pub token_hash_secret : Chars

abbrev pub master_of : List (Chars × Chars) → Chars → Option Chars
master_of [] id = none
master_of ((k, master) ∷ ks) id = if codes_eq k id then some master else master_of ks id

-- 'v1', 'opaque-token', 'metadata', 'encryption'.
abbrev pub version : Chars
version = 118 ∷ 49 ∷ []

pub data CryptoPurpose : Type 0 where
  opaque_token metadata encryption : CryptoPurpose

module _ (lib : CryptoLibrary) (purpose_text : CryptoPurpose → Chars) where
  unfoldable pub derived_key : Keyring → Chars → CryptoPurpose → Result lib.Key
  derived_key ring key_id purpose = do
    master ← or_throw (master_of ring.keys key_id) plain_error
    ok (lib.hkdf master (purpose_text purpose))

  unfoldable pub versioned_hmac : Keyring → Chars → CryptoPurpose → Chars → Result Chars
  versioned_hmac ring key_id purpose value = do
    key ← derived_key ring key_id purpose
    ok (join_dots (version ∷ key_id ∷ lib.base64url (lib.hmac key value) ∷ []))

  unfoldable pub hash_opaque_token : Keyring → Chars → Result Chars
  hash_opaque_token ring token = versioned_hmac ring ring.active_key_id opaque_token token

  unfoldable pub hash_metadata : Keyring → Chars → Result Chars
  hash_metadata ring value = versioned_hmac ring ring.active_key_id metadata value

  unfoldable pub versioned_all :
      Keyring → CryptoPurpose → Chars → List (Chars × Chars) → Result (List Chars)
  versioned_all ring purpose value [] = ok []
  versioned_all ring purpose value ((key_id, master) ∷ ks) = do
    hash ← versioned_hmac ring key_id purpose value
    rest ← versioned_all ring purpose value ks
    ok (hash ∷ rest)

  abbrev legacy_hash : Keyring → Chars → Chars
  legacy_hash ring value = lib.base64url (lib.hmac_secret ring.token_hash_secret value)

  -- `candidateOpaqueTokenHashes` and `candidateMetadataHashes`, by their purpose.
  unfoldable pub candidate_hashes : Keyring → CryptoPurpose → Chars → Result (List Chars)
  candidate_hashes ring purpose value = do
    hashes ← versioned_all ring purpose value ring.keys
    ok (hashes ++ (legacy_hash ring value ∷ []))

  unfoldable pub encrypt_secret : Keyring → lib.Bytes → Chars → Result Chars
  encrypt_secret ring iv value = do
    key ← derived_key ring ring.active_key_id encryption
    let sealed = lib.encipher key iv value
    ok (
        join_dots (
          version
          ∷ ring.active_key_id
          ∷ lib.base64url iv
          ∷ lib.base64url sealed.1
          ∷ lib.base64url sealed.0
          ∷ []))

  unfoldable pub open_sealed : lib.Key → Chars → Chars → Chars → Result Chars
  open_sealed key iv tag ciphertext =
      or_throw
        (lib.decipher key (lib.from_base64url iv) (lib.from_base64url tag)
          (lib.from_base64url ciphertext))
        plain_error

  unfoldable pub decrypt_parts : Keyring → List Chars → Result Chars
  decrypt_parts ring (v ∷ key_id ∷ iv ∷ tag ∷ ciphertext ∷ []) =
      if codes_eq v version
      then (do key ← derived_key ring key_id encryption; open_sealed key iv tag ciphertext)
      else err plain_error
  decrypt_parts ring (iv ∷ tag ∷ ciphertext ∷ []) =
      open_sealed (lib.sha256_key ring.token_hash_secret) iv tag ciphertext
  decrypt_parts ring _ = err plain_error

  unfoldable pub decrypt_secret : Keyring → Chars → Result Chars
  decrypt_secret ring value = decrypt_parts ring (split_dots value)
