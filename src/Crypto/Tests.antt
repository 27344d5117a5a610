-- ===== src/Crypto/Tests.antt =====
-- A library of no strength that meets the interfaces, and round trips with it.
use production_backend_found.Prelude.{
  ℕ, zero, suc, ◌+◌, ◌-◌, ◌*◌, ◌≡◌, ◌∙◌, refl, true, false, length, ◌==◌, Option, none, some, List,
  [], ◌∷◌, ◌++◌, any, ap, arith,
}
use production_backend_found.Errors.{ok, err, plain_error}
use production_backend_found.Crypto.Text.{Chars, codes_eq, codes_eq_refl, is_dot_free}
use production_backend_found.Crypto.{
  CryptoLibrary, Keyring, CryptoPurpose, opaque_token, metadata, encryption, encrypt_secret,
  decrypt_secret, decrypt_parts, derived_key, versioned_hmac, versioned_all, hash_opaque_token,
  candidate_hashes,
}
use production_backend_found.Crypto.Unsubscribe.{
  JsonValue, json_number, json_text, json_other, JsonObject, TokenLibrary, is_blank, schema_fields,
  create_unsubscribe_token, verify_unsubscribe_token,
}
use production_backend_found.Crypto.RoundTrip.{
  decrypt_secret-encrypt_secret, hash_opaque_token-candidates,
  verify_unsubscribe_token-create_unsubscribe_token,
}

abbrev up : Chars → Chars
up [] = []
up (c ∷ cs) = (c + 47) ∷ up cs

abbrev down : Chars → Chars
down [] = []
down (c ∷ cs) = (c - 47) ∷ down cs

down-up : (cs : Chars) → down (up cs) ≡ cs
down-up [] = refl
down-up (c ∷ cs) = ground (arith, down-up cs)

up_dot_free : (cs : Chars) → is_dot_free (up cs) ≡ true
up_dot_free [] = refl
up_dot_free (c ∷ cs) = ground (arith, up_dot_free cs)

abbrev plain_library : CryptoLibrary
plain_library = record {
  Key = Chars;
  Bytes = Chars;
  hkdf = λ master purpose. master ++ purpose;
  sha256_key = λ secret. secret;
  hmac = λ key value. key ++ value;
  hmac_secret = λ secret value. secret ++ value;
  same_bytes = codes_eq;
  encipher = λ key iv value. (value, key);
  decipher = λ key iv tag value. some value;
  base64url = up;
  from_base64url = down;
  decipher-encipher = λ key iv value. refl;
  from_base64url-base64url = down-up;
  base64url_dot_free = up_dot_free;
  same_bytes_refl = codes_eq_refl;
}

abbrev purpose_text : CryptoPurpose → Chars
purpose_text opaque_token = 1 ∷ []
purpose_text metadata = 2 ∷ []
purpose_text encryption = 3 ∷ []

abbrev ring : Keyring
ring = record { keys = (97 ∷ [], 5 ∷ []) ∷ []; active_key_id = 97 ∷ []; token_hash_secret = 9 ∷ [] }

-- A new key is active, and the old one is still there.
abbrev rotated : Keyring
rotated = record ring { keys = (98 ∷ [], 6 ∷ []) ∷ (97 ∷ [], 5 ∷ []) ∷ []; active_key_id = 98 ∷ [] }

abbrev sealed : Chars
sealed = 118 ∷ 49 ∷ 46 ∷ 97 ∷ 46 ∷ 48 ∷ 46 ∷ 52 ∷ 50 ∷ 46 ∷ 87 ∷ 88 ∷ []

decrypt_secret-encrypt_secret_example :
    decrypt_secret plain_library purpose_text rotated sealed ≡ ok (40 ∷ 41 ∷ [])
unfolding encrypt_secret derived_key
decrypt_secret-encrypt_secret_example =
    decrypt_secret-encrypt_secret plain_library purpose_text ring rotated (1 ∷ []) (40 ∷ 41 ∷ [])
      (5 ∷ []) sealed refl refl refl refl

-- A text that is in neither format is refused.
decrypt_malformed :
    decrypt_secret plain_library purpose_text ring (118 ∷ 49 ∷ 46 ∷ 97 ∷ []) ≡ err plain_error
unfolding decrypt_secret decrypt_parts
decrypt_malformed = refl

abbrev hash : Chars
hash = 118 ∷ 49 ∷ 46 ∷ 97 ∷ 46 ∷ 52 ∷ 48 ∷ 80 ∷ []

abbrev hashes : List Chars
hashes = (118 ∷ 49 ∷ 46 ∷ 98 ∷ 46 ∷ 53 ∷ 48 ∷ 80 ∷ []) ∷ hash ∷ (56 ∷ 80 ∷ []) ∷ []

hash_opaque_token-candidates_example : any (codes_eq hash) hashes ≡ true
unfolding hash_opaque_token candidate_hashes versioned_all versioned_hmac derived_key
hash_opaque_token-candidates_example =
    hash_opaque_token-candidates plain_library purpose_text ring rotated (33 ∷ []) (5 ∷ []) hash
      hashes refl refl refl refl

-- A text of parts in place of JSON: each part is shifted by one and ended by a 0, and a field is its
-- name and its tagged value.
abbrev parts_text : List Chars → Chars
parts_text [] = []
parts_text ([] ∷ ps) = 0 ∷ parts_text ps
parts_text ((c ∷ cs) ∷ ps) = suc c ∷ parts_text (cs ∷ ps)

abbrev push_code : ℕ → List Chars → List Chars
push_code c [] = (c ∷ []) ∷ []
push_code c (p ∷ ps) = (c ∷ p) ∷ ps

abbrev text_parts : Chars → List Chars
text_parts [] = []
text_parts (zero ∷ cs) = [] ∷ text_parts cs
text_parts (suc c ∷ cs) = push_code c (text_parts cs)

text_parts-parts_text : (ps : List Chars) → text_parts (parts_text ps) ≡ ps
text_parts-parts_text [] = refl
text_parts-parts_text ([] ∷ ps) = ap (λ qs. [] ∷ qs) (text_parts-parts_text ps)
text_parts-parts_text ((c ∷ cs) ∷ ps) = ap (push_code c) (text_parts-parts_text (cs ∷ ps))

abbrev value_part : JsonValue → Chars
value_part (json_number n) = 0 ∷ n ∷ []
value_part (json_text cs) = 1 ∷ cs
value_part (json_other n) = 2 ∷ n ∷ []

abbrev part_value : Chars → JsonValue
part_value (zero ∷ n ∷ []) = json_number n
part_value (suc zero ∷ cs) = json_text cs
part_value (suc (suc zero) ∷ n ∷ []) = json_other n
part_value _ = json_other 0

abbrev object_parts : JsonObject → List Chars
object_parts [] = []
object_parts ((key, value) ∷ o) = key ∷ value_part value ∷ object_parts o

abbrev parts_object : List Chars → JsonObject
parts_object [] = []
parts_object (key ∷ []) = []
parts_object (key ∷ value ∷ ps) = (key, part_value value) ∷ parts_object ps

part_value-value_part : (v : JsonValue) → part_value (value_part v) ≡ v
part_value-value_part (json_number n) = refl
part_value-value_part (json_text cs) = refl
part_value-value_part (json_other n) = refl

parts_object-object_parts : (o : JsonObject) → parts_object (object_parts o) ≡ o
parts_object-object_parts [] = refl
parts_object-object_parts ((key, value) ∷ o) =
    rw (part_value-value_part value) (ap (λ p. (key, value) ∷ p) (parts_object-object_parts o))

abbrev parse_text : Chars → Option JsonObject
parse_text [] = none
parse_text (c ∷ cs) = some (parts_object (text_parts cs))

up_filled : (cs : Chars) → is_blank cs ≡ false → is_blank (up cs) ≡ false
up_filled [] h = h
up_filled (c ∷ cs) h = refl

abbrev plain_tokens : TokenLibrary
plain_tokens = record {
  hmac = λ message. 9 ∷ message;
  base64url = up;
  from_base64url = down;
  timing_safe_equal = codes_eq;
  stringify = λ o. 123 ∷ parts_text (object_parts o);
  parse = parse_text;
  is_uuid = λ cs. length cs == 2;
  from_base64url-base64url = down-up;
  base64url_dot_free = up_dot_free;
  base64url_filled = up_filled;
  hmac_filled = λ message. refl;
  timing_safe_equal_refl = codes_eq_refl;
  parse-stringify = λ o.
      ap some
        (ap parts_object (text_parts-parts_text (object_parts o)) ∙ parts_object-object_parts o);
  stringify_filled = λ o. refl;
}

abbrev user : Chars
user = 51 ∷ 52 ∷ []

abbrev updates : Chars
updates = 112 ∷ 114 ∷ 111 ∷ 100 ∷ 117 ∷ 99 ∷ 116 ∷ 95 ∷ 117 ∷ 112 ∷ 100 ∷ 97 ∷ 116 ∷ 101 ∷ 115 ∷ []

verify_unsubscribe_token-create_unsubscribe_token_example :
    verify_unsubscribe_token plain_tokens 5_000
      (create_unsubscribe_token plain_tokens user updates 30 100)
    ≡ some (record { v = 1; user_id = user; topic = updates; exp = 100 + 30 * 24 * 60 * 60 })
verify_unsubscribe_token-create_unsubscribe_token_example =
    verify_unsubscribe_token-create_unsubscribe_token plain_tokens user updates 30 100 5_000 refl
      refl (omega arith)

-- A payload of another version, or for an unknown topic, is refused.
schema_version :
    schema_fields plain_tokens
      (some (json_number 2))
      (some (json_text user))
      (some (json_text updates))
      (some (json_number 9))
    ≡ none
unfolding schema_fields
schema_version = refl

schema_topic :
    schema_fields plain_tokens
      (some (json_number 1))
      (some (json_text user))
      (some (json_text user))
      (some (json_number 9))
    ≡ none
unfolding schema_fields
schema_topic = refl
