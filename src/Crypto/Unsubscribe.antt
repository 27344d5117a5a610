-- ===== src/Crypto/Unsubscribe.antt =====
-- src/modules/notifications/unsubscribe.ts: signed links that end a subscription. Texts and bytes are
-- lists of codes. The HMAC, base64url, JSON and the test for a UUID are an interface; the payload, its
-- schema and the signature's format are the file's.
use production_backend_found.Prelude.{
  ℕ, ◌+◌, ◌*◌, ◌≡◌, Bool, true, false, not, ◌&&◌, ◌||◌, Option, none, some, List, [], ◌∷◌, ◌++◌,
  any, length, ltb, ◌==◌, if◌then◌else◌,
}
use production_backend_found.Crypto.Text.{Chars, codes_eq, join_dots, split_dots, is_dot_free}

-- What a parsed payload may hold; numbers that are no natural number, and all else, are the last.
pub data JsonValue : Type 0 where
  json_number : ℕ → JsonValue
  json_text : Chars → JsonValue
  json_other : ℕ → JsonValue

-- An object by its fields.
abbrev pub JsonObject : Type 0
JsonObject = List (Chars × JsonValue)

-- `unsubscribePayload`.
pub record UnsubscribePayload : Type 0 where
  pub v : ℕ
  pub user_id : Chars
  pub topic : Chars
  pub exp : ℕ

abbrev pub is_blank : Chars → Bool
is_blank [] = true
is_blank (c ∷ cs) = false

-- `extra`: absent and empty are alike.
abbrev pub is_extra : List Chars → Bool
is_extra [] = false
is_extra (extra ∷ rest) = not (is_blank extra)

pub record TokenLibrary : Type 0 where
  pub hmac : Chars → Chars
  pub base64url : Chars → Chars
  pub from_base64url : Chars → Chars
  pub timing_safe_equal : Chars → Chars → Bool
  pub stringify : JsonObject → Chars
  pub parse : Chars → Option JsonObject
  pub is_uuid : Chars → Bool
  pub from_base64url-base64url : (bytes : Chars) → from_base64url (base64url bytes) ≡ bytes
  pub base64url_dot_free : (bytes : Chars) → is_dot_free (base64url bytes) ≡ true
  pub base64url_filled :
      (bytes : Chars) → is_blank bytes ≡ false → is_blank (base64url bytes) ≡ false
  pub hmac_filled : (message : Chars) → is_blank (hmac message) ≡ false
  pub timing_safe_equal_refl : (bytes : Chars) → timing_safe_equal bytes bytes ≡ true
  pub parse-stringify : (o : JsonObject) → parse (stringify o) ≡ some o
  pub stringify_filled : (o : JsonObject) → is_blank (stringify o) ≡ false

-- 'email-unsubscribe:v1:'.
abbrev pub signature_prefix : Chars
signature_prefix =
    101 ∷ 109 ∷ 97 ∷ 105 ∷ 108 ∷ 45 ∷ 117 ∷ 110 ∷ 115 ∷ 117 ∷ 98 ∷ 115 ∷ 99 ∷ 114 ∷ 105 ∷ 98 ∷ 101
    ∷ 58 ∷ 118 ∷ 49 ∷ 58 ∷ []

-- 'product_updates'.
abbrev pub notification_topics : List Chars
notification_topics =
    (112 ∷ 114 ∷ 111 ∷ 100 ∷ 117 ∷ 99 ∷ 116 ∷ 95 ∷ 117 ∷ 112 ∷ 100 ∷ 97 ∷ 116 ∷ 101 ∷ 115 ∷ []) ∷ []

abbrev pub field : Chars → JsonObject → Option JsonValue
field name [] = none
field name ((key, value) ∷ rest) = if codes_eq key name then some value else field name rest

-- The names of the payload's fields.
abbrev pub v_key : Chars
v_key = 118 ∷ []

abbrev pub user_id_key : Chars
user_id_key = 117 ∷ 115 ∷ 101 ∷ 114 ∷ 73 ∷ 100 ∷ []

abbrev pub topic_key : Chars
topic_key = 116 ∷ 111 ∷ 112 ∷ 105 ∷ 99 ∷ []

abbrev pub exp_key : Chars
exp_key = 101 ∷ 120 ∷ 112 ∷ []

-- The object that the token carries.
abbrev pub payload_object : Chars → Chars → ℕ → JsonObject
payload_object user_id topic exp =
    (v_key, json_number 1)
    ∷ (user_id_key, json_text user_id)
    ∷ (topic_key, json_text topic)
    ∷ (exp_key, json_number exp)
    ∷ []

module _ (lib : TokenLibrary) where
  unfoldable pub signature : Chars → Chars
  signature payload = lib.hmac (signature_prefix ++ payload)

  -- Times are in seconds.
  unfoldable pub create_unsubscribe_token : Chars → Chars → ℕ → ℕ → Chars
  create_unsubscribe_token user_id topic expires_in_days now =
      let payload =
        lib.base64url
          (lib.stringify (payload_object user_id topic (now + expires_in_days * 24 * 60 * 60))) in
      join_dots (payload ∷ lib.base64url (signature payload) ∷ [])

  -- The schema: the literal, the UUID, the topic, and the positive integer.
  unfoldable pub schema_fields :
      Option JsonValue
      → Option JsonValue
      → Option JsonValue
      → Option JsonValue
      → Option UnsubscribePayload
  schema_fields (some (json_number v)) (some (json_text u)) (some (json_text t))
        (some (json_number e)) =
      if v == 1 && lib.is_uuid u && any (codes_eq t) notification_topics && ltb 0 e
      then some (record { v = v; user_id = u; topic = t; exp = e })
      else none
  schema_fields _ _ _ _ = none

  unfoldable pub parse_payload : Option JsonObject → Option UnsubscribePayload
  parse_payload none = none
  parse_payload (some o) =
      schema_fields (field v_key o) (field user_id_key o) (field topic_key o) (field exp_key o)

  abbrev unexpired : ℕ → Option UnsubscribePayload → Option UnsubscribePayload
  unexpired now none = none
  unexpired now (some p) = if ltb now p.exp then some p else none

  unfoldable pub is_signed : Chars → Chars → Bool
  is_signed payload encoded_signature =
      let actual = lib.from_base64url encoded_signature in
      let expected = signature payload in
      length actual == length expected && lib.timing_safe_equal actual expected

  unfoldable pub verify_parts : ℕ → List Chars → Option UnsubscribePayload
  verify_parts now (payload ∷ encoded_signature ∷ rest) =
      if is_blank payload || is_blank encoded_signature || is_extra rest
      then none
      else if is_signed payload encoded_signature
      then unexpired now (parse_payload (lib.parse (lib.from_base64url payload)))
      else none
  verify_parts now _ = none

  unfoldable pub verify_unsubscribe_token : ℕ → Chars → Option UnsubscribePayload
  verify_unsubscribe_token now token = verify_parts now (split_dots token)
