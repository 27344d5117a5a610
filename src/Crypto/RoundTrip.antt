-- ===== src/Crypto/RoundTrip.antt =====
-- What was made with a key is read with it, also after the ring was rotated.
use production_backend_found.Prelude.{
  ℕ, ◌+◌, ◌*◌, ◌<◌, ◌≡◌, refl, ap, ◌∙◌, true, false, some, List, [], ◌∷◌, ◌++◌, arith, any, inl,
  inr, Bool-cases,
}
use production_backend_found.Errors.{ok, Result-cases}
use production_backend_found.Crypto.Text.{
  Chars, codes_eq, codes_eq_refl, codes_eq_sound, join_dots, split_dots, is_dot_free,
  split_dots-join_dots,
}
use production_backend_found.Crypto.{
  CryptoLibrary, Keyring, master_of, version, CryptoPurpose, opaque_token, encryption, derived_key,
  versioned_hmac, hash_opaque_token, versioned_all, candidate_hashes, encrypt_secret, open_sealed,
  decrypt_parts, decrypt_secret,
}
use production_backend_found.Crypto.Unsubscribe.{
  TokenLibrary, is_blank, signature_prefix, notification_topics, payload_object, signature,
  create_unsubscribe_token, schema_fields, parse_payload, is_signed, verify_parts,
  verify_unsubscribe_token,
}

module _ (lib : CryptoLibrary) (purpose_text : CryptoPurpose → Chars) where
  -- A secret is read back: if the active key is in the ring and its identifier has no dot, then
  -- what was encrypted under it is decrypted to the same value by every ring that has the same
  -- master key under that identifier, whichever of its keys is active then.
  pub decrypt_secret-encrypt_secret :
      (ring later : Keyring) (iv : lib.Bytes) (value master sealed : Chars)
      → is_dot_free ring.active_key_id ≡ true
      → master_of ring.keys ring.active_key_id ≡ some master
      → master_of later.keys ring.active_key_id ≡ some master
      → encrypt_secret lib purpose_text ring iv value ≡ ok sealed
      → decrypt_secret lib purpose_text later sealed ≡ ok value
  unfolding encrypt_secret decrypt_secret decrypt_parts derived_key open_sealed
  decrypt_secret-encrypt_secret ring later iv value master sealed plain own kept made =
      let key = lib.hkdf master (purpose_text encryption) in
      let c = lib.encipher key iv value in
      let parts =
        ring.active_key_id ∷ lib.base64url iv ∷ lib.base64url c.1 ∷ lib.base64url c.0 ∷ [] in
      let same : sealed ≡ join_dots (version ∷ parts) = ground (arith, made, own) in
      let split : split_dots (join_dots (version ∷ parts)) ≡ version ∷ parts =
        split_dots-join_dots version parts (
          ground (
            arith,
            plain,
            lib.base64url_dot_free iv,
            lib.base64url_dot_free c.1,
            lib.base64url_dot_free c.0,
          )) in
      let opened : decrypt_parts lib purpose_text later (version ∷ parts) ≡ ok value =
        rw
          (
            kept,
            lib.from_base64url-base64url iv,
            lib.from_base64url-base64url c.1,
            lib.from_base64url-base64url c.0,
            lib.decipher-encipher key iv value,
          )
          refl in
      rw same (ap (decrypt_parts lib purpose_text later) split ∙ opened)

  versioned_all-master_of :
      (ring : Keyring) (purpose : CryptoPurpose) (value id master hash : Chars)
      (ks : List (Chars × Chars)) (hashes : List Chars)
      → master_of ks id ≡ some master
      → versioned_hmac lib purpose_text ring id purpose value ≡ ok hash
      → versioned_all lib purpose_text ring purpose value ks ≡ ok hashes
      → any (codes_eq hash) hashes ≡ true
  unfolding versioned_all
  versioned_all-master_of ring purpose value id master hash [] hashes held made all_made =
      absurd (ground (arith, held))
  versioned_all-master_of ring purpose value id master hash ((k, m) ∷ ks) hashes held made
        all_made =
      elim (Result-cases (versioned_hmac lib purpose_text ring k purpose value)) [
        | inr (e, refused) ↦ absurd (ground (arith, all_made, refused))
        | inl (first, first_made) ↦
            elim (Result-cases (versioned_all lib purpose_text ring purpose value ks)) [
              | inr (e, refused) ↦ absurd (ground (arith, all_made, first_made, refused))
              | inl (rest, rest_made) ↦
                  let same : hashes ≡ first ∷ rest =
                    ground (arith, all_made, first_made, rest_made) in
                  elim (Bool-cases (codes_eq k id)) [
                    | inl own ↦
                        let e : k ≡ id = codes_eq_sound k id own in
                        let first_made' = rw e at first_made in
                        let f : hash ≡ first = ground (arith, made, first_made') in
                        rw same (rw f (ground (arith, codes_eq_refl first)))
                    | inr other ↦ rw same (
                        ground (
                          arith,
                          versioned_all-master_of ring purpose value id master hash ks rest
                              (ground (arith, held, other)) made rest_made,
                        ))
                  ]
            ]
      ]

  any-append :
      (h : Chars) (xs ys : List Chars)
      → any (codes_eq h) xs ≡ true
      → any (codes_eq h) (xs ++ ys) ≡ true
  any-append h [] ys k = absurd (ground (arith, k))
  any-append h (x ∷ xs) ys k = ground (arith, k, any-append h xs ys)

  -- A hashed token is found again: if a token was hashed under the active key, and a later ring
  -- still has the same master key under that key's identifier, then the hash is among those that
  -- the later ring looks the token up by.
  pub hash_opaque_token-candidates :
      (ring later : Keyring) (token master hash : Chars) (hashes : List Chars)
      → master_of ring.keys ring.active_key_id ≡ some master
      → master_of later.keys ring.active_key_id ≡ some master
      → hash_opaque_token lib purpose_text ring token ≡ ok hash
      → candidate_hashes lib purpose_text later opaque_token token ≡ ok hashes
      → any (codes_eq hash) hashes ≡ true
  unfolding hash_opaque_token candidate_hashes versioned_hmac derived_key
  hash_opaque_token-candidates ring later token master hash hashes own kept made found =
      elim (Result-cases (versioned_all lib purpose_text later opaque_token token later.keys)) [
        | inr (e, refused) ↦ absurd (ground (arith, found, refused))
        | inl (known, made_all) ↦
            let again : versioned_hmac lib purpose_text later ring.active_key_id opaque_token token
                ≡ ok hash =
              ground (arith, own, kept, made) in
            let inside =
              versioned_all-master_of later opaque_token token ring.active_key_id master hash
                later.keys known kept again made_all in
            let same : hashes
                ≡ known ++ (lib.base64url (lib.hmac_secret later.token_hash_secret token) ∷ []) =
              ground (arith, found, made_all) in
            rw same (any-append hash known _ inside)
      ]

module _ (lib : TokenLibrary) where
  signature-is_signed :
      (payload : Chars) → is_signed lib payload (lib.base64url (signature lib payload)) ≡ true
  unfolding is_signed
  signature-is_signed payload =
      rw (lib.from_base64url-base64url (signature lib payload))
        (ground (arith, lib.timing_safe_equal_refl (signature lib payload)))

  payload_object-parses :
      (user_id topic : Chars) (exp : ℕ)
      → lib.is_uuid user_id ≡ true
      → any (codes_eq topic) notification_topics ≡ true
      → 0 < exp
      → parse_payload lib (some (payload_object user_id topic exp))
        ≡ some (record { v = 1; user_id = user_id; topic = topic; exp = exp })
  unfolding parse_payload schema_fields
  payload_object-parses user_id topic exp uuid known positive =
      ground (arith, uuid, known, positive)

  -- A link is honoured until it expires: a token made for a user whose identifier is a UUID and for
  -- one of the topics is verified to the payload that it was made from at every time before its end.
  pub verify_unsubscribe_token-create_unsubscribe_token :
      (user_id topic : Chars) (days now later : ℕ)
      → lib.is_uuid user_id ≡ true
      → any (codes_eq topic) notification_topics ≡ true
      → later < now + days * 24 * 60 * 60
      → verify_unsubscribe_token lib later (create_unsubscribe_token lib user_id topic days now)
        ≡ some (record { v = 1; user_id = user_id; topic = topic; exp = now + days * 24 * 60 * 60 })
  unfolding verify_unsubscribe_token create_unsubscribe_token verify_parts signature
  verify_unsubscribe_token-create_unsubscribe_token user_id topic days now later uuid known early =
      let exp = now + days * 24 * 60 * 60 in
      let object = payload_object user_id topic exp in
      let payload = lib.base64url (lib.stringify object) in
      let sign = lib.base64url (signature lib payload) in
      let split : split_dots (join_dots (payload ∷ sign ∷ [])) ≡ payload ∷ sign ∷ [] =
        split_dots-join_dots payload (sign ∷ []) (
          ground (
            arith,
            lib.base64url_dot_free (lib.stringify object),
            lib.base64url_dot_free (signature lib payload),
          )) in
      let full : is_blank payload ≡ false =
        lib.base64url_filled (lib.stringify object) (lib.stringify_filled object) in
      let signed : is_blank sign ≡ false =
        lib.base64url_filled (signature lib payload)
          (lib.hmac_filled (signature_prefix ++ payload)) in
      let positive : 0 < exp = omega (arith, early) in
      ap (verify_parts lib later) split
      ∙ rw
          (
            full,
            signed,
            signature-is_signed payload,
            lib.from_base64url-base64url (lib.stringify object),
            lib.parse-stringify object,
            payload_object-parses user_id topic exp uuid known positive,
            verify_parts,
          )
          (ground (arith, early))
