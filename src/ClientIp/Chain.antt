-- ===== src/ClientIp/Chain.antt =====
-- Which address a request is taken to come from (src/lib/client-ip.ts).
use mathlib.Core.List.{reverse, reverse-cons, reverse-append, reverse-reverse}
use production_backend_found.Prelude.{
  ◌≡◌, refl, sym, ap, ◌∙◌, ◌⊎◌, inl, inr, Bool, true, ◌||◌, Option, some, List, [], ◌∷◌, ◌++◌,
  arith, all, any, is_none, Bool-cases, subst,
}
use production_backend_found.ClientIp.{
  Chars, ParsedIp, ParsedCidr, ForwardedHeader, TrustedProxyInput, trim, is_blank, header_entries,
  forwarded_chain, matches_any_cidr, no_networks, walk, resolve_chain, trusted_client_address,
}

module _ (parse_client_ip : Chars → Option ParsedIp) (cidrs : List ParsedCidr) where
  abbrev is_trusted : Chars → Bool
  is_trusted address = matches_any_cidr parse_client_ip address cidrs

  -- An entry of a chain before which every hop is trusted.
  abbrev OnChain : Chars → List Chars → Chars → Type 0
  OnChain remote chain found =
      (before after : List Chars) × (chain ≡ before ++ (found ∷ after))
      × (is_trusted remote ≡ true)
      × (all is_trusted before ≡ true)

  walk-OnChain :
      (address : Chars) (rest : List Chars)
      → (walk parse_client_ip cidrs address rest ≡ address)
        ⊎ OnChain address rest (walk parse_client_ip cidrs address rest)
  unfolding walk
  walk-OnChain address [] = inl refl
  walk-OnChain address (next ∷ rest) = elim (Bool-cases (is_trusted address)) [
    | inr untrusted ↦ inl (ground (arith, untrusted))
    | inl trusted ↦
        let same : walk parse_client_ip cidrs address (next ∷ rest)
            ≡ walk parse_client_ip cidrs next rest =
          ground (arith, trusted) in
        elim (walk-OnChain next rest) [
          | inl at ↦ inr ([], rest, ap (λ a. a ∷ rest) (sym (same ∙ at)), trusted, refl)
          | inr (before, after, split, hop, hops) ↦ inr (
            next ∷ before,
            after,
            ap (λ xs. next ∷ xs) (split ∙ ap (λ a. before ++ (a ∷ after)) (sym same)),
            trusted,
            ground (arith, hop, hops),
          )
        ]
  ]

  all-append :
      (xs ys : List Chars)
      → all is_trusted xs ≡ true
      → all is_trusted ys ≡ true
      → all is_trusted (xs ++ ys) ≡ true
  all-append [] ys h k = k
  all-append (x ∷ xs) ys h k = ground (arith, h, all-append xs ys (ground (arith, h)) k)

  all-reverse : (xs : List Chars) → all is_trusted xs ≡ true → all is_trusted (reverse xs) ≡ true
  all-reverse [] h = refl
  all-reverse (x ∷ xs) h =
      rw (reverse-cons x xs)
        (all-append (reverse xs) (x ∷ []) (all-reverse xs (ground (arith, h))) (ground (arith, h)))

  -- The header as it is written, where the chain reads it from its end.
  reverse-split :
      (entries before after : List Chars) (found : Chars)
      → reverse entries ≡ before ++ (found ∷ after)
      → entries ≡ reverse after ++ (found ∷ reverse before)
  reverse-split entries before after found h =
      sym (reverse-reverse entries)
      ∙ ap reverse h
      ∙ reverse-append before (found ∷ after)
      ∙ ap (λ xs. xs ++ reverse before) (reverse-cons found after)
      ∙ append_one (reverse after) found (reverse before)
    where
      append_one :
          (xs : List Chars) (y : Chars) (ys : List Chars) → (xs ++ (y ∷ [])) ++ ys ≡ xs ++ (y ∷ ys)
      append_one [] y ys = refl
      append_one (x ∷ xs) y ys = ap (λ zs. x ∷ zs) (append_one xs y ys)

  -- The socket's address, or an entry of the header such that the socket's address and every entry
  -- that is written after it are trusted.
  abbrev pub IsVouched : ForwardedHeader → Chars → Chars → Type 0
  IsVouched header remote address =
      (address ≡ remote)
      ⊎ ((earlier later : List Chars) × (header_entries header ≡ earlier ++ (address ∷ later))
          × (is_trusted remote ≡ true)
          × (all is_trusted later ≡ true))

  resolve_chain-IsVouched :
      (input : TrustedProxyInput) (remote : Chars)
      → input.trusted_hops ≡ 0
      → input.trusted_cidrs ≡ cidrs
      → IsVouched input.forwarded_for remote
          (resolve_chain parse_client_ip input (forwarded_chain input.forwarded_for) remote)
  unfolding resolve_chain forwarded_chain
  resolve_chain-IsVouched input remote no_hops networks =
      let chain = forwarded_chain input.forwarded_for in
      elim (Bool-cases (any (λ value. is_none (parse_client_ip value)) chain)) [
        | inl bad ↦ inl (ground (arith, bad))
        | inr good ↦ elim (Bool-cases (no_networks parse_client_ip cidrs)) [
          | inl empty ↦ inl (ground (arith, good, no_hops, empty, networks))
          | inr some_trusted ↦
              let same : resolve_chain parse_client_ip input chain remote
                  ≡ walk parse_client_ip cidrs remote chain =
                ground (arith, good, no_hops, some_trusted, networks) in
              elim (walk-OnChain remote chain) [
                | inl at ↦ inl (same ∙ at)
                | inr (before, after, split, hop, hops) ↦ inr (
                  reverse after,
                  reverse before,
                  reverse-split (header_entries input.forwarded_for) before after _ split
                      ∙ ap (λ a. reverse after ++ (a ∷ reverse before)) (sym same),
                  hop,
                  all-reverse before hops,
                )
              ]
        ]
      ]

-- A client cannot choose its address: if no hops are trusted by their number and an address is
-- resolved, then it is the socket's (trimmed), or an entry of the header, split at its commas and
-- trimmed, such that the socket's address and every entry written after that one are in a trusted
-- network.
pub trusted_client_address-IsVouched :
    (parse_client_ip : Chars → Option ParsedIp) (input : TrustedProxyInput) (remote address : Chars)
    → input.remote_address ≡ some remote
    → input.trusted_hops ≡ 0
    → trusted_client_address parse_client_ip input ≡ some address
    → IsVouched parse_client_ip input.trusted_cidrs input.forwarded_for (trim remote) address
unfolding trusted_client_address
trusted_client_address-IsVouched parse_client_ip input remote address from no_hops h =
    elim (Bool-cases (is_blank (trim remote) || is_none (parse_client_ip (trim remote)))) [
      | inl unreadable ↦ absurd (ground (arith, h, from, unreadable))
      | inr readable ↦
          let same : resolve_chain parse_client_ip input (forwarded_chain input.forwarded_for)
                (trim remote)
              ≡ address =
            ground (arith, h, from, readable) in
          subst (IsVouched parse_client_ip input.trusted_cidrs input.forwarded_for (trim remote))
            same
            (resolve_chain-IsVouched parse_client_ip input.trusted_cidrs input (trim remote) no_hops
              refl)
    ]
