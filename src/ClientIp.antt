-- ===== src/ClientIp.antt =====
-- src/lib/client-ip.ts: networks, the forwarding header, and the chain of proxies before a request.
-- Texts are lists of character codes, and bytes are natural numbers; an address is read from its text
-- by a parameter.
pub mod Chain
mod Tests
use mathlib.Core.List.{reverse}
use Prim.Native.Nat.{bit_and}
use production_backend_found.Prelude.{
  ℕ, zero, suc, ◌-◌, ◌*◌, ◌/◌, ◌%◌, ◌^◌, ◌≡◌, refl, Bool, true, false, not, ◌&&◌, ◌||◌, Option,
  none, some, String, List, [], ◌∷◌, ◌++◌, arith, all, any, length, min, ltb, leb, keep, map, ◌==◌,
  is_none, is_some, if◌then◌else◌, Bool-cases, inl, inr, subst,
}

-- The family is 4 or 6.
pub record ParsedIp : Type 0 where
  pub family : ℕ
  pub bytes : List ℕ

pub record ParsedCidr : Type 0 where
  pub family : ℕ
  pub bytes : List ℕ
  pub prefix : ℕ

-- `bytes[index] ?? 0`.
abbrev pub byte_at : List ℕ → ℕ → ℕ
byte_at [] index = 0
byte_at (b ∷ bs) zero = b
byte_at (b ∷ bs) (suc index) = byte_at bs index

-- The first bytes are the same: `undefined` past the end only equals itself.
abbrev pub same_bytes : ℕ → List ℕ → List ℕ → Bool
same_bytes zero a b = true
same_bytes (suc n) [] [] = true
same_bytes (suc n) [] (y ∷ ys) = false
same_bytes (suc n) (x ∷ xs) [] = false
same_bytes (suc n) (x ∷ xs) (y ∷ ys) = x == y && same_bytes n xs ys

-- `(0xff << (8 - bits)) & 0xff`.
abbrev pub mask : ℕ → ℕ
mask bits = bit_and (255 * 2 ^ (8 - bits)) 255

unfoldable pub within_prefix : List ℕ → List ℕ → ℕ → Bool
within_prefix candidate network prefix =
    same_bytes (prefix / 8) candidate network
    && (prefix % 8 == 0
        || bit_and (byte_at candidate (prefix / 8)) (mask (prefix % 8))
          == bit_and (byte_at network (prefix / 8)) (mask (prefix % 8)))

abbrev pub Chars : Type 0
Chars = List ℕ

-- `string | string[] | undefined`.
pub data ForwardedHeader : Type 0 where
  absent : ForwardedHeader
  single : Chars → ForwardedHeader
  several : List Chars → ForwardedHeader

-- What `trim` takes for white space or the end of a line.
abbrev pub is_space : ℕ → Bool
is_space c =
    (leb 9 c && leb c 13)
    || (leb 8192 c && leb c 8202)
    || any (λ s. s == c) (32 ∷ 160 ∷ 5760 ∷ 8232 ∷ 8233 ∷ 8239 ∷ 8287 ∷ 12288 ∷ 65279 ∷ [])

abbrev pub trim_start : Chars → Chars
trim_start [] = []
trim_start (c ∷ cs) = if is_space c then trim_start cs else c ∷ cs

abbrev pub trim : Chars → Chars
trim cs = reverse (trim_start (reverse (trim_start cs)))

abbrev pub comma : ℕ
comma = 44

-- A character before the first of the parts.
abbrev push : ℕ → List Chars → List Chars
push c [] = (c ∷ []) ∷ []
push c (p ∷ ps) = (c ∷ p) ∷ ps

-- `split(',')` and `join(',')`.
abbrev pub split_commas : Chars → List Chars
split_commas [] = [] ∷ []
split_commas (c ∷ cs) = if c == comma then [] ∷ split_commas cs else push c (split_commas cs)

abbrev pub join_commas : List Chars → Chars
join_commas [] = []
join_commas (p ∷ []) = p
join_commas (p ∷ q ∷ ps) = p ++ (comma ∷ join_commas (q ∷ ps))

abbrev pub is_blank : Chars → Bool
is_blank [] = true
is_blank (c ∷ cs) = false

-- `raw`, where an absent header is like an empty one.
abbrev pub raw_header : ForwardedHeader → Chars
raw_header absent = []
raw_header (single raw) = raw
raw_header (several raws) = join_commas raws

-- The entries as the header lists them: split, trimmed, and without the empty ones.
unfoldable pub header_entries : ForwardedHeader → List Chars
header_entries header = keep (λ e. not (is_blank e)) (map trim (split_commas (raw_header header)))

-- `forwarded`, from the nearest hop to the farthest.
unfoldable pub forwarded_chain : ForwardedHeader → List Chars
forwarded_chain header = reverse (header_entries header)

pub record TrustedProxyInput : Type 0 where
  pub remote_address : Option Chars
  pub forwarded_for : ForwardedHeader
  pub trusted_hops : ℕ
  pub trusted_cidrs : List ParsedCidr

module _ (parse_client_ip : Chars → Option ParsedIp) where
  abbrev is_within : ParsedIp → ParsedCidr → Bool
  is_within parsed network =
      network.family == parsed.family && within_prefix parsed.bytes network.bytes network.prefix

  unfoldable pub matches_any_cidr : Chars → List ParsedCidr → Bool
  matches_any_cidr value networks = elim (parse_client_ip value) [
    | none ↦ false
    | some parsed ↦ any (is_within parsed) networks
  ]

  -- `chain[index]` of a chain that is never empty.
  abbrev pub hop : ℕ → Chars → List Chars → Chars
  hop zero address rest = address
  hop (suc n) address [] = address
  hop (suc n) address (next ∷ rest) = hop n next rest

  -- The `for` loop over the header.
  unfoldable pub walk : List ParsedCidr → Chars → List Chars → Chars
  walk cidrs address [] = address
  walk cidrs address (candidate ∷ rest) =
      let resolved = walk cidrs candidate rest in
      if not (matches_any_cidr address cidrs) then address else resolved

  abbrev no_networks : List ParsedCidr → Bool
  no_networks [] = true
  no_networks (c ∷ cs) = false

  -- From the address of the socket on.
  unfoldable pub resolve_chain : TrustedProxyInput → List Chars → Chars → Chars
  resolve_chain input forwarded remote =
      if any (λ value. is_none (parse_client_ip value)) forwarded
      then remote
      else if ltb 0 input.trusted_hops
      then hop (min input.trusted_hops (length forwarded)) remote forwarded
      else if no_networks input.trusted_cidrs
      then remote
      else walk input.trusted_cidrs remote forwarded

  unfoldable pub trusted_client_address : TrustedProxyInput → Option Chars
  trusted_client_address input = elim input.remote_address [
    | none ↦ none
    | some address ↦
        let remote = trim address in
        if is_blank remote || is_none (parse_client_ip remote)
        then none
        else some (resolve_chain input (forwarded_chain input.forwarded_for) remote)
  ]
