-- ===== src/ClientIp/Tests.antt =====
-- A proxy in 10.0.0.0/8 before a client that forges an entry of the header.
use production_backend_found.Prelude.{
  ℕ, ◌≡◌, refl, true, false, Option, none, some, [], ◌∷◌, ◌++◌, if◌then◌else◌,
}
use production_backend_found.ClientIp.{
  Chars, ParsedIp, ParsedCidr, TrustedProxyInput, single, same_bytes, within_prefix,
  matches_any_cidr, walk, header_entries, forwarded_chain, resolve_chain, trusted_client_address,
}
use production_backend_found.ClientIp.Chain.{IsVouched, trusted_client_address-IsVouched}

abbrev v4 : ℕ → ℕ → ParsedIp
v4 a d = record { family = 4; bytes = a ∷ 0 ∷ 0 ∷ d ∷ [] }

-- "10.0.0.1", "8.0.0.9" and "7.0.0.7".
abbrev proxy : Chars
proxy = 49 ∷ 48 ∷ 46 ∷ 48 ∷ 46 ∷ 48 ∷ 46 ∷ 49 ∷ []

abbrev client : Chars
client = 56 ∷ 46 ∷ 48 ∷ 46 ∷ 48 ∷ 46 ∷ 57 ∷ []

abbrev forged : Chars
forged = 55 ∷ 46 ∷ 48 ∷ 46 ∷ 48 ∷ 46 ∷ 55 ∷ []

abbrev parse : Chars → Option ParsedIp
parse text =
    if same_bytes 9 text proxy
    then some (v4 10 1)
    else if same_bytes 9 text client
    then some (v4 8 9)
    else if same_bytes 9 text forged
    then some (v4 7 7)
    else none

abbrev private_network : ParsedCidr
private_network = record { family = 4; bytes = 10 ∷ 0 ∷ 0 ∷ 0 ∷ []; prefix = 8 }

abbrev input : TrustedProxyInput
input = record {
  remote_address = some proxy;
  forwarded_for = single (forged ++ (44 ∷ 32 ∷ client));
  trusted_hops = 0;
  trusted_cidrs = private_network ∷ [];
}

-- 172.16.0.0/12 has 172.31.0.0 and not 172.32.0.0.
within_run : within_prefix (172 ∷ 31 ∷ 0 ∷ 0 ∷ []) (172 ∷ 16 ∷ 0 ∷ 0 ∷ []) 12 ≡ true
unfolding within_prefix
within_run = refl

beyond_run : within_prefix (172 ∷ 32 ∷ 0 ∷ 0 ∷ []) (172 ∷ 16 ∷ 0 ∷ 0 ∷ []) 12 ≡ false
unfolding within_prefix
beyond_run = refl

-- The header "7.0.0.7, 8.0.0.9": the entry that the proxy wrote is the last one.
entries_run : header_entries (single (forged ++ (44 ∷ 32 ∷ client))) ≡ forged ∷ client ∷ []
unfolding header_entries
entries_run = refl

resolves : trusted_client_address parse input ≡ some client
unfolding trusted_client_address resolve_chain walk matches_any_cidr within_prefix forwarded_chain
    header_entries
resolves = refl

trusted_client_address-IsVouched_example :
    IsVouched parse (private_network ∷ []) (single (forged ++ (44 ∷ 32 ∷ client))) proxy client
trusted_client_address-IsVouched_example =
    trusted_client_address-IsVouched parse input proxy client refl refl resolves
