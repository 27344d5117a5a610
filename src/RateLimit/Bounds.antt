-- ===== src/RateLimit/Bounds.antt =====
-- The fallback never holds more than `maxKeys` counters (src/lib/rate-limit.ts).
use production_backend_found.Prelude.{
  ℕ, ◌+◌, ◌≤◌, ◌<◌, ◌≡◌, refl, Option, none, some, [], ◌∷◌, ◌++◌, length, arith, Option-cases, inl,
  inr,
}
use production_backend_found.Errors.{ok}
use production_backend_found.RateLimit.{
  LocalCounter, Entries, get, delete, overwrite, evict, start_window, count_up, increment,
  FailureMode, local, deny, enforce_rate_limit, RateLimitResult,
}

length-delete-le : (key : ℕ) (m : Entries) → length (delete key m) ≤ length m
unfolding delete
length-delete-le key [] = omega arith
length-delete-le key ((k, c) ∷ rest) = ground (arith, length-delete-le key rest)

length-overwrite :
    (key : ℕ) (v : LocalCounter) (m : Entries) → length (overwrite key v m) ≡ length m
unfolding overwrite
length-overwrite key v [] = refl
length-overwrite key v ((k, c) ∷ rest) = ground (arith, length-overwrite key v rest)

length-evict-lt : (max_keys : ℕ) (m : Entries) → 0 < max_keys → length (evict max_keys m) < max_keys
unfolding evict
length-evict-lt max_keys [] h = h
length-evict-lt max_keys (x ∷ rest) h = ground (arith, length-evict-lt max_keys rest)

length-append_one : (m : Entries) (e : ℕ × LocalCounter) → length (m ++ e ∷ []) ≡ length m + 1
length-append_one [] e = refl
length-append_one (x ∷ m) e = omega (arith, length-append_one m e)

length-start_window-le :
    (max_keys key window now : ℕ) (m : Entries)
    → 0 < max_keys
    → length (start_window max_keys key window now m).1 ≤ max_keys
unfolding start_window
length-start_window-le max_keys key window now m h =
    omega (arith, length-append_one, length-evict-lt)

pub length-increment-le :
    (max_keys key window now : ℕ) (m : Entries)
    → 0 < max_keys
    → length m ≤ max_keys
    → length (increment max_keys key window now m).1 ≤ max_keys
unfolding increment count_up
length-increment-le max_keys key window now m h b = elim (Option-cases (get key m)) [
  | inl new ↦ rw (new, increment) (length-start_window-le max_keys key window now m h)
  | inr (c, old) ↦
      rw (old, increment)
        (ground (
          arith,
          length-start_window-le max_keys key window now m h,
          length-overwrite key (record c { count = c.count + 1 }) m,
        ))
]

-- Every call keeps the number of local counters at most `maxKeys`, for any answer of Redis, mode,
-- key, limit, window and time.
pub length-enforce_rate_limit-le :
    (max_keys : ℕ) (redis : Option (ℕ × ℕ)) (mode : FailureMode) (key limit window now : ℕ)
    (m : Entries)
    → 0 < max_keys
    → length m ≤ max_keys
    → length (enforce_rate_limit max_keys redis mode key limit window now m).1 ≤ max_keys
unfolding enforce_rate_limit
length-enforce_rate_limit-le max_keys (some answer) mode key limit window now m h b =
    omega (arith, length-delete-le key m)
length-enforce_rate_limit-le max_keys none deny key limit window now m h b = b
length-enforce_rate_limit-le max_keys none local key limit window now m h b =
    length-increment-le max_keys key window now m h b

-- A request is let through only with a count within the limit.
pub enforce_rate_limit-ok-le :
    (max_keys : ℕ) (redis : Option (ℕ × ℕ)) (mode : FailureMode) (key limit window now : ℕ)
    (m : Entries) (r : RateLimitResult)
    → (enforce_rate_limit max_keys redis mode key limit window now m).0 ≡ ok r
    → (r.count ≤ limit) × (r.limit ≡ limit)
unfolding enforce_rate_limit
enforce_rate_limit-ok-le max_keys (some answer) mode key limit window now m r h = ground arith
enforce_rate_limit-ok-le max_keys none deny key limit window now m r h = ground arith
enforce_rate_limit-ok-le max_keys none local key limit window now m r h = ground arith
