-- ===== src/RateLimit.antt =====
-- src/lib/rate-limit.ts. The counters of `BoundedRateLimitFallback` are a JavaScript `Map`: a list
-- in insertion order. Keys are only compared; `now` is in milliseconds. Logs, metrics and alerts are
-- left out. Redis is a parameter: its answer, or nothing when the call fails.
pub mod Bounds
pub mod Window
mod Tests
use production_backend_found.Prelude.{
  ℕ, ◌+◌, ◌-◌, ◌*◌, ◌/◌, Bool, true, false, not, Option, none, some, List, [], ◌∷◌, ◌++◌, max, ltb,
  leb, ◌==◌, if◌then◌else◌, length, keep,
}
use production_backend_found.Errors.{Result, ok, err, rate_limited_error, service_unavailable_error}

pub record LocalCounter : Type 0 where
  pub count : ℕ
  pub reset_at : ℕ

abbrev pub Entries : Type 0
Entries = List (ℕ × LocalCounter)

pub record Verdict : Type 0 where
  pub count : ℕ
  pub retry_after_seconds : ℕ

-- `Map.prototype.get`, `delete`, and an update in place of a value.
unfoldable pub get : ℕ → Entries → Option LocalCounter
get key [] = none
get key ((k, c) ∷ rest) = if k == key then some c else get key rest

unfoldable pub delete : ℕ → Entries → Entries
delete key [] = []
delete key ((k, c) ∷ rest) = if k == key then delete key rest else (k, c) ∷ delete key rest

unfoldable pub overwrite : ℕ → LocalCounter → Entries → Entries
overwrite key v [] = []
overwrite key v ((k, c) ∷ rest) =
    if k == key then (k, v) ∷ overwrite key v rest else (k, c) ∷ overwrite key v rest

-- `#removeExpired`.
unfoldable pub remove_expired : ℕ → Entries → Entries
remove_expired now [] = []
remove_expired now ((k, c) ∷ rest) =
    if leb c.reset_at now then remove_expired now rest else (k, c) ∷ remove_expired now rest

-- The `while` loop: the oldest entries go until there is room for one more.
unfoldable pub evict : ℕ → Entries → Entries
evict max_keys [] = []
evict max_keys (x ∷ rest) =
    let fewer = evict max_keys rest in if leb max_keys (length (x ∷ rest)) then fewer else x ∷ rest

-- `Math.ceil(ms / 1_000)`.
abbrev pub ceil_seconds : ℕ → ℕ
ceil_seconds ms = (ms + 999) / 1000

-- A window that starts now: the branch of `increment` for a key with no live counter.
unfoldable pub start_window : ℕ → ℕ → ℕ → ℕ → Entries → Verdict × Entries
unfolding delete remove_expired evict
start_window max_keys key window_seconds now m = (
  record { count = 1; retry_after_seconds = window_seconds },
  evict max_keys (remove_expired now (delete key m))
      ++ (key, record { count = 1; reset_at = now + window_seconds * 1000 }) ∷ [],
)

unfoldable pub count_up : ℕ → ℕ → LocalCounter → Entries → Verdict × Entries
unfolding overwrite
count_up key now c m = (
  record { count = c.count + 1; retry_after_seconds = max 1 (ceil_seconds (c.reset_at - now)) },
  overwrite key (record c { count = c.count + 1 }) m,
)

unfoldable pub increment : ℕ → ℕ → ℕ → ℕ → Entries → Verdict × Entries
increment max_keys key window_seconds now m = elim (get key m) [
  | none ↦ start_window max_keys key window_seconds now m
  | some c ↦
      if ltb now c.reset_at
      then count_up key now c m
      else start_window max_keys key window_seconds now m
]

pub data FailureMode : Type 0 where
  local deny : FailureMode

pub record RateLimitResult : Type 0 where
  pub count : ℕ
  pub limit : ℕ
  pub retry_after_seconds : ℕ

abbrev pub judge : ℕ → Verdict → Result RateLimitResult
judge limit v =
    if ltb limit v.count
    then err (rate_limited_error v.retry_after_seconds)
    else ok (record { count = v.count; limit = limit; retry_after_seconds = v.retry_after_seconds })

-- The counter of Redis; a negative TTL is 0 here, and both are replaced by the window.
abbrev pub redis_verdict : ℕ → ℕ × ℕ → Verdict
redis_verdict window_seconds (count, ttl) = record {
  count = count;
  retry_after_seconds = if ltb 0 ttl then ttl else window_seconds;
}

unfoldable pub enforce_rate_limit :
    ℕ → Option (ℕ × ℕ) → FailureMode → ℕ → ℕ → ℕ → ℕ → Entries → Result RateLimitResult × Entries
enforce_rate_limit max_keys (some answer) mode key limit window_seconds now m =
    (judge limit (redis_verdict window_seconds answer), delete key m)
enforce_rate_limit max_keys none deny key limit window_seconds now m =
    (err service_unavailable_error, m)
enforce_rate_limit max_keys none local key limit window_seconds now m =
    let (v, m') = increment max_keys key window_seconds now m in (judge limit v, m')
