-- ===== src/RateLimit/Window.antt =====
-- Counting inside one window during a Redis outage (src/lib/rate-limit.ts).
use production_backend_found.Prelude.{
  ℕ, ◌+◌, ◌-◌, ◌<◌, ◌≡◌, refl, ◌≢◌, not, Bool, true, false, none, some, List, [], ◌∷◌, min, ltb,
  if◌then◌else◌, length, arith, All,
}
use production_backend_found.Errors.{Result, ok, err}
use production_backend_found.RateLimit.{
  LocalCounter, Entries, get, overwrite, count_up, increment, local, enforce_rate_limit,
}

get-overwrite_self :
    (key : ℕ) (v : LocalCounter) (m : Entries) (c : LocalCounter)
    → get key m ≡ some c
    → get key (overwrite key v m) ≡ some v
unfolding get overwrite
get-overwrite_self key v [] c h = ground arith
get-overwrite_self key v ((k, d) ∷ rest) c h = ground (arith, get-overwrite_self key v rest c)

get-overwrite_ne :
    (key other : ℕ) (v : LocalCounter) (m : Entries)
    → key ≢ other
    → get other (overwrite key v m) ≡ get other m
unfolding get overwrite
get-overwrite_ne key other v [] h = refl
get-overwrite_ne key other v ((k, d) ∷ rest) h = ground (arith, get-overwrite_ne key other v rest h)

-- A call for a key whose counter is live adds one to that counter, keeps the end of its window, and
-- leaves every other key's counter as it was.
pub increment_live :
    (max_keys key window now : ℕ) (m : Entries) (c : LocalCounter)
    → get key m ≡ some c
    → now < c.reset_at
    → let (v, m') = increment max_keys key window now m in
      (v.count ≡ c.count + 1)
      × (get key m' ≡ some (record c { count = c.count + 1 }))
      × ((other : ℕ) → key ≢ other → get other m' ≡ get other m)
unfolding increment count_up
increment_live max_keys key window now m c h live =
    let old = get-overwrite_self key (record c { count = c.count + 1 }) m c h in
    rw (h, increment)
      (
        ground arith,
        ground (arith, old),
        λ other ne.
            ground (arith, get-overwrite_ne key other (record c { count = c.count + 1 }) m ne),
      )

abbrev pub is_ok {ℓ} : {A : Type ℓ} → Result A → Bool
is_ok (ok _) = true
is_ok (err _) = false

-- How many calls, made at these times while Redis is down, are let through.
pub admitted : ℕ → ℕ → ℕ → ℕ → List ℕ → Entries → ℕ
admitted max_keys key limit window [] m = 0
admitted max_keys key limit window (now ∷ times) m =
    let (r, m') = enforce_rate_limit max_keys none local key limit window now m in
    (if is_ok r then 1 else 0) + admitted max_keys key limit window times m'

enforce_rate_limit_local :
    (max_keys key limit window now : ℕ) (m : Entries)
    → let (v, m') = increment max_keys key window now m in
      (is_ok (enforce_rate_limit max_keys none local key limit window now m).0
        ≡ not (ltb limit v.count))
      × ((enforce_rate_limit max_keys none local key limit window now m).1 ≡ m')
unfolding enforce_rate_limit
enforce_rate_limit_local max_keys key limit window now m = (ground arith, refl)

-- While Redis is down and the counter of this process decides: if the counter of a key is there, then
-- of calls for that key at times before its window ends, with no call for another key and no answer
-- of Redis in between, as many pass as the limit has left, or all of them if they are fewer.
pub admitted_in_window :
    (max_keys key limit window : ℕ) (times : List ℕ) (m : Entries) (c : LocalCounter)
    → get key m ≡ some c
    → All (λ now. now < c.reset_at) times
    → admitted max_keys key limit window times m ≡ min (length times) (limit - c.count)
unfolding admitted
admitted_in_window max_keys key limit window [] m c h in_time = omega arith
admitted_in_window max_keys key limit window (now ∷ times) m c h (first, rest) =
    let (counted, kept, others) = increment_live max_keys key window now m c h first in
    let later =
      admitted_in_window max_keys key limit window times (increment max_keys key window now m).1
        (record c { count = c.count + 1 }) kept rest in
    let (passes, state) = enforce_rate_limit_local max_keys key limit window now m in
    rw (state, passes) (ground (arith, counted, later))
