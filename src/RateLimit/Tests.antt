-- ===== src/RateLimit/Tests.antt =====
-- The rate limiter on concrete counters (src/lib/rate-limit.ts).
use production_backend_found.Prelude.{◌≡◌, refl, [], ◌∷◌, arith}
use production_backend_found.RateLimit.{
  LocalCounter, Entries, RateLimitResult, get, increment, start_window,
}
use production_backend_found.RateLimit.Window.{admitted, admitted_in_window}

abbrev counter : LocalCounter
counter = record { count = 2; reset_at = 61000 }

abbrev busy : Entries
busy = (7, counter) ∷ (8, record { count = 1; reset_at = 500 }) ∷ []

evicts_oldest :
    (increment 2 9 60 600 busy).1 ≡ (7, counter) ∷ (9, record { count = 1; reset_at = 60600 }) ∷ []
unfolding increment start_window get
evicts_oldest = refl

abbrev passed : RateLimitResult
passed = record { count = 3; limit = 3; retry_after_seconds = 60 }

admitted_in_window_example : admitted 2 7 4 60 (1000 ∷ 2000 ∷ 3000 ∷ []) busy ≡ 2
admitted_in_window_example =
    admitted_in_window 2 7 4 60 (1000 ∷ 2000 ∷ 3000 ∷ []) busy counter (unfold get in refl)
      (omega arith)
