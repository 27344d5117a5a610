-- ===== src/Auth/Otp/Guesses.antt =====
-- How often a code is guessed at (src/modules/auth/auth.otp.service.ts).
use mathlib.Core.List.{Memᴰ}
use production_backend_found.Prelude.{
  ℕ, ◌+◌, ◌-◌, ◌≤◌, ◌≡◌, refl, inl, inr, Bool, true, false, not, ◌&&◌, ◌||◌, none, some, List, [],
  ◌∷◌, ltb, leb, is_none, is_some, keep, update_where, all, all-Memᴰ, total, total-update_where-le,
  arith, Option-cases, Bool-cases, if◌then◌else◌,
}
use production_backend_found.Store.{Prisma}
use production_backend_found.Auth.Otp.{
  OtpPurpose, OtpChallenge, OtpTables, is_guessable, count_guess, is_open_challenge, latest,
  is_consumable, record_invalid_otp_attempt, consume_challenge, is_user_of, verify_otp,
}

-- A challenge of this file's purposes: nothing marks it as verified, its guesses are within their
-- bound, and at the bound it is locked.
abbrev pub is_sound : OtpChallenge → Bool
is_sound c =
    is_none c.verified_at
    && leb c.attempts c.max_attempts
    && (ltb c.attempts c.max_attempts || is_some c.locked_at)

-- The guesses that a challenge has left.
abbrev pub guesses_left : OtpChallenge → ℕ
guesses_left c = c.max_attempts - c.attempts

all-updated :
    (q p : OtpChallenge → Bool) (f : OtpChallenge → OtpChallenge) (cs : List OtpChallenge)
    → all q cs ≡ true
    → ((c : OtpChallenge) → p c ≡ true → q c ≡ true → q (f c) ≡ true)
    → all q (update_where p f cs) ≡ true
all-updated q p f [] h k = refl
all-updated q p f (c ∷ cs) h k = ground (arith, k c, all-updated q p f cs)

latest-Memᴰ : (cs : List OtpChallenge) (c : OtpChallenge) → latest cs ≡ some c → Memᴰ c cs
latest-Memᴰ [] c h = absurd (ground (arith, h))
latest-Memᴰ (x ∷ xs) c h = elim (Option-cases (latest xs)) [
  | inl none_later ↦ Memᴰ.head (ground (arith, none_later, h))
  | inr (d, found) ↦ elim (Bool-cases (leb d.created_at x.created_at)) [
    | inl newer ↦ Memᴰ.head (ground (arith, found, newer, h))
    | inr older ↦ Memᴰ.tail (latest-Memᴰ xs c (ground (arith, found, older, h)))
  ]
]

Memᴰ_of_keep :
    (q : OtpChallenge → Bool) (cs : List OtpChallenge) (c : OtpChallenge)
    → Memᴰ c (keep q cs)
    → Memᴰ c cs × (q c ≡ true)
Memᴰ_of_keep q [] c m = elim m [ ]
Memᴰ_of_keep q (x ∷ xs) c m =
    let rest : Memᴰ c (keep q xs) → Memᴰ c xs × (q c ≡ true) = λ m'. Memᴰ_of_keep q xs c m' in
    elim (Bool-cases (q x)) [
      | inr out ↦ let (m', k) = rest (rw out at m) in (Memᴰ.tail m', k)
      | inl kept ↦ from_head rest kept (rw kept at m)
    ]
  where
    from_head :
        (Memᴰ c (keep q xs) → Memᴰ c xs × (q c ≡ true))
        → q x ≡ true
        → Memᴰ c (x ∷ keep q xs)
        → Memᴰ c (x ∷ xs) × (q c ≡ true)
    from_head rest kept (Memᴰ.head e) = (Memᴰ.head e, rw e kept)
    from_head rest kept (Memᴰ.tail m') = let (m'', k) = rest m' in (Memᴰ.tail m'', k)

module _ (destination channel : ℕ) (purpose : OtpPurpose) where
  abbrev is_open : OtpChallenge → Bool
  is_open = is_open_challenge destination channel purpose

  total-count_guess-le :
      (id now : ℕ) (cs : List OtpChallenge)
      → total is_open guesses_left (update_where (is_guessable id now) (count_guess now) cs)
        ≤ total is_open guesses_left cs
  total-count_guess-le id now [] = omega arith
  total-count_guess-le id now (c ∷ cs) = ground (arith, total-count_guess-le id now cs)

  -- A wrong guess at a challenge is counted.
  total-count_guess :
      (now : ℕ) (c : OtpChallenge) (cs : List OtpChallenge)
      → Memᴰ c cs
      → is_open c ≡ true
      → is_sound c ≡ true
      → leb c.expires_at now ≡ false
      → total is_open guesses_left (update_where (is_guessable c.id now) (count_guess now) cs) + 1
        ≤ total is_open guesses_left cs
  total-count_guess now c [] m opens sound early = elim m [ ]
  total-count_guess now c (x ∷ xs) (Memᴰ.head e) opens sound early =
      rw (← e) (ground (arith, opens, sound, early, total-count_guess-le c.id now xs))
  total-count_guess now c (x ∷ xs) (Memᴰ.tail m) opens sound early =
      ground (arith, total-count_guess now c xs m opens sound early)

-- A call of `verifyOtp`: the code and the time.
pub record Guess : Type 0 where
  pub at : ℕ
  pub code : ℕ

module _ (db : Prisma) (verify_secret : ℕ → ℕ → Bool) (destination channel : ℕ)
    (purpose : OtpPurpose) where
  abbrev IsSound : OtpTables db → Type 0
  IsSound s = all is_sound (db.rows s.challenges) ≡ true

  abbrev left_in : OtpTables db → ℕ
  left_in s = total (is_open destination channel purpose) guesses_left (db.rows s.challenges)

  abbrev after : Guess → OtpTables db → OtpTables db
  after g s = (verify_otp db verify_secret g.at destination channel purpose g.code (λ x. x) s).1

  -- The code is compared with the hash of a challenge, and it is another one.
  abbrev pub is_wrong_guess : Guess → OtpTables db → Bool
  is_wrong_guess g s =
      elim (latest (keep (is_open_challenge destination channel purpose) (db.rows s.challenges))) [
        | none ↦ false
        | some c ↦
            is_some (db.find_first (is_user_of db c) s.users)
            && not (leb c.expires_at g.at)
            && not (verify_secret c.code_hash g.code)
      ]

  -- How many of the calls, made one after the other, compare a wrong code.
  pub wrong_guesses : List Guess → OtpTables db → ℕ
  wrong_guesses [] s = 0
  wrong_guesses (g ∷ gs) s = (if is_wrong_guess g s then 1 else 0) + wrong_guesses gs (after g s)

  record_invalid-IsSound :
      (id now : ℕ) (s : OtpTables db) → IsSound s → IsSound (record_invalid_otp_attempt db id now s)
  unfolding record_invalid_otp_attempt
  record_invalid-IsSound id now s h =
      rw (db.rows_execute_raw (update_where (is_guessable id now) (count_guess now)) s.challenges) (
        all-updated is_sound (is_guessable id now) (count_guess now) (db.rows s.challenges) h
          (λ c k w. ground (arith, k, w)))

  record_invalid-left :
      (now : ℕ) (c : OtpChallenge) (s : OtpTables db)
      → IsSound s
      → latest (keep (is_open_challenge destination channel purpose) (db.rows s.challenges))
        ≡ some c
      → leb c.expires_at now ≡ false
      → left_in (record_invalid_otp_attempt db c.id now s) + 1 ≤ left_in s
  unfolding record_invalid_otp_attempt
  record_invalid-left now c s h found early =
      let (listed, opens) =
        Memᴰ_of_keep (is_open_challenge destination channel purpose) (db.rows s.challenges) c
          (latest-Memᴰ _ c found) in
      rw (db.rows_execute_raw (update_where (is_guessable c.id now) (count_guess now)) s.challenges)
        (total-count_guess destination channel purpose now c (db.rows s.challenges) listed opens
          (all-Memᴰ is_sound h listed) early)

  module _ (now user_id : ℕ) (c : OtpChallenge) (s : OtpTables db) where
    abbrev mark : OtpChallenge → OtpChallenge
    mark x = record x { consumed_at = some now }

    consume_challenge-IsSound : IsSound s → IsSound (consume_challenge db now purpose c user_id s).1
    unfolding consume_challenge
    consume_challenge-IsSound h =
        let written =
          all-updated is_sound (is_consumable c.id) mark (db.rows s.challenges) h (λ x k w. w) in
        ground (arith, h, written, db.rows_update_many (is_consumable c.id) mark s.challenges)

    consume_challenge-left : left_in (consume_challenge db now purpose c user_id s).1 ≤ left_in s
    unfolding consume_challenge
    consume_challenge-left =
        let fewer =
          total-update_where-le (is_open destination channel purpose) guesses_left
            (is_consumable c.id) mark (λ x. refl) (λ x. ground arith) (db.rows s.challenges) in
        ground (arith, fewer, db.rows_update_many (is_consumable c.id) mark s.challenges)

  -- One call: what is sound stays so, and a wrong guess costs one of the guesses left.
  verify_otp-left :
      (g : Guess) (s : OtpTables db)
      → IsSound s
      → IsSound (after g s)
        × ((if is_wrong_guess g s then 1 else 0) + left_in (after g s) ≤ left_in s)
  unfolding verify_otp
  verify_otp-left g s h =
      elim (Option-cases
        (latest (keep (is_open_challenge destination channel purpose) (db.rows s.challenges)))) [
          | inl absent ↦ (ground (arith, absent, h), ground (arith, absent))
          | inr (c, found) ↦ elim (Option-cases (db.find_first (is_user_of db c) s.users)) [
            | inl nobody ↦ (ground (arith, found, nobody, h), ground (arith, found, nobody))
            | inr (user, known) ↦
                let consumed = consume_challenge-left g.at user.id c s in
                let kept = consume_challenge-IsSound g.at user.id c s h in
                let counted = record_invalid-left g.at c s h found in
                (
                  ground (arith, found, known, h, kept, record_invalid-IsSound c.id g.at s h),
                  ground (arith, found, known, consumed, counted),
                )
          ]
        ]

  -- A code cannot be guessed at at will: of calls made one after the other for one destination,
  -- channel and purpose, with whatever codes and times, at most as many compare a wrong code with
  -- the hash of a challenge as the open challenges have guesses left, if before the calls no
  -- challenge is marked as verified, none has more guesses than it allows, and those that have as
  -- many are locked.
  pub verify_otp-wrong_guesses :
      (gs : List Guess) (s : OtpTables db)
      → all is_sound (db.rows s.challenges) ≡ true
      → wrong_guesses gs s
        ≤ total (is_open_challenge destination channel purpose) guesses_left (db.rows s.challenges)
  unfolding wrong_guesses
  verify_otp-wrong_guesses [] s h = omega arith
  verify_otp-wrong_guesses (g ∷ gs) s h =
      let (sound, fewer) = verify_otp-left g s h in
      omega (arith, fewer, verify_otp-wrong_guesses gs (after g s) sound)
