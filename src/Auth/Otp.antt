-- ===== src/Auth/Otp.antt =====
-- `recordInvalidOtpAttempt` and `verifyOtp` of src/modules/auth/auth.otp.service.ts, and
-- src/modules/auth/auth.policy.ts. Destinations are numbers that are only compared; `verify_secret` is
-- the check of a code against its hash. The log-in that follows is Sessions.create_session.
pub mod Guesses
use production_backend_found.Prelude.{
  ℕ, ◌+◌, ◌≡◌, refl, inl, inr, Bool, true, false, not, ◌&&◌, ◌||◌, Option, none, some, List, [],
  ◌∷◌, ◌==◌, ltb, leb, is_none, is_some, is_at, keep, update_where, all, arith, tally,
  tally-update_where_none, Option-cases, Bool-cases, if◌then◌else◌,
}
use production_backend_found.Errors.{Result, ok, err, plain_error}
use production_backend_found.Store.{Prisma}
use production_backend_found.Auth.Sessions.{UserStatus, pending, active, suspended, disabled}

pub data OtpPurpose : Type 0 where
  login verify_email verify_phone : OtpPurpose

pub data VerificationTransition : Type 0 where
  activate verify_only blocked : VerificationTransition

-- `sendOtp` asks for a user of this status; `PASSWORD_RESET` has a path of its own.
abbrev pub required_otp_user_status : OtpPurpose → UserStatus
required_otp_user_status login = active
required_otp_user_status _ = pending

abbrev pub verification_transition : UserStatus → VerificationTransition
verification_transition pending = activate
verification_transition active = verify_only
verification_transition _ = blocked

pub record OtpChallenge : Type 0 where
  pub id : ℕ
  pub user_id : Option ℕ
  pub destination : ℕ
  pub channel : ℕ
  pub purpose : OtpPurpose
  pub code_hash : ℕ
  pub attempts : ℕ
  pub max_attempts : ℕ
  pub expires_at : ℕ
  pub created_at : ℕ
  pub consumed_at : Option ℕ
  pub verified_at : Option ℕ
  pub locked_at : Option ℕ
  pub deleted_at : Option ℕ

pub record OtpUser : Type 0 where
  pub id : ℕ
  pub status : UserStatus
  pub phone : Option ℕ
  pub email_verified_at : Option ℕ
  pub phone_verified_at : Option ℕ
  pub deleted_at : Option ℕ

pub record OtpTables (db : Prisma) : Type 0 where
  pub challenges : db.Table OtpChallenge
  pub users : db.Table OtpUser

abbrev pub is_guessable : ℕ → ℕ → OtpChallenge → Bool
is_guessable id now c =
    c.id == id
    && ltb c.attempts c.max_attempts
    && is_none c.consumed_at
    && is_none c.verified_at
    && is_none c.locked_at
    && is_none c.deleted_at
    && ltb now c.expires_at

abbrev pub count_guess : ℕ → OtpChallenge → OtpChallenge
count_guess now c = record c {
  attempts = c.attempts + 1;
  locked_at = if leb c.max_attempts (c.attempts + 1) then some now else c.locked_at;
}

abbrev pub is_same_purpose : OtpPurpose → OtpPurpose → Bool
is_same_purpose login login = true
is_same_purpose verify_email verify_email = true
is_same_purpose verify_phone verify_phone = true
is_same_purpose _ _ = false

abbrev pub is_open_challenge : ℕ → ℕ → OtpPurpose → OtpChallenge → Bool
is_open_challenge destination channel purpose c =
    c.destination == destination
    && c.channel == channel
    && is_same_purpose c.purpose purpose
    && is_none c.consumed_at
    && is_none c.locked_at
    && is_none c.deleted_at

-- `orderBy: { createdAt: 'desc' }`, the first row.
abbrev pub latest : List OtpChallenge → Option OtpChallenge
latest [] = none
latest (c ∷ cs) = elim (latest cs) [
  | none ↦ some c
  | some d ↦ if leb d.created_at c.created_at then some c else some d
]

abbrev pub is_consumable : ℕ → OtpChallenge → Bool
is_consumable id c =
    c.id == id && is_none c.consumed_at && is_none c.locked_at && is_none c.deleted_at

abbrev pub is_same_status : UserStatus → UserStatus → Bool
is_same_status pending pending = true
is_same_status active active = true
is_same_status suspended suspended = true
is_same_status disabled disabled = true
is_same_status _ _ = false

abbrev pub mark_verified : ℕ → OtpPurpose → ℕ → OtpUser → OtpUser
mark_verified now verify_email destination u = record u { email_verified_at = some now }
mark_verified now _ destination u = record u {
  phone = some destination;
  phone_verified_at = some now;
}

abbrev pub activate_user : VerificationTransition → OtpUser → OtpUser
activate_user activate u = record u { status = active }
activate_user _ u = u

pub data OtpAnswer : Type 0 where
  refused verified : OtpAnswer
  logs_in : ℕ → OtpAnswer

module _ (db : Prisma) where
  unfoldable pub record_invalid_otp_attempt : ℕ → ℕ → OtpTables db → OtpTables db
  record_invalid_otp_attempt id now s = record s {
    challenges = db.execute_raw (update_where (is_guessable id now) (count_guess now)) s.challenges;
  }

  -- What the transaction does to the users, and whether it is `allowed`.
  unfoldable pub apply_verification :
      ℕ → OtpPurpose → OtpChallenge → ℕ → db.Table OtpUser → Bool × db.Table OtpUser
  apply_verification now login c user_id t = (
    is_some (
        db.find_first
          (λ u. u.id == user_id && is_same_status u.status active && is_none u.deleted_at) t),
    t,
  )
  apply_verification now purpose c user_id t =
      elim (db.find_first (λ u. u.id == user_id && is_none u.deleted_at) t) [
        | none ↦ (false, t)
        | some user ↦ elim (verification_transition user.status) [
          | blocked ↦ (false, t)
          | transition ↦
              let updated =
                db.update_many
                  (λ u.
                    u.id == user_id && is_same_status u.status user.status && is_none u.deleted_at)
                  (λ u. activate_user transition (mark_verified now purpose c.destination u)) t in
              (updated.1 == 1, updated.0)
        ]
      ]

  abbrev pub otp_answer : OtpPurpose → ℕ → Bool → OtpAnswer
  otp_answer purpose user_id false = refused
  otp_answer login user_id true = logs_in user_id
  otp_answer _ user_id true = verified

  -- The transaction, for the user of the challenge; a challenge that is consumed already makes it throw, and changes nothing.
  unfoldable pub consume_challenge :
      ℕ → OtpPurpose → OtpChallenge → ℕ → OtpTables db → Result OtpAnswer × OtpTables db
  consume_challenge now purpose c user_id s =
      let consumed =
        db.update_many (is_consumable c.id) (λ x. record x { consumed_at = some now })
          s.challenges in
      let (allowed, users) = apply_verification now purpose c user_id s.users in
      if consumed.1 == 1
      then (
        ok (otp_answer purpose user_id allowed),
        record { challenges = consumed.0; users = users },
      )
      else (err plain_error, s)

  -- `include: { user: true }`: the user that the challenge belongs to, deleted or not.
  abbrev pub is_user_of : OtpChallenge → OtpUser → Bool
  is_user_of c u = is_at c.user_id u.id

  -- `meanwhile` is what others do between the read of the challenge and the next write.
  unfoldable pub verify_otp :
      (ℕ → ℕ → Bool)
      → ℕ
      → ℕ
      → ℕ
      → OtpPurpose
      → ℕ
      → (OtpTables db → OtpTables db)
      → OtpTables db
      → Result OtpAnswer × OtpTables db
  verify_otp verify_secret now destination channel purpose code meanwhile s =
      elim (latest (keep (is_open_challenge destination channel purpose) (db.rows s.challenges))) [
        | none ↦ (ok refused, s)
        | some c ↦ elim (db.find_first (is_user_of c) s.users) [
          | none ↦ (ok refused, s)
          | some user ↦
              if leb c.expires_at now
              then (ok refused, s)
              else if not (verify_secret c.code_hash code)
              then (ok refused, record_invalid_otp_attempt c.id now (meanwhile s))
              else consume_challenge now purpose c user.id (meanwhile s)
        ]
      ]

module _ (db : Prisma) where
  -- A code is used once: after a challenge was consumed, consuming it again throws and changes
  -- nothing, whatever the purpose, the user and the time.
  pub consume_challenge_once :
      (now later user_id other_user_id : ℕ) (purpose other_purpose : OtpPurpose) (c : OtpChallenge)
      (s s' : OtpTables db) (answer : OtpAnswer)
      → consume_challenge db now purpose c user_id s ≡ (ok answer, s')
      → consume_challenge db later other_purpose c other_user_id s' ≡ (err plain_error, s')
  unfolding consume_challenge
  consume_challenge_once now later user_id other_user_id purpose other_purpose c s s' answer h =
      let p = is_consumable c.id in
      let f = λ (x : OtpChallenge). record x { consumed_at = some now } in
      let consumed = db.update_many p f s.challenges in
      elim (Bool-cases (consumed.1 == 1)) [
        | inr lost ↦ absurd (ground (arith, lost, h))
        | inl won ↦
            let table : consumed.0 ≡ s'.challenges = ground (arith, won, h) in
            let spent : tally p (db.rows s'.challenges) ≡ 0 =
              rw (← table, db.rows_update_many p f s.challenges)
                (tally-update_where_none p f (db.rows s.challenges) (λ x. ground arith)) in
            ground (
              arith,
              spent,
              db.count_update_many p (λ x. record x { consumed_at = some later }) s'.challenges,
            )
      ]
