-- ===== src/Outbox/History.antt =====
-- What any sequence of the writes of Action does to one event, whoever makes them.
use production_backend_found.Prelude.{
  ◌≤◌, ◌<◌, ◌≡◌, refl, ◌⊎◌, inl, inr, true, List, [], ◌∷◌, arith, is_none, is_some,
}
use production_backend_found.Outbox.Event.{
  OutboxEvent, delivered, dead_letter, claimed, processing, retry, to_dead_letter,
}
use production_backend_found.Outbox.Action.{Action, act, run}

act-delivered : (a : Action) (e : OutboxEvent) → e.status ≡ delivered → act a e ≡ e
unfolding act
act-delivered (Action.claims now token) e h = ground arith
act-delivered a e h = ground arith

-- A delivered event is never written again: no sequence of claims, deliveries, failures, expiries
-- and redrives changes any of its fields.
pub run-delivered :
    (history : List Action) (e : OutboxEvent) → e.status ≡ delivered → run history e ≡ e
unfolding run
run-delivered [] e h = refl
run-delivered (a ∷ rest) e h = rw (act-delivered a e h) (run-delivered rest e h)

act-generation-le :
    (a : Action) (e : OutboxEvent) → e.delivery_generation ≤ (act a e).delivery_generation
unfolding act
act-generation-le (Action.claims now token) e = ground arith
act-generation-le a e = ground arith

-- The delivery generation never decreases.
pub run-generation-le :
    (history : List Action) (e : OutboxEvent)
    → e.delivery_generation ≤ (run history e).delivery_generation
unfolding run
run-generation-le [] e = omega arith
run-generation-le (a ∷ rest) e =
    omega (arith, act-generation-le a e, run-generation-le rest (act a e))

-- A dead letter stays one, or its generation has grown.
act-dead_letter :
    (a : Action) (e : OutboxEvent)
    → e.status ≡ dead_letter
    → ((act a e).status ≡ dead_letter) ⊎ (e.delivery_generation < (act a e).delivery_generation)
unfolding act
act-dead_letter (Action.claims now token) e h = ground arith
act-dead_letter a e h = ground arith

-- After any sequence of writes a dead letter is still one, or a redrive has given it a new
-- generation: no worker, relay or expiry takes it out of the dead-letter state.
pub run-dead_letter :
    (history : List Action) (e : OutboxEvent)
    → e.status ≡ dead_letter
    → ((run history e).status ≡ dead_letter)
      ⊎ (e.delivery_generation < (run history e).delivery_generation)
unfolding run
run-dead_letter [] e h = inl h
run-dead_letter (a ∷ rest) e h = elim (act-dead_letter a e h) [
  | inl still ↦ ground (arith, run-dead_letter rest (act a e) still, act-generation-le a e)
  | inr grown ↦ inr (omega (arith, grown, run-generation-le rest (act a e)))
]

-- The claim columns are set on claimed events, and only there.
pub record IsConsistent (e : OutboxEvent) : Type 0 where
  pub token_if_claimed : e.status ≡ claimed → is_some e.claim_token ≡ true
  pub lease_if_claimed : e.status ≡ claimed → is_some e.claim_expires_at ≡ true
  pub dead_letter_dated : e.status ≡ dead_letter → is_some e.dead_lettered_at ≡ true
  pub delivered_dated : e.status ≡ delivered → is_some e.delivered_at ≡ true
  pub delivered_alive : e.status ≡ delivered → is_none e.dead_lettered_at ≡ true
  pub processing_unclaimed : e.status ≡ processing → is_none e.claim_token ≡ true

act-IsConsistent : (a : Action) (e : OutboxEvent) → IsConsistent e → IsConsistent (act a e)
unfolding act
act-IsConsistent (Action.claims now token) e v = ground arith
act-IsConsistent (Action.fails id generation now message retry) e v = ground arith
act-IsConsistent (Action.fails id generation now message to_dead_letter) e v = ground arith
act-IsConsistent a e v = ground arith

-- Every sequence of writes keeps the columns consistent: a claimed event has a claim token and a
-- lease, a dead letter and a delivered event have their dates, a delivered event is no dead letter,
-- and an event in delivery is not claimed.
pub run-IsConsistent :
    (history : List Action) (e : OutboxEvent) → IsConsistent e → IsConsistent (run history e)
unfolding run
run-IsConsistent [] e v = v
run-IsConsistent (a ∷ rest) e v = run-IsConsistent rest (act a e) (act-IsConsistent a e v)
