-- ===== src/Judge/Breaker.antt =====
-- crates/marshal-judge/src/breaker.rs. Time is a number of the clock's units; the counter is a u32.
pub mod Opens
use bot_marshal.Prelude.{
  ℕ, ◌+◌, ◌-◌, ◌%◌, ◌^◌, max, Option, none, some, Bool, true, false, List, [], ◌∷◌, ltb, leb,
  if◌then◌else◌,
}

pub record CircuitBreaker : Type 0 where
  pub threshold : ℕ
  pub cooldown : ℕ
  pub consecutive_failures : ℕ
  pub opened_at : Option ℕ

unfoldable pub new : (threshold cooldown : ℕ) → CircuitBreaker
new threshold cooldown = record {
  threshold = max threshold 1;
  cooldown = cooldown;
  consecutive_failures = 0;
  opened_at = none;
}

-- Whether a call may be made at the time `now`; after the cooldown the breaker is half-open.
unfoldable pub allows_call : ℕ → CircuitBreaker → Bool × CircuitBreaker
allows_call now b = elim b.opened_at [
  | none ↦ (true, b)
  | some at ↦
      if ltb (now - at) b.cooldown then (false, b) else (true, (record b { opened_at = none }))
]

unfoldable pub record_success : CircuitBreaker → CircuitBreaker
record_success b = record b { consecutive_failures = 0; opened_at = none }

-- `fetch_add` wraps, and the addition behind it is of a u32 as well.
unfoldable pub record_failure : ℕ → CircuitBreaker → CircuitBreaker
record_failure now b =
    let failures = (b.consecutive_failures + 1) % 2 ^ 32 in
    if leb b.threshold failures
    then record b { consecutive_failures = failures; opened_at = some now }
    else record b { consecutive_failures = failures }

-- What callers do with the breaker, each event at its time.
pub data Event : Type 0 where
  asked succeeded failed : (now : ℕ) → Event

unfoldable pub step : Event → CircuitBreaker → CircuitBreaker
unfolding allows_call record_success record_failure
step (asked now) b = (allows_call now b).1
step (succeeded now) b = record_success b
step (failed now) b = record_failure now b

-- The latest event stands first.
unfoldable pub after : List Event → CircuitBreaker → CircuitBreaker
unfolding step
after [] b = b
after (e ∷ earlier) b = step e (after earlier b)
