-- ===== src/Judge/Breaker/Opens.antt =====
-- When the breaker refuses a call, told from the events before it.
use bot_marshal.Prelude.{
  ℕ, suc, ◌+◌, ◌-◌, ◌%◌, ◌^◌, ◌≤◌, ◌<◌, max, some, false, List, [], ◌∷◌, ◌≡◌, refl, ◌↔◌, arith, ltb,
  leb, Bool-cases, Option-cases, inl, inr,
}
use bot_marshal.Judge.Breaker.{
  CircuitBreaker, new, allows_call, record_failure, record_success, Event, asked, succeeded, failed,
  step, after,
}

-- How many failures were recorded since the last success, the latest event first.
abbrev pub failures_in_a_row : List Event → ℕ
failures_in_a_row [] = 0
failures_in_a_row (asked now ∷ es) = failures_in_a_row es
failures_in_a_row (succeeded now ∷ es) = 0
failures_in_a_row (failed now ∷ es) = suc (failures_in_a_row es)

-- What the breaker remembers of the events.
record Remembers (t c : ℕ) (es : List Event) (b : CircuitBreaker) : Type 0 where
  limit : b.threshold ≡ max t 1
  wait : b.cooldown ≡ c
  count : b.consecutive_failures ≡ failures_in_a_row es
  opened : (at : ℕ) → b.opened_at ≡ some at → max t 1 ≤ failures_in_a_row es

asked-Remembers :
    (t c now : ℕ) (es : List Event) (b : CircuitBreaker)
    → Remembers t c es b
    → Remembers t c (asked now ∷ es) (step (asked now) b)
unfolding step allows_call
asked-Remembers t c now es b r = elim (Option-cases b.opened_at) [
  | inl closed ↦
      rw (closed, step, allows_call)
        (record { limit = r.limit; wait = r.wait; count = r.count; opened = r.opened })
  | inr (at, since) ↦ elim (Bool-cases (ltb (now - at) b.cooldown)) [
    | inl early ↦
        rw (since, step, allows_call, early)
          (record { limit = r.limit; wait = r.wait; count = r.count; opened = r.opened })
    | inr late ↦
        rw (since, step, allows_call, late)
          (record { limit = r.limit; wait = r.wait; count = r.count; opened = λ a e. cc })
  ]
]

-- A success forgets the failures, however many there were.
after-limit :
    (t c : ℕ) (es : List Event)
    → let b = after es (new t c) in (b.threshold ≡ max t 1) × (b.cooldown ≡ c)
unfolding after new step allows_call record_success record_failure
after-limit t c [] = (refl, refl)
after-limit t c (asked now ∷ es) = grind (arith, after-limit t c es)
after-limit t c (succeeded now ∷ es) = after-limit t c es
after-limit t c (failed now ∷ es) = ground (arith, after-limit t c es)

failed-Remembers :
    (t c now : ℕ) (es : List Event) (b : CircuitBreaker)
    → suc (failures_in_a_row es) < 2 ^ 32
    → Remembers t c es b
    → Remembers t c (failed now ∷ es) (step (failed now) b)
unfolding step record_failure
failed-Remembers t c now es b small r =
    let n : (b.consecutive_failures + 1) % 2 ^ 32 ≡ suc (failures_in_a_row es) =
      rw (r.count) (omega arith) in
    elim (Bool-cases (leb b.threshold ((b.consecutive_failures + 1) % 2 ^ 32))) [
      | inl on ↦ rw on (record {
        limit = r.limit;
        wait = r.wait;
        count = n;
        opened = λ a e. ground (arith, r.limit);
      })
      | inr off ↦ rw off (record {
        limit = r.limit;
        wait = r.wait;
        count = n;
        opened = λ a e. omega (arith, r.opened a e);
      })
    ]

after-Remembers :
    (t c : ℕ) (es : List Event)
    → failures_in_a_row es < 2 ^ 32
    → Remembers t c es (after es (new t c))
unfolding after new step record_success
after-Remembers t c [] small = record {
  limit = refl;
  wait = refl;
  count = refl;
  opened = λ a e. cc;
}
after-Remembers t c (asked now ∷ es) small =
    asked-Remembers t c now es _ (after-Remembers t c es small)
after-Remembers t c (succeeded now ∷ es) small =
    let (limit, wait) = after-limit t c es in
    record { limit = limit; wait = wait; count = refl; opened = λ a e. cc }
after-Remembers t c (failed now ∷ es) small =
    failed-Remembers t c now es _ small (after-Remembers t c es (omega arith))

-- While fewer than 2^32 failures stand in a row, a refused call means that the last `threshold`
-- outcomes or more, and at least one, were failures with no success since.
pub refused-failures :
    (t c now : ℕ) (es : List Event)
    → failures_in_a_row es < 2 ^ 32
    → (allows_call now (after es (new t c))).0 ≡ false
    → max t 1 ≤ failures_in_a_row es
unfolding allows_call
refused-failures t c now es small shut = elim (Option-cases (after es (new t c)).opened_at) [
  | inl closed ↦ let e = rw (closed, allows_call) at shut in cc
  | inr (at, since) ↦ (after-Remembers t c es small).opened at since
]

-- After a failure, and while fewer than 2^32 stand in a row, a call is refused exactly when the
-- threshold is reached and the cooldown since that failure is not over.
pub refused_iff :
    (t c now at : ℕ) (earlier : List Event)
    → suc (failures_in_a_row earlier) < 2 ^ 32
    → ((allows_call now (after (failed at ∷ earlier) (new t c))).0 ≡ false)
      ↔ ((max t 1 ≤ suc (failures_in_a_row earlier)) × (now - at < c))
unfolding after step record_failure allows_call
refused_iff t c now at earlier small =
    let b = after earlier (new t c) in
    let r = after-Remembers t c earlier (omega arith) in
    let n : (b.consecutive_failures + 1) % 2 ^ 32 ≡ suc (failures_in_a_row earlier) =
      rw (r.count) (omega arith) in
    elim (Bool-cases (leb b.threshold ((b.consecutive_failures + 1) % 2 ^ 32))) [
      | inl on ↦ rw on (ground (arith, r.limit, r.wait, n))
      | inr off ↦ rw off (elim (Option-cases b.opened_at) [
        | inl closed ↦ rw (closed) (ground (arith, r.limit, n))
        | inr (before, since) ↦ absurd (ground (arith, r.limit, n, r.opened before since))
      ])
    ]
