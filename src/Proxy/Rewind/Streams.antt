-- ===== src/Proxy/Rewind/Streams.antt =====
-- A rewound stream is a stream: it delivers the prefix, and then what the stream behind delivers.
use bot_marshal.Prelude.{
  drop-drop, drop-length, drop-past, ℕ, ◌+◌, ◌<◌, min, true, List, [], ◌∷◌, ◌++◌, ◌≡◌, refl, sym,
  ap, ◌∙◌, arith, inl, inr, Bool-cases, append_assoc, drop, take, length, length-take, length-drop,
  take-append-drop, ltb, ◌==◌,
}
use bot_marshal.Proxy.Rewind.{
  Poll, pending, ready, failed, Reader, Rewind, rewind_new, advance, poll_read,
}

abbrev pub delivered : {E : Type 0} → Poll E → List ℕ
delivered pending = []
delivered (ready b) = b
delivered (failed e) = []

-- What a reader delivers from a state is the state's tape, in order, with no byte lost; and it
-- reports the end of the stream, an empty read into some room, only if nothing is left.
pub record IsTape {S E : Type 0} (reader : Reader S E) (tape : S → List ℕ) : Type 0 where
  pub delivers :
      (n : ℕ) (s : S)
      → tape s ≡ delivered (reader.poll_inner n s).0 ++ tape (reader.poll_inner n s).1
  pub ends : (n : ℕ) (s : S) → 0 < n → (reader.poll_inner n s).0 ≡ ready [] → tape s ≡ []

-- The bytes that a sequence of reads, each with its room, delivers, and the state after them.
unfoldable pub reads : {S E : Type 0} → Reader S E → List ℕ → S → List ℕ × S
reads reader [] s = ([], s)
reads reader (n ∷ rooms) s =
    let (polled, later) = reader.poll_inner n s in
    let (bytes, last) = reads reader rooms later in (delivered polled ++ bytes, last)

unfoldable pub rewound : {S E : Type 0} → Reader S E → Reader (Rewind S) E
unfolding poll_read
rewound reader = record { poll_inner = poll_read reader }

unfoldable pub rewound_tape : {S : Type 0} → (S → List ℕ) → Rewind S → List ℕ
rewound_tape tape r = drop r.pos r.prefix ++ tape r.inner

reads-tape :
    {S E : Type 0} (reader : Reader S E) (tape : S → List ℕ)
    → IsTape reader tape
    → (rooms : List ℕ) (s : S) → tape s ≡ (reads reader rooms s).0 ++ tape (reads reader rooms s).1
unfolding reads
reads-tape reader tape law [] s = refl
reads-tape reader tape law (n ∷ rooms) s =
    let later = (reader.poll_inner n s).1 in
    law.delivers n s
    ∙ (ap (λ t. delivered (reader.poll_inner n s).0 ++ t) (reads-tape reader tape law rooms later)
        ∙ sym (append_assoc (delivered (reader.poll_inner n s).0) (reads reader rooms later).0 _))

delivered_cong : {E : Type 0} (p q : Poll E) → p ≡ q → delivered p ≡ delivered q
delivered_cong p q e = ap delivered e

inside_iff :
    {S : Type 0} (r : Rewind S) → ltb r.pos (length r.prefix) ≡ true → r.pos < length r.prefix
inside_iff r e = ground arith

module _ {S E : Type 0} (reader : Reader S E) (tape : S → List ℕ) where
  drop-advance :
      (r : Rewind S) (n : ℕ)
      → drop (advance r n).pos (advance r n).prefix ≡ drop (r.pos + n) r.prefix
  unfolding advance
  drop-advance r n = elim (Bool-cases (r.pos + n == length r.prefix)) [
    | inl drained ↦
        let e : r.pos + n ≡ length r.prefix = ground arith in
        rw drained (rw e (sym (drop-length r.prefix)))
    | inr more ↦ rw more refl
  ]

  inner-advance : (r : Rewind S) (n : ℕ) → (advance r n).inner ≡ r.inner
  unfolding advance
  inner-advance r n = elim (Bool-cases (r.pos + n == length r.prefix)) [
    | inl drained ↦ rw drained refl
    | inr more ↦ rw more refl
  ]

  rewound-delivers :
      IsTape reader tape
      → (n : ℕ) (r : Rewind S)
      → rewound_tape tape r
        ≡ delivered (poll_read reader n r).0 ++ rewound_tape tape (poll_read reader n r).1
  unfolding rewound_tape poll_read
  rewound-delivers law n r = elim (Bool-cases (ltb r.pos (length r.prefix))) [
    | inl inside ↦
        let remaining = drop r.pos r.prefix in
        let m = min (length remaining) n in
        let split : remaining ≡ take m remaining ++ drop (r.pos + m) r.prefix =
          sym (take-append-drop m remaining)
          ∙ ap (λ t. take m remaining ++ t) (drop-drop m r.pos r.prefix) in
        rw inside (
          rw (drop-advance r m, inner-advance r m)
            (ap (λ t. t ++ tape r.inner) split
              ∙ append_assoc (take m remaining) (drop (r.pos + m) r.prefix) (tape r.inner)))
    | inr past ↦
        let none_left : drop r.pos r.prefix ≡ [] = drop-past r.pos r.prefix (ground arith) in
        rw (past, none_left) (law.delivers n r.inner)
  ]

  rewound-ends :
      IsTape reader tape
      → (n : ℕ) (r : Rewind S) → 0 < n
      → (poll_read reader n r).0 ≡ ready []
      → rewound_tape tape r ≡ []
  unfolding rewound_tape poll_read
  rewound-ends law n r room e = elim (Bool-cases (ltb r.pos (length r.prefix))) [
    | inl inside ↦
        let remaining = drop r.pos r.prefix in
        let m = min (length remaining) n in
        let none_taken : take m remaining ≡ [] = delivered_cong _ _ (rw inside at e) in
        let short : length (take m remaining) ≡ 0 = ap (λ t. length t) none_taken in
        absurd (
          omega (
            arith,
            short,
            length-take m remaining,
            length-drop r.pos r.prefix,
            inside_iff r inside,
            room,
          ))
    | inr past ↦
        let none_left : drop r.pos r.prefix ≡ [] = drop-past r.pos r.prefix (ground arith) in
        rw none_left (law.ends n r.inner room (rw past at e))
  ]

-- A rewound stream keeps to the contract of a stream, its tape the rest of the prefix and then the
-- tape of the stream behind.
pub rewound-IsTape :
    {S E : Type 0} (reader : Reader S E) (tape : S → List ℕ)
    → IsTape reader tape
    → IsTape (rewound reader) (rewound_tape tape)
unfolding rewound
rewound-IsTape reader tape law = record {
  delivers = rewound-delivers reader tape law;
  ends = rewound-ends reader tape law;
}

-- Whatever the rooms of the reads, a new rewound stream delivers a beginning of the prefix followed
-- by the stream's tape, and what is left on its tape is the rest.
pub reads-rewound :
    {S E : Type 0} (reader : Reader S E) (tape : S → List ℕ)
    → IsTape reader tape
    → (prefix : List ℕ) (s : S) (rooms : List ℕ)
    → let (bytes, last) = reads (rewound reader) rooms (rewind_new s prefix) in
      bytes ++ rewound_tape tape last ≡ prefix ++ tape s
unfolding rewound_tape rewind_new
reads-rewound reader tape law prefix s rooms = sym (
    reads-tape (rewound reader) (rewound_tape tape) (rewound-IsTape reader tape law) rooms
      (rewind_new s prefix))
