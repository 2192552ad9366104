-- ===== src/Proxy/Rewind.antt =====
-- crates/marshal-proxy/src/rewind.rs. The stream behind is a parameter: one read of at most `n` bytes
-- takes it to its next state, and gives some bytes (none at the end), or an error, or is not ready.
pub mod Streams
use bot_marshal.Prelude.{ℕ, ◌+◌, min, List, [], drop, take, length, ltb, ◌==◌, if◌then◌else◌}

pub data Poll (E : Type 0) : Type 0 where
  pending : Poll E
  ready : List ℕ → Poll E
  failed : E → Poll E

pub record Reader (S E : Type 0) : Type 0 where
  pub poll_inner : ℕ → S → Poll E × S

pub record Rewind (S : Type 0) : Type 0 where
  pub prefix : List ℕ
  pub pos : ℕ
  pub inner : S

unfoldable pub rewind_new : {S : Type 0} → S → List ℕ → Rewind S
rewind_new inner prefix = record { prefix = prefix; pos = 0; inner = inner }

unfoldable pub into_inner : {S : Type 0} → Rewind S → S
into_inner r = r.inner

-- The prefix is freed once it is drained.
unfoldable pub advance : {S : Type 0} → Rewind S → ℕ → Rewind S
advance r n =
    let pos = r.pos + n in
    if pos == length r.prefix then record r { prefix = []; pos = 0 } else record r { pos = pos }

-- `poll_read` into a buffer with room for `room` bytes.
unfoldable pub poll_read : {S E : Type 0} → Reader S E → ℕ → Rewind S → Poll E × Rewind S
unfolding advance
poll_read reader room r =
    let remaining = drop r.pos r.prefix in
    let n = min (length remaining) room in
    let (polled, inner) = reader.poll_inner room r.inner in
    if ltb r.pos (length r.prefix)
    then (ready (take n remaining), advance r n)
    else (polled, record r { inner = inner })
