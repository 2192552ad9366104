-- ===== src/Llm/Sse/Blocks.antt =====
-- The blocks of the stream that is written: each text and each stop is for a block that is open, and the
-- blocks that are open for a client are those that the translator has.
use bot_marshal.Prelude.{
  ℕ, ◌+◌, Text, Option, none, some, Bool, true, false, List, [], ◌∷◌, ◌++◌, map, ◌≡◌, refl, sym, ap,
  ◌∙◌, inl, inr, Any, Bool-cases, Option-cases, is_empty, format, trim, text_eq, lit, ltb, ◌==◌,
  ==_iff, ==_refl, if-true, if-false, if◌then◌else◌,
}
use bot_marshal.Core.Json.{Json, Number, get}
use bot_marshal.Llm.Stream.{LlmLib, split_blank, pointer, str_of, items_of, lines, data_line}
use bot_marshal.Llm.Sse.{
  DialectSse, Event, message_start, block_start, text_delta, input_json_delta, block_stop,
  message_delta, message_stop, Step, ◌then_do◌, insert_block, close_blocks, start_message,
  start_text, write_text, text_part, block_of, open_tool, name_part, arguments_part, call_part,
  calls_part, stop_reason_of, finish_part, document_part, raw_part, raws_part, Dialect, new_sse,
  write_event, openai_chunk_to_anthropic, text_block, opened, data_part, parsed_part, delta_of,
  calls_of,
}

-- The block is among those that are open.
abbrev pub IsOpen : ℕ → List ℕ → Type 0
IsOpen i open_blocks = Any (λ j. j ≡ i) open_blocks

pub remove_block : ℕ → List ℕ → List ℕ
remove_block i [] = []
remove_block i (j ∷ open_blocks) =
    let later = j ∷ remove_block i open_blocks in if i == j then open_blocks else later

-- A client that has some blocks open reads the events, and has others open in the end: it can take
-- every text and every stop.
pub data Follows : List ℕ → List Event → List ℕ → Type 0 where
  done : (o : List ℕ) → Follows o [] o
  on_start :
      {o o' : List ℕ} {es : List Event} (i : ℕ) (content : Json)
      → Follows (insert_block i o) es o'
      → Follows o (block_start i content ∷ es) o'
  on_text :
      {o o' : List ℕ} {es : List Event} (i : ℕ) (text : Text)
      → IsOpen i o
      → Follows o es o'
      → Follows o (text_delta i text ∷ es) o'
  on_stop :
      {o o' : List ℕ} {es : List Event} (i : ℕ)
      → IsOpen i o
      → Follows (remove_block i o) es o'
      → Follows o (block_stop i ∷ es) o'
  on_begin :
      {o o' : List ℕ} {es : List Event} (id model : Text)
      → Follows o es o'
      → Follows o (message_start id model ∷ es) o'
  on_arguments :
      {o o' : List ℕ} {es : List Event} (n : Number) (args : Text)
      → Follows o es o'
      → Follows o (input_json_delta n args ∷ es) o'
  on_reason :
      {o o' : List ℕ} {es : List Event} (stop : Text)
      → Follows o es o'
      → Follows o (message_delta stop ∷ es) o'
  on_end : {o o' : List ℕ} {es : List Event} → Follows o es o' → Follows o (message_stop ∷ es) o'

Follows-append :
    (o o' o'' : List ℕ) (es fs : List Event)
    → Follows o es o'
    → Follows o' fs o''
    → Follows o (es ++ fs) o''
Follows-append o o' o'' es fs (done _) k = k
Follows-append o o' o'' es fs (on_start i content h) k =
    on_start i content (Follows-append _ o' o'' _ fs h k)
Follows-append o o' o'' es fs (on_text i text there h) k =
    on_text i text there (Follows-append _ o' o'' _ fs h k)
Follows-append o o' o'' es fs (on_stop i there h) k =
    on_stop i there (Follows-append _ o' o'' _ fs h k)
Follows-append o o' o'' es fs (on_begin id model h) k =
    on_begin id model (Follows-append _ o' o'' _ fs h k)
Follows-append o o' o'' es fs (on_arguments n args h) k =
    on_arguments n args (Follows-append _ o' o'' _ fs h k)
Follows-append o o' o'' es fs (on_reason stop h) k =
    on_reason stop (Follows-append _ o' o'' _ fs h k)
Follows-append o o' o'' es fs (on_end h) k = on_end (Follows-append _ o' o'' _ fs h k)

-- While a block for texts is noted, it is open.
pub record IsReady (s : DialectSse) : Type 0 where
  pub text_open :
      s.text_started ≡ true
      → (i : ℕ) × (s.text_block_index ≡ some i) × IsOpen i s.open_anthropic_blocks

-- The events of a step are ones that a client with the same open blocks can follow, to the blocks of the
-- next state, which is ready again.
pub record IsFollowed (s : DialectSse) (r : List Event × DialectSse) : Type 0 where
  pub followed : Follows s.open_anthropic_blocks r.0 r.1.open_anthropic_blocks
  pub ready : IsReady r.1

then_do-IsFollowed :
    (f g : Step) (s : DialectSse)
    → IsFollowed s (f s)
    → IsFollowed (f s).1 (g (f s).1)
    → IsFollowed s ((f then_do g) s)
then_do-IsFollowed f g s h k = record {
  followed =
      Follows-append s.open_anthropic_blocks (f s).1.open_anthropic_blocks
        (g (f s).1).1.open_anthropic_blocks (f s).0 (g (f s).1).0 h.followed k.followed;
  ready = k.ready;
}

close-Follows : (o : List ℕ) → Follows o (map (λ i. block_stop i) o) []
unfolding remove_block
close-Follows [] = done []
close-Follows (i ∷ o) = on_stop i (inl refl) (rw (==_refl i) (close-Follows o))

close_blocks-IsFollowed : (s : DialectSse) → IsFollowed s (close_blocks s)
unfolding close_blocks
close_blocks-IsFollowed s = record {
  followed = close-Follows s.open_anthropic_blocks;
  ready = record { text_open = λ e. cc };
}

IsOpen-insert_block : (i : ℕ) (o : List ℕ) → IsOpen i (insert_block i o)
unfolding insert_block
IsOpen-insert_block i [] = inl refl
IsOpen-insert_block i (j ∷ o) = elim (Bool-cases (i == j)) [
  | inl same ↦ rw same (inl (sym ((==_iff i j).0 same)))
  | inr other ↦ elim (Bool-cases (ltb i j)) [
    | inl before ↦ rw (other, before) (inl refl)
    | inr behind ↦ rw (other, behind) (inr (IsOpen-insert_block i o))
  ]
]

insert_block-IsOpen : (i j : ℕ) (o : List ℕ) → IsOpen j o → IsOpen j (insert_block i o)
unfolding insert_block
insert_block-IsOpen i j [] h = absurd h
insert_block-IsOpen i j (k ∷ o) h = elim (Bool-cases (i == k)) [
  | inl same ↦ rw same h
  | inr other ↦ elim (Bool-cases (ltb i k)) [
    | inl before ↦ rw (other, before) (inr h)
    | inr behind ↦
        rw (other, behind) (elim h [ inl e ↦ inl e | inr l ↦ inr (insert_block-IsOpen i j o l) ])
  ]
]

idle-IsFollowed : (s : DialectSse) → IsReady s → IsFollowed s ([], s)
idle-IsFollowed s r = record { followed = done s.open_anthropic_blocks; ready = r }

-- One of two results, whichever the test picks.
if-IsFollowed :
    (b : Bool) (s : DialectSse) (x y : List Event × DialectSse)
    → IsFollowed s x
    → IsFollowed s y
    → IsFollowed s (if b then x else y)
if-IsFollowed true s x y h k = h
if-IsFollowed false s x y h k = k

start_message-IsFollowed :
    (id : Option Text) (s : DialectSse) → IsReady s → IsFollowed s (start_message id s)
unfolding start_message
start_message-IsFollowed none s r = if-IsFollowed s.started s _ _ (idle-IsFollowed s r) (record {
  followed = on_begin s.message_id s.client_model (done s.open_anthropic_blocks);
  ready = record { text_open = r.text_open };
})
start_message-IsFollowed (some id) s r =
    if-IsFollowed s.started s _ _
      (record {
        followed = done s.open_anthropic_blocks;
        ready = record { text_open = r.text_open };
      })
      (record {
        followed = on_begin id s.client_model (done s.open_anthropic_blocks);
        ready = record { text_open = r.text_open };
      })

start_text-IsFollowed : (s : DialectSse) → IsReady s → IsFollowed s (start_text s)
unfolding start_text
start_text-IsFollowed s r =
    let i = s.next_anthropic_block_index in
    if-IsFollowed s.text_started s _ _ (idle-IsFollowed s r) (record {
      followed = on_start i text_block (done (insert_block i s.open_anthropic_blocks));
      ready = record { text_open = λ e. (i, refl, IsOpen-insert_block i s.open_anthropic_blocks) };
    })

start_text-started : (s : DialectSse) → (start_text s).1.text_started ≡ true
unfolding start_text
start_text-started s = elim (Bool-cases s.text_started) [
  | inl on ↦
      ap (λ (r : List Event × DialectSse). r.1.text_started) (if-true s.text_started _ _ on) ∙ on
  | inr off ↦
      ap (λ (r : List Event × DialectSse). r.1.text_started) (if-false s.text_started _ _ off)
]

write_text-IsFollowed :
    (text : Text) (s : DialectSse)
    → IsReady s
    → s.text_started ≡ true
    → IsFollowed s (write_text text s)
unfolding write_text
write_text-IsFollowed text s r on =
    let (i, noted, there) = r.text_open on in
    rw (noted, write_text)
      (record { followed = on_text i text there (done s.open_anthropic_blocks); ready = r })

text_part-IsFollowed :
    (text : Option Text) (s : DialectSse) → IsReady s → IsFollowed s (text_part text s)
unfolding text_part
text_part-IsFollowed none s r = idle-IsFollowed s r
text_part-IsFollowed (some text) s r =
    let started = start_text-IsFollowed s r in
    then_do-IsFollowed start_text (write_text text) s started
      (write_text-IsFollowed text (start_text s).1 started.ready (start_text-started s))

opened-IsFollowed :
    (content : Json) (i : ℕ) (s : DialectSse) → IsReady s → IsFollowed s (opened content i s)
unfolding opened
opened-IsFollowed content i s r = record {
  followed = on_start i content (done (insert_block i s.open_anthropic_blocks));
  ready = record {
    text_open = λ e.
        let (j, noted, there) = r.text_open e in
        (j, noted, insert_block-IsOpen i j s.open_anthropic_blocks there);
  };
}

open_tool-IsFollowed :
    (key : Number) (content : Json) (s : DialectSse)
    → IsReady s
    → IsFollowed s (open_tool key content s)
unfolding open_tool
open_tool-IsFollowed key content s r =
    elim (Option-cases (block_of key s.openai_to_anthropic_tool)) [
      | inr (i, known) ↦ rw (known, open_tool) (opened-IsFollowed content i s r)
      | inl new ↦
          let i = s.next_anthropic_block_index in
          let t : DialectSse = record s {
            openai_to_anthropic_tool = (key, i) ∷ s.openai_to_anthropic_tool;
            next_anthropic_block_index = i + 1;
          } in
          let next = opened-IsFollowed content i t (record { text_open = r.text_open }) in
          rw (new, open_tool) (record { followed = next.followed; ready = next.ready })
    ]

name_part-IsFollowed :
    (call : Json) (name : Option Json) (s : DialectSse)
    → IsReady s
    → IsFollowed s (name_part call name s)
unfolding name_part
name_part-IsFollowed call none s r = idle-IsFollowed s r
name_part-IsFollowed call (some name) s r = open_tool-IsFollowed _ _ s r

arguments_part-IsFollowed :
    (call : Json) (args : Option Text) (s : DialectSse)
    → IsReady s
    → IsFollowed s (arguments_part call args s)
unfolding arguments_part
arguments_part-IsFollowed call none s r = idle-IsFollowed s r
arguments_part-IsFollowed call (some []) s r = idle-IsFollowed s r
arguments_part-IsFollowed call (some (c ∷ args)) s r = record {
  followed = on_arguments _ (c ∷ args) (done s.open_anthropic_blocks);
  ready = r;
}

call_part-IsFollowed : (call : Json) (s : DialectSse) → IsReady s → IsFollowed s (call_part call s)
unfolding call_part
call_part-IsFollowed call s r =
    let name = pointer (lit "function" ∷ lit "name" ∷ []) call in
    let args = str_of (pointer (lit "function" ∷ lit "arguments" ∷ []) call) in
    let named = name_part-IsFollowed call name s r in
    then_do-IsFollowed (name_part call name) (arguments_part call args) s named
      (arguments_part-IsFollowed call args (name_part call name s).1 named.ready)

calls_part-IsFollowed :
    (calls : List Json) (s : DialectSse) → IsReady s → IsFollowed s (calls_part calls s)
unfolding calls_part
calls_part-IsFollowed [] s r = idle-IsFollowed s r
calls_part-IsFollowed (call ∷ calls) s r =
    let first = call_part-IsFollowed call s r in
    then_do-IsFollowed (call_part call) (calls_part calls) s first
      (calls_part-IsFollowed calls (call_part call s).1 first.ready)

-- All blocks are stopped, and one more event is written that opens none.
closed-IsFollowed :
    (e : Event) (s : DialectSse)
    → Follows [] (e ∷ []) []
    → IsFollowed s ((close_blocks then_do λ t. (e ∷ [], t)) s)
unfolding close_blocks
closed-IsFollowed e s last =
    then_do-IsFollowed close_blocks (λ t. (e ∷ [], t)) s (close_blocks-IsFollowed s)
      (record { followed = last; ready = (close_blocks-IsFollowed s).ready })

finish_part-IsFollowed :
    (finish : Option Text) (s : DialectSse) → IsReady s → IsFollowed s (finish_part finish s)
unfolding finish_part
finish_part-IsFollowed none s r = idle-IsFollowed s r
finish_part-IsFollowed (some finish) s r =
    closed-IsFollowed (message_delta (stop_reason_of finish)) s (on_reason _ (done []))

document_part-IsFollowed :
    (v : Json) (s : DialectSse) → IsReady s → IsFollowed s (document_part v s)
unfolding document_part
document_part-IsFollowed v s r =
    let starts = start_message (str_of (get (lit "id") v)) in
    let texts = text_part (str_of (get (lit "content") (delta_of v))) in
    let calls = calls_part (calls_of (items_of (get (lit "tool_calls") (delta_of v)))) in
    let finish = str_of (pointer (lit "choices" ∷ lit "0" ∷ lit "finish_reason" ∷ []) v) in
    let one = start_message-IsFollowed (str_of (get (lit "id") v)) s r in
    let two =
      then_do-IsFollowed starts texts s one
        (text_part-IsFollowed (str_of (get (lit "content") (delta_of v))) (starts s).1 one.ready) in
    let three = then_do-IsFollowed (starts then_do texts) calls s two (
      calls_part-IsFollowed (calls_of (items_of (get (lit "tool_calls") (delta_of v))))
        ((starts then_do texts) s).1 two.ready) in
    then_do-IsFollowed (starts then_do texts then_do calls) (finish_part finish) s three
      (finish_part-IsFollowed finish ((starts then_do texts then_do calls) s).1 three.ready)

module _ (lib : LlmLib) where
  data_part-IsFollowed :
      (text : Option Text) (s : DialectSse) → IsReady s → IsFollowed s (data_part lib text s)
  unfolding data_part parsed_part
  data_part-IsFollowed none s r = idle-IsFollowed s r
  data_part-IsFollowed (some text) s r =
      if-IsFollowed (text_eq (trim text) (lit "[DONE]")) s _ _
        (closed-IsFollowed message_stop s (on_end (done [])))
        (parsed-IsFollowed (lib.from_str text))
    where
      parsed-IsFollowed : (v : Option Json) → IsFollowed s (parsed_part lib v s)
      parsed-IsFollowed none = idle-IsFollowed s r
      parsed-IsFollowed (some v) = document_part-IsFollowed v s r

  raw_part-IsFollowed :
      (raw : Text) (s : DialectSse) → IsReady s → IsFollowed s (raw_part lib raw s)
  unfolding raw_part
  raw_part-IsFollowed raw s r =
      if-IsFollowed (is_empty (trim raw)) s _ _ (idle-IsFollowed s r)
        (data_part-IsFollowed (data_line (lines raw)) s r)

  -- Whatever the provider sends, a client that has the translator's open blocks open can take every text
  -- and every stop that is written, and has the open blocks of the next state open in the end.
  pub raws_part-IsFollowed :
      (raws : List Text) (s : DialectSse) → IsReady s → IsFollowed s (raws_part lib raws s)
  unfolding raws_part
  raws_part-IsFollowed [] s r = idle-IsFollowed s r
  raws_part-IsFollowed (raw ∷ raws) s r =
      let first = raw_part-IsFollowed raw s r in
      then_do-IsFollowed (raw_part lib raw) (raws_part lib raws) s first
        (raws_part-IsFollowed raws (raw_part lib raw s).1 first.ready)

  -- What is written for a chunk are such events.
  pub record IsWritten (s : DialectSse) (r : Text × DialectSse) : Type 0 where
    pub events : List Event
    pub written : r.0 ≡ format (map (write_event lib) events)
    pub follows : Follows s.open_anthropic_blocks events r.1.open_anthropic_blocks
    pub next_ready : IsReady r.1

  -- Whatever chunk the provider sends, the translator writes events that a client with the same open
  -- blocks can follow, each text and each stop for a block that is open then; and the client is left
  -- with the blocks open that the translator's next state has, which is ready for another chunk.
  pub openai_chunk_to_anthropic-IsWritten :
      (chunk : Text) (s : DialectSse)
      → IsReady s
      → IsWritten s (openai_chunk_to_anthropic lib chunk s)
  unfolding openai_chunk_to_anthropic
  openai_chunk_to_anthropic-IsWritten chunk s r =
      let all = raws_part-IsFollowed (split_blank chunk) s r in
      record {
        events = (raws_part lib (split_blank chunk) s).0;
        written = refl;
        follows = all.followed;
        next_ready = all.ready;
      }

-- A new translator is ready, with no block open.
pub new_sse-IsReady : (from to : Dialect) (model : Text) → IsReady (new_sse from to model)
unfolding new_sse
new_sse-IsReady from to model = record { text_open = λ e. cc }
