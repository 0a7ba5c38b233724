-- ===== src/Thread/Described.antt =====
-- What the list of conversations shows of a thread, read off its stream independently of the loop.
use bee_agent.Prelude.{
  ℕ, suc, ◌+◌, ◌≤◌, ◌≡◌, refl, ap, ◌∙◌, false, Option, none, some, or_else, List, [], ◌∷◌, arith,
  if◌then◌else◌, leb, length, length-append, length-take, take, Bool-cases, inl, inr,
}
use bee_agent.Chronicle.{StoredEvent}
use bee_agent.Prelude.Units.{Text}
use bee_agent.Thread.Protocol.{
  MessageRole, ItemPayload, ThreadBody, message, thread_created, thread_renamed, turn_started,
  item_completed,
}
use bee_agent.Thread.Summary.{
  ThreadSummary, trim, collapse, clip_preview, is_meaningful, note_input, note_output, note_item,
  note_body, note_event, note_events,
}

abbrev pub over {ℓ} : {A : Type ℓ} → Option A → Option A → Option A
over none before = before
over (some a) before = some a

over_assoc {ℓ} : {A : Type ℓ} (x y z : Option A) → over x (over y z) ≡ over (over x y) z
over_assoc none y z = refl
over_assoc (some a) y z = refl

over-some {ℓ} :
    {A : Type ℓ} (x : Option A) (a : A) (z : Option A) → over (over x (some a)) z ≡ over x (some a)
over-some none a z = refl
over-some (some b) a z = refl

over-or_else {ℓ} :
    {A : Type ℓ} (x y : Option A) (z : A) → or_else x (or_else y z) ≡ or_else (over x y) z
over-or_else none y z = refl
over-or_else (some a) y z = refl

-- A preview has at most the ellipsis more than its bound.
pub length-clip_preview : (text : Text) (max : ℕ) → length (clip_preview text max) ≤ suc max
unfolding clip_preview
length-clip_preview text max =
    let flat = trim (collapse false text) in
    elim (Bool-cases (leb (length flat) max)) [
      | inl e ↦ rw (clip_preview, e) (ground arith)
      | inr e ↦
          rw (clip_preview, e)
            (omega (arith, length-append (take max flat) (8230 ∷ []), length-take max flat))
    ]

-- The last value that `f` reads off the rows.
abbrev pub latest {ℓ} :
    {A : Type ℓ} → (StoredEvent ThreadBody → Option A) → List (StoredEvent ThreadBody) → Option A
latest f [] = none
latest f (row ∷ rows) = over (latest f rows) (f row)

abbrev pub title_in : ThreadBody → Option Text
title_in (thread_created thread) = some thread.title
title_in (thread_renamed (c ∷ title)) = some (c ∷ title)
title_in _ = none

abbrev pub created_in : ThreadBody → Option ℕ
created_in (thread_created thread) = some thread.created_at
created_in _ = none

-- A text with something other than white space in it, clipped.
abbrev pub shown : Text → Option Text
shown text = if is_meaningful text then some (clip_preview text 160) else none

abbrev pub shown_input : Option Text → Option Text
shown_input none = none
shown_input (some input) = shown input

abbrev pub input_in : ThreadBody → Option Text
input_in (turn_started turn) = shown_input turn.input
input_in _ = none

abbrev answer : MessageRole → Text → Option Text
answer MessageRole.assistant content = shown content
answer _ content = none

abbrev answer_of : ItemPayload → Option Text
answer_of (message p) = answer p.role p.content
answer_of _ = none

abbrev pub output_in : ThreadBody → Option Text
output_in (item_completed item) = answer_of item.payload
output_in _ = none

abbrev pub turns_in : ThreadBody → ℕ
turns_in (turn_started _) = 1
turns_in _ = 0

abbrev pub turns_of : List (StoredEvent ThreadBody) → ℕ
turns_of [] = 0
turns_of (row ∷ rows) = turns_in row.body + turns_of rows

-- A summary with the parts that one event gives.
abbrev with_body : ThreadBody → ThreadSummary → ThreadSummary
with_body body s = record {
  id = s.id;
  title = or_else (title_in body) s.title;
  created_at = over (created_in body) s.created_at;
  updated_at = s.updated_at;
  turns = turns_in body + s.turns;
  last_input = over (input_in body) s.last_input;
  last_output = over (output_in body) s.last_output;
}

note_input_lem :
    (input : Option Text) (s : ThreadSummary)
    → note_input input s ≡ record s { last_input = over (shown_input input) s.last_input }
unfolding note_input
note_input_lem none s = refl
note_input_lem (some input) s = elim (Bool-cases (is_meaningful input)) [
  | inl e ↦ rw (note_input, e) refl
  | inr e ↦ rw (note_input, e) refl
]

note_output_lem :
    (role : MessageRole) (content : Text) (s : ThreadSummary)
    → note_output role content s
      ≡ record s { last_output = over (answer role content) s.last_output }
unfolding note_output
note_output_lem MessageRole.assistant content s = elim (Bool-cases (is_meaningful content)) [
  | inl e ↦ rw (note_output, e) refl
  | inr e ↦ rw (note_output, e) refl
]
note_output_lem _ content s = refl

note_item_lem :
    (payload : ItemPayload) (s : ThreadSummary)
    → note_item payload s ≡ record s { last_output = over (answer_of payload) s.last_output }
unfolding note_item
note_item_lem (message p) s = note_output_lem p.role p.content s
note_item_lem _ s = refl

one_more : (n : ℕ) → 1 + n ≡ suc n
one_more n = omega arith

counted : (n : ℕ) → 0 + n ≡ n
counted n = omega arith

note_body_lem : (body : ThreadBody) (s : ThreadSummary) → note_body body s ≡ with_body body s
unfolding note_body
note_body_lem (thread_created thread) s = rw (counted s.turns) refl
note_body_lem (thread_renamed []) s = rw (counted s.turns) refl
note_body_lem (thread_renamed (c ∷ title)) s = rw (counted s.turns) refl
note_body_lem (turn_started turn) s =
    note_input_lem turn.input (record s { turns = suc s.turns }) ∙ rw (one_more s.turns) refl
note_body_lem (item_completed item) s = rw (counted s.turns) (note_item_lem item.payload s)
note_body_lem _ s = rw (counted s.turns) refl

regroup : (a b c : ℕ) → a + (b + c) ≡ (b + a) + c
regroup a b c = omega arith

-- A summary with the parts that the rows give.
abbrev pub read_off : List (StoredEvent ThreadBody) → ThreadSummary → ThreadSummary
read_off rows s = record {
  id = s.id;
  title = or_else (latest (λ row. title_in row.body) rows) s.title;
  created_at = over (latest (λ row. created_in row.body) rows) s.created_at;
  updated_at = over (latest (λ row. some row.event_time) rows) s.updated_at;
  turns = turns_of rows + s.turns;
  last_input = over (latest (λ row. input_in row.body) rows) s.last_input;
  last_output = over (latest (λ row. output_in row.body) rows) s.last_output;
}

pub note_events-read_off :
    (rows : List (StoredEvent ThreadBody)) (s : ThreadSummary)
    → note_events s rows ≡ read_off rows s
unfolding note_events note_event
note_events-read_off [] s = rw (counted s.turns) refl
note_events-read_off (row ∷ rows) s =
    note_events-read_off rows (note_event s row)
    ∙ ap (read_off rows) (note_body_lem row.body (record s { updated_at = some row.event_time }))
    ∙ rw
        (
          over-or_else (latest (λ r. title_in r.body) rows) (title_in row.body) s.title,
          over_assoc (latest (λ r. created_in r.body) rows) (created_in row.body) s.created_at,
          over_assoc (latest (λ r. input_in r.body) rows) (input_in row.body) s.last_input,
          over_assoc (latest (λ r. output_in r.body) rows) (output_in row.body) s.last_output,
          regroup (turns_of rows) (turns_in row.body) s.turns,
          over-some (latest (λ r. some r.event_time) rows) row.event_time s.updated_at,
        )
        refl
