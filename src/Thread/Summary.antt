-- ===== src/Thread/Summary.antt =====
-- packages/thread/src/index.ts: the list of conversations, projected from the streams.
use Prim.Native.String.{len, slice}
use bee_agent.Prelude.{
  ℕ, suc, String, Bool, true, false, ◌&&◌, ◌||◌, Option, none, some, List, [], ◌∷◌, ◌++◌,
  if◌then◌else◌, leb, ◌==◌, filter, length, map, take,
}
use bee_agent.Prelude.Text.{has_prefix}
use bee_agent.Prelude.Sort.{sort_by}
use bee_agent.Prelude.Units.{same_text}
use bee_agent.Chronicle.{Db, StoredEvent, list_streams, read_stream}
use bee_agent.Prelude.Units.{Text}
use bee_agent.Thread.Protocol.{
  MessageRole, ItemPayload, ThreadBody, message, thread_created, thread_renamed, turn_started,
  item_completed,
}

pub record ThreadSummary : Type 0 where
  pub id : String
  pub title : Text
  -- `''` is `none`
  pub created_at : Option ℕ
  pub updated_at : Option ℕ
  pub turns : ℕ
  pub last_input : Option Text
  pub last_output : Option Text

-- The code units of `\s`, which are also those that `trim` removes.
abbrev pub is_space : ℕ → Bool
is_space c =
    (leb 9 c && leb c 13)
    || c == 32
    || c == 160
    || c == 5760
    || (leb 8192 c && leb c 8202)
    || c == 8232
    || c == 8233
    || c == 8239
    || c == 8287
    || c == 12288
    || c == 65279

-- `text.replace(/\s+/g, ' ')`; the flag says that the unit before was a space.
unfoldable pub collapse : Bool → Text → Text
collapse run [] = []
collapse run (c ∷ text) = elim (is_space c) [
  | true ↦ elim run [ true ↦ collapse true text | false ↦ 32 ∷ collapse true text ]
  | false ↦ c ∷ collapse false text
]

unfoldable pub trim_start : Text → Text
trim_start [] = []
trim_start (c ∷ text) = elim (is_space c) [ true ↦ trim_start text | false ↦ c ∷ text ]

unfoldable pub trim_end : Text → Text
trim_end [] = []
trim_end (c ∷ text) = elim (trim_end text) [
  | [] ↦ if is_space c then [] else c ∷ []
  | d ∷ rest ↦ c ∷ d ∷ rest
]

unfoldable pub trim : Text → Text
trim text = trim_end (trim_start text)

unfoldable pub clip_preview : Text → ℕ → Text
unfolding collapse trim
clip_preview text max =
    let flat = trim (collapse false text) in
    if leb (length flat) max then flat else take max flat ++ 8230 ∷ []

-- `text.trim() !== ''`
unfoldable pub is_meaningful : Text → Bool
unfolding trim
is_meaningful text = elim (trim text) [ [] ↦ false | _ ∷ _ ↦ true ]

-- `New thread` and `Web conversation`
abbrev pub new_title : Text
new_title = 78 ∷ 101 ∷ 119 ∷ 32 ∷ 116 ∷ 104 ∷ 114 ∷ 101 ∷ 97 ∷ 100 ∷ []

abbrev pub web_title : Text
web_title =
    87 ∷ 101 ∷ 98 ∷ 32 ∷ 99 ∷ 111 ∷ 110 ∷ 118 ∷ 101 ∷ 114 ∷ 115 ∷ 97 ∷ 116 ∷ 105 ∷ 111 ∷ 110 ∷ []

unfoldable pub note_input : Option Text → ThreadSummary → ThreadSummary
unfolding is_meaningful
note_input none s = s
note_input (some input) s =
    if is_meaningful input then record s { last_input = some (clip_preview input 160) } else s

unfoldable pub note_output : MessageRole → Text → ThreadSummary → ThreadSummary
unfolding is_meaningful
note_output MessageRole.assistant content s =
    if is_meaningful content then record s { last_output = some (clip_preview content 160) } else s
note_output _ content s = s

unfoldable pub note_item : ItemPayload → ThreadSummary → ThreadSummary
unfolding note_output
note_item (message p) s = note_output p.role p.content s
note_item _ s = s

unfoldable pub note_body : ThreadBody → ThreadSummary → ThreadSummary
unfolding note_input note_item
note_body (thread_created thread) s = record s {
  title = thread.title;
  created_at = some thread.created_at;
}
note_body (thread_renamed []) s = s
note_body (thread_renamed (c ∷ title)) s = record s { title = c ∷ title }
note_body (turn_started turn) s = note_input turn.input (record s { turns = suc s.turns })
note_body (item_completed item) s = note_item item.payload s
note_body _ s = s

-- One pass of the inner loop.
unfoldable pub note_event : ThreadSummary → StoredEvent ThreadBody → ThreadSummary
unfolding note_body
note_event s row = note_body row.body (record s { updated_at = some row.event_time })

unfoldable pub note_events : ThreadSummary → List (StoredEvent ThreadBody) → ThreadSummary
unfolding note_event
note_events s [] = s
note_events s (row ∷ rows) = note_events (note_event s row) rows

-- A conversation with no title of its own is named from its last input.
unfoldable pub named : ThreadSummary → ThreadSummary
unfolding same_text clip_preview
named s = elim s.last_input [
  | none ↦ s
  | some input ↦
      if same_text s.title new_title || same_text s.title web_title
      then record s { title = clip_preview input 24 }
      else s
]

abbrev pub blank_summary : String → ThreadSummary
blank_summary id = record {
  id = id;
  title = new_title;
  created_at = none;
  updated_at = none;
  turns = 0;
  last_input = none;
  last_output = none;
}

-- `streamId.slice('thread:'.length)`
abbrev pub thread_of_stream : String → String
thread_of_stream stream_id = slice stream_id 7 (len stream_id)

unfoldable pub summarize : Db ThreadBody → String → ThreadSummary
unfolding note_events named
summarize db stream_id =
    named (note_events (blank_summary (thread_of_stream stream_id)) (read_stream db stream_id 0))

-- `''` comes before every instant.
abbrev pub not_earlier : Option ℕ → Option ℕ → Bool
not_earlier _ none = true
not_earlier none (some b) = false
not_earlier (some a) (some b) = leb b a

abbrev pub newest_first : ThreadSummary → ThreadSummary → Bool
newest_first a b = not_earlier a.updated_at b.updated_at

-- `listThreadSummaries`. The comparator gives -1 on equal times in both directions, so the order
-- among those is up to the implementation; here it is that of the streams.
unfoldable pub list_thread_summaries : Db ThreadBody → List ThreadSummary
unfolding summarize
list_thread_summaries db =
    sort_by newest_first
      (map (summarize db) (filter (λ stream. has_prefix stream "thread:") (list_streams db)))
