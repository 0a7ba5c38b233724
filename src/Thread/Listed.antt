-- ===== src/Thread/Listed.antt =====
-- The list of conversations: every thread once with what its stream says, newest first.
use Prim.Native.String.{slice}
use text.Mathlib.TextPositions.{len-append, slice-append_right}
use bee_agent.Prelude.{
  ℕ, String, ◌≡◌, refl, sym, ap, ◌∙◌, subst, inl, inr, Bool, true, false, ◌||◌, Option, none, some,
  or_else, List, [], ◌∷◌, arith, if◌then◌else◌, filter, map, Bool-cases, Member, Member-filter,
}
use bee_agent.Prelude.Text.{◌⧺◌, has_prefix, has_prefix-append, prefix_rest}
use bee_agent.Prelude.Units.{same_text}
use bee_agent.Prelude.Sort.{IsSorted, sort-IsSorted, Member-sort}
use bee_agent.Chronicle.{Db, list_streams, rows}
use bee_agent.Chronicle.Appending.{IsChronicle}
use bee_agent.Chronicle.Reading.{read_stream-drop}
use bee_agent.Prelude.Units.{Text}
use bee_agent.Thread.Protocol.{ThreadBody}
use bee_agent.Thread.Build.{thread_stream_id}
use bee_agent.Thread.Summary.{
  ThreadSummary, blank_summary, clip_preview, list_thread_summaries, named, newest_first, new_title,
  not_earlier, summarize, thread_of_stream, web_title,
}
use bee_agent.Thread.Described.{
  created_in, input_in, latest, note_events-read_off, output_in, over, read_off, title_in, turns_of,
}

-- A conversation that still has a title of the code's own.
abbrev pub untitled : Text → Bool
untitled title = same_text title new_title || same_text title web_title

abbrev pub shown_title : Text → Option Text → Text
shown_title title none = title
shown_title title (some input) = if untitled title then clip_preview input 24 else title

-- What a summary says of the thread `t`: its last title, or the start of its last input where it has
-- none of its own, when it was created and last written to, how many turns it started, and the last
-- input and answer that are not blank.
pub record Shows (db : Db ThreadBody) (t : String) (s : ThreadSummary) : Type 0 where
  pub id : s.id ≡ t
  pub title :
      s.title
      ≡ shown_title
          (or_else (latest (λ row. title_in row.body) (rows db (thread_stream_id t))) new_title)
          s.last_input
  pub created : s.created_at ≡ latest (λ row. created_in row.body) (rows db (thread_stream_id t))
  pub updated : s.updated_at ≡ latest (λ row. some row.event_time) (rows db (thread_stream_id t))
  pub turns : s.turns ≡ turns_of (rows db (thread_stream_id t))
  pub input : s.last_input ≡ latest (λ row. input_in row.body) (rows db (thread_stream_id t))
  pub output : s.last_output ≡ latest (λ row. output_in row.body) (rows db (thread_stream_id t))

thread_of_stream-thread_stream_id : (t : String) → thread_of_stream (thread_stream_id t) ≡ t
unfolding thread_stream_id
thread_of_stream-thread_stream_id t =
    ap (slice ("thread:" ⧺ t) 7) (len-append "thread:" t) ∙ slice-append_right "thread:" t

over-none : {A : Type 0} (x : Option A) → over x none ≡ x
over-none none = refl
over-none (some a) = refl

named_at :
    (s : ThreadSummary) (last : Option Text)
    → ◌≡◌ {A = ThreadSummary}
        (elim last [
          | none ↦ s
          | some input ↦ if untitled s.title then record s { title = clip_preview input 24 } else s
        ])
        (record s { title = shown_title s.title last })
named_at s none = refl
named_at s (some input) = elim (Bool-cases (untitled s.title)) [
  | inl u ↦ rw u refl
  | inr u ↦ rw u refl
]

named_lem : (s : ThreadSummary) → named s ≡ record s { title = shown_title s.title s.last_input }
unfolding named
named_lem s = named_at s s.last_input

module _ (db : Db ThreadBody) (v : IsChronicle db) where
  summarize_lem :
      (t : String)
      → summarize db (thread_stream_id t)
        ≡ named (read_off (rows db (thread_stream_id t)) (blank_summary t))
  unfolding summarize
  summarize_lem t =
      rw (thread_of_stream-thread_stream_id t, read_stream-drop db (thread_stream_id t) 0 v)
        (ap named (note_events-read_off (rows db (thread_stream_id t)) (blank_summary t)))

  summarize-Shows : (t : String) → Shows db t (summarize db (thread_stream_id t))
  summarize-Shows t =
      let log = rows db (thread_stream_id t) in
      let e = summarize_lem t ∙ named_lem (read_off log (blank_summary t)) in
      subst (Shows db t) (sym e) (record {
        id = refl;
        title = refl;
        created = over-none (latest (λ row. created_in row.body) log);
        updated = over-none (latest (λ row. some row.event_time) log);
        turns = omega arith;
        input = over-none (latest (λ row. input_in row.body) log);
        output = over-none (latest (λ row. output_in row.body) log);
      })

module _ {A B : Type 0} (f : A → B) where
  Member-map : (x : A) (xs : List A) → Member x xs → Member (f x) (map f xs)
  Member-map x [] m = absurd m
  Member-map x (y ∷ ys) (inl e) = inl (ap f e)
  Member-map x (y ∷ ys) (inr m) = inr (Member-map x ys m)

  Member-of_map : (z : B) (xs : List A) → Member z (map f xs) → (x : A) × Member x xs × (z ≡ f x)
  Member-of_map z [] m = absurd m
  Member-of_map z (y ∷ ys) (inl e) = (y, inl refl, e)
  Member-of_map z (y ∷ ys) (inr m) = let (x, m', e) = Member-of_map z ys m in (x, inr m', e)

not_earlier-total : (a b : Option ℕ) → not_earlier a b ≡ false → not_earlier b a ≡ true
not_earlier-total none none h = cc
not_earlier-total (some a) none h = cc
not_earlier-total none (some b) h = refl
not_earlier-total (some a) (some b) h = ground arith

not_earlier_trans :
    (a b c : Option ℕ) → not_earlier a b ≡ true → not_earlier b c ≡ true → not_earlier a c ≡ true
not_earlier_trans a b none h k = refl
not_earlier_trans a none (some c) h k = cc
not_earlier_trans none (some b) (some c) h k = cc
not_earlier_trans (some a) (some b) (some c) h k = ground arith

-- The list of all threads.
pub record Listed (db : Db ThreadBody) (summaries : List ThreadSummary) : Type 0 where
  pub sorted : IsSorted newest_first summaries
  pub shown :
      (s : ThreadSummary)
      → Member s summaries
      → (t : String) × Member (thread_stream_id t) (list_streams db) × Shows db t s
  pub complete :
      (t : String)
      → Member (thread_stream_id t) (list_streams db)
      → (s : ThreadSummary) × Member s summaries × Shows db t s

-- In a database whose tables agree, the list of conversations has a summary of every thread's
-- stream and of nothing else, each with what the stream says, the last written first.
pub list_thread_summaries-Listed :
    (db : Db ThreadBody) → IsChronicle db → Listed db (list_thread_summaries db)
unfolding list_thread_summaries thread_stream_id
list_thread_summaries-Listed db v =
    let threads = filter (λ stream. has_prefix stream "thread:") (list_streams db) in
    let unsorted = map (summarize db) threads in
    record {
      sorted =
          sort-IsSorted newest_first (λ x y. not_earlier-total x.updated_at y.updated_at)
            (λ x y z. not_earlier_trans x.updated_at y.updated_at z.updated_at) unsorted;
      shown = λ s m.
          let (stream, among, e) =
            Member-of_map (summarize db) s threads ((Member-sort newest_first unsorted s).0 m) in
          let (listed, prefixed) = (Member-filter _ (list_streams db) stream).0 among in
          let (t, q) = prefix_rest stream "thread:" prefixed in
          (
            t,
            subst (λ x. Member x (list_streams db)) q listed,
            subst (Shows db t) (sym (e ∙ ap (summarize db) q)) (summarize-Shows db v t),
          );
      complete = λ t m.
          let kept =
            (Member-filter (λ stream. has_prefix stream "thread:") (list_streams db)
                (thread_stream_id t)).1
              (m, has_prefix-append "thread:" t) in
          (
            summarize db (thread_stream_id t),
            (Member-sort newest_first unsorted _).1
                (Member-map (summarize db) (thread_stream_id t) threads kept),
            summarize-Shows db v t,
          );
    }
