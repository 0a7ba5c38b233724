-- ===== src/Sse/Chunks.antt =====
-- However the stream is cut into chunks, the frames are the same.
use bee_agent.Prelude.{
  ℕ, zero, suc, ◌+◌, ◌≤◌, ◌≡◌, refl, sym, ap, ◌∙◌, subst, Option, none, some, List, [], ◌∷◌, ◌++◌,
  arith, length, Option-cases, inl, inr, take, drop,
}
use mathlib.Core.List.{append_assoc, append-nil}
use bee_agent.Prelude.Units.{Text}
use bee_agent.Sse.{
  FrameBoundary, SseFrame, drain, drained, find_frame_boundary, parse_frame, parse_sse_stream,
  read_chunks, yield_frame,
}
use bee_agent.Sse.Boundary.{find_frame_boundary-append, find_frame_boundary-length}

take-append : (n : ℕ) (s t : Text) → n ≤ length s → take n (s ++ t) ≡ take n s
take-append zero s t h = refl
take-append (suc n) [] t h = ground arith
take-append (suc n) (c ∷ s) t h = ap (λ r. c ∷ r) (take-append n s t (omega (arith, h)))

drop-append : (n : ℕ) (s t : Text) → n ≤ length s → drop n (s ++ t) ≡ drop n s ++ t
drop-append zero s t h = refl
drop-append (suc n) [] t h = ground arith
drop-append (suc n) (c ∷ s) t h = drop-append n s t (omega (arith, h))

length-drop : (n : ℕ) (s : Text) → n ≤ length s → length (drop n s) + n ≡ length s
length-drop zero s h = omega arith
length-drop (suc n) [] h = omega arith
length-drop (suc n) (c ∷ s) h = omega (arith, length-drop n s (omega (arith, h)))

-- One more round, where there is a boundary.
round : FrameBoundary → Text → List SseFrame × Text → List SseFrame × Text
round b s rest = (yield_frame (parse_frame (take b.index s)) rest.0, rest.1)

last_round : (n : ℕ) (s : Text) → find_frame_boundary s ≡ none → drain n s ≡ ([], s)
unfolding drain
last_round zero s h = refl
last_round (suc n) s h = rw (drain, h) refl

one_round :
    (n : ℕ) (s : Text) (b : FrameBoundary)
    → find_frame_boundary s ≡ some b
    → drain (suc n) s ≡ round b s (drain n (drop b.end s))
unfolding drain round
one_round n s b h = rw (drain, h) refl

-- What a boundary leaves is shorter.
shorter :
    (s : Text) (b : FrameBoundary) (n : ℕ)
    → find_frame_boundary s ≡ some b
    → length s ≤ suc n
    → length (drop b.end s) ≤ n
shorter s b n h room =
    let (past, inside) = find_frame_boundary-length s b h in
    omega (arith, past, inside, room, length-drop b.end s inside)

empty_none : (s : Text) → length s ≤ 0 → find_frame_boundary s ≡ none
empty_none s room = elim (Option-cases (find_frame_boundary s)) [
  | inl h ↦ h
  | inr (b, h) ↦ let (past, inside) = find_frame_boundary-length s b h in ground arith
]

-- The rounds are the same on any fuel that is no less than the length.
drain_fuel : (n m : ℕ) (s : Text) → length s ≤ n → length s ≤ m → drain n s ≡ drain m s
drain_fuel zero m s hn hm = let h = empty_none s hn in last_round zero s h ∙ sym (last_round m s h)
drain_fuel (suc n) zero s hn hm =
    let h = empty_none s hm in last_round (suc n) s h ∙ sym (last_round zero s h)
drain_fuel (suc n) (suc m) s hn hm = elim (Option-cases (find_frame_boundary s)) [
  | inl h ↦ last_round (suc n) s h ∙ sym (last_round (suc m) s h)
  | inr (b, h) ↦
      one_round n s b h
      ∙ ap (round b s) (drain_fuel n m (drop b.end s) (shorter s b n h hn) (shorter s b m h hm))
      ∙ sym (one_round m s b h)
]

next_round :
    (s : Text) (b : FrameBoundary)
    → find_frame_boundary s ≡ some b
    → drained s ≡ round b s (drained (drop b.end s))
next_round s b h =
    drain_fuel (length s) (suc (length s)) s (omega arith) (omega arith)
    ∙ one_round (length s) s b h
    ∙ ap (round b s) (
        drain_fuel (length s) (length (drop b.end s)) (drop b.end s)
          (shorter s b (length s) h (omega arith)) (omega arith))

-- The loop over what another left, with more text.
go_on : List SseFrame × Text → Text → List SseFrame × Text
go_on d t = (d.0 ++ (drained (d.1 ++ t)).0, (drained (d.1 ++ t)).1)

yield_frame-append :
    (f : Option SseFrame) (xs ys : List SseFrame)
    → yield_frame f xs ++ ys ≡ yield_frame f (xs ++ ys)
yield_frame-append none xs ys = refl
yield_frame-append (some f) xs ys = refl

round-go_on :
    (b : FrameBoundary) (s t : Text) (d : List SseFrame × Text)
    → b.index ≤ length s
    → round b (s ++ t) (go_on d t) ≡ go_on (round b s d) t
unfolding round go_on
round-go_on b s t d h =
    rw
      (
        take-append b.index s t h,
        yield_frame-append (parse_frame (take b.index s)) d.0 (drained (d.1 ++ t)).0,
      )
      refl

drained-append : (n : ℕ) (s t : Text) → length s ≤ n → drained (s ++ t) ≡ go_on (drained s) t
unfolding go_on
drained-append zero s t room =
    let h = empty_none s room in ap (λ d. go_on d t) (sym (last_round (length s) s h))
drained-append (suc n) s t room = elim (Option-cases (find_frame_boundary s)) [
  | inl h ↦ ap (λ d. go_on d t) (sym (last_round (length s) s h))
  | inr (b, h) ↦
      let (past, inside) = find_frame_boundary-length s b h in
      next_round (s ++ t) b (find_frame_boundary-append s t b h)
      ∙ ap (λ x. round b (s ++ t) (drained x)) (drop-append b.end s t inside)
      ∙ ap (round b (s ++ t)) (drained-append n (drop b.end s) t (shorter s b n h room))
      ∙ round-go_on b s t (drained (drop b.end s)) (omega (arith, past, inside))
      ∙ ap (λ d. go_on d t) (sym (next_round s b h))
]

round_rest :
    (b : FrameBoundary) (s : Text) (d : List SseFrame × Text)
    → find_frame_boundary d.1 ≡ none
    → find_frame_boundary (round b s d).1 ≡ none
unfolding round
round_rest b s d h = h

drained_rest : (n : ℕ) (s : Text) → length s ≤ n → find_frame_boundary (drained s).1 ≡ none
drained_rest zero s room =
    let h = empty_none s room in
    subst (λ d. find_frame_boundary d.1 ≡ none) (sym (last_round (length s) s h)) h
drained_rest (suc n) s room = elim (Option-cases (find_frame_boundary s)) [
  | inl h ↦ subst (λ d. find_frame_boundary d.1 ≡ none) (sym (last_round (length s) s h)) h
  | inr (b, h) ↦
      subst (λ d. find_frame_boundary d.1 ≡ none) (sym (next_round s b h))
        (round_rest b s (drained (drop b.end s))
          (drained_rest n (drop b.end s) (shorter s b n h room)))
]

abbrev pub joined : List Text → Text
joined [] = []
joined (chunk ∷ chunks) = chunk ++ joined chunks

-- What a stream yields in all, from what the loop over its text gives.
finish : Text → List SseFrame × Text → List SseFrame
finish flushed d = d.0 ++ yield_frame (parse_frame (d.1 ++ flushed)) []

whole : Text → Text → List SseFrame
whole text flushed = finish flushed (drained text)

finish-go_on :
    (flushed t : Text) (d : List SseFrame × Text)
    → d.0 ++ finish flushed (drained (d.1 ++ t)) ≡ finish flushed (go_on d t)
unfolding finish go_on
finish-go_on flushed t d = sym (append_assoc d.0 (drained (d.1 ++ t)).0 _)

read_chunks-whole :
    (buffer : Text) (chunks : List Text) (flushed : Text)
    → find_frame_boundary buffer ≡ none
    → read_chunks buffer chunks flushed ≡ whole (buffer ++ joined chunks) flushed
unfolding read_chunks whole finish
read_chunks-whole buffer [] flushed h =
    rw (append-nil buffer, last_round (length buffer) buffer h) refl
read_chunks-whole buffer (chunk ∷ chunks) flushed h =
    let d = drained (buffer ++ chunk) in
    ap (λ frames. d.0 ++ frames)
      (read_chunks-whole d.1 chunks flushed
        (drained_rest (length (buffer ++ chunk)) (buffer ++ chunk) (omega arith)))
    ∙ finish-go_on flushed (joined chunks) d
    ∙ ap (finish flushed) (
        sym (
          drained-append (length (buffer ++ chunk)) (buffer ++ chunk) (joined chunks)
            (omega arith)))
    ∙ ap (λ text. whole text flushed) (append_assoc buffer chunk (joined chunks))

-- The frames of a stream do not depend on how its text is cut into chunks: they are those of the
-- text in one chunk. The inner loop ends because no boundary is left in the buffer, not because its
-- fuel is spent.
pub parse_sse_stream-joined :
    (chunks : List Text) (flushed : Text)
    → (parse_sse_stream chunks flushed ≡ parse_sse_stream (joined chunks ∷ []) flushed)
      × ((buffer : Text) → find_frame_boundary (drained buffer).1 ≡ none)
unfolding parse_sse_stream
parse_sse_stream-joined chunks flushed = (
  read_chunks-whole [] chunks flushed (empty_none [] (omega arith))
      ∙ ap (λ text. whole text flushed) (sym (append-nil (joined chunks)))
      ∙ sym (read_chunks-whole [] (joined chunks ∷ []) flushed (empty_none [] (omega arith))),
  λ buffer. drained_rest (length buffer) buffer (omega arith),
)
