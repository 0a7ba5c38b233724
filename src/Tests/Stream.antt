-- ===== src/Tests/Stream.antt =====
-- Instances of the theorems on event streams.
use bee_agent.Prelude.{◌≡◌, refl, none, some, List, [], ◌∷◌, ◌++◌}
use bee_agent.Prelude.Units.{Text, units}
use bee_agent.Sse.{drained, find_frame_boundary, parse_sse_stream}
use bee_agent.Sse.Chunks.{joined, parse_sse_stream-joined}

-- The first boundary is cut in two.
abbrev pieces : List Text
pieces =
    (units "id: 7" ++ 10 ∷ units "data:a" ++ 13 ∷ 10 ∷ [])
    ∷ (13 ∷ 10 ∷ units "data: b" ++ 10 ∷ units "data: c" ++ 10 ∷ 10 ∷ units ":x")
    ∷ []

parsed :
    parse_sse_stream pieces []
    ≡ record { id = some (units "7"); event = none; data_text = units "a" }
      ∷ record { id = none; event = none; data_text = units "b" ++ 10 ∷ units "c" }
      ∷ []
unfolding parse_sse_stream
parsed = refl

parse_sse_stream-joined_example :
    (parse_sse_stream pieces [] ≡ parse_sse_stream (joined pieces ∷ []) [])
    × ((buffer : Text) → find_frame_boundary (drained buffer).1 ≡ none)
parse_sse_stream-joined_example = parse_sse_stream-joined pieces []
