-- ===== src/Requests/Streams.antt =====
-- The streams of an `Endpoint` in src/request.rs, each with whether it is the stream of its starts.
use pewpew.Prelude.{Bool, true, false, List, [], ◌∷◌, ◌++◌}

unfoldable pub add_start_stream : {S : Type 0} → S → List (Bool × S) → List (Bool × S)
add_start_stream stream [] = (true, stream) ∷ []
add_start_stream stream ((true, s) ∷ streams) = (true, stream) ∷ streams
add_start_stream stream ((false, s) ∷ streams) = ((false, s) ∷ streams) ++ (true, stream) ∷ []
