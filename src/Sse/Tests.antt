-- ===== src/Sse/Tests.antt =====
-- A stream with its frames.
use vllm_responses.Prelude.{List, [], ◌∷◌, codes}
use vllm_responses.Sse.{ResponsesChunk, Framed, stream_responses_sse, stream_responses_sse-Framed}

abbrev two_events : List ResponsesChunk
two_events =
    record { type = codes "response.created"; as_responses_chunk = codes "a" }
    ∷ record { type = codes "response.completed"; as_responses_chunk = codes "b" }
    ∷ []

stream_responses_sse-Framed_example : Framed two_events (stream_responses_sse two_events)
stream_responses_sse-Framed_example = stream_responses_sse-Framed two_events
