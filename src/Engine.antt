-- ===== src/Engine.antt =====
-- The streams of `LMEngine` (responses/python/vllm_responses/lm.py): the events of pydantic_ai go
-- through the normalizer into the composer, and a failure of the upstream ends the stream.
pub mod Failures
pub mod Numbering
pub mod Streams
mod Tests
use vllm_responses.Prelude.{
  ℕ, ◌+◌, Text, Bool, true, false, Option, none, some, List, [], ◌∷◌, ◌++◌, map,
}
use vllm_responses.Prelude.Result.{Result, ok, err}
use vllm_responses.Items
use vllm_responses.Items.{ResponsesResponse}
use vllm_responses.Stream.{
  StreamEvent, lifecycle, response_completed, response_incomplete, response_created,
  response_in_progress,
}
use vllm_responses.Composer.State
use vllm_responses.Composer.State.{ReasoningEventFormat, ResponseComposer, Environment, Outcome}
use vllm_responses.Composer.{new_composer, run}
use vllm_responses.Normalizer.State.{
  AgentEvent, NormalizerError, Normalizer, Config, Codec, new_normalizer,
}
use vllm_responses.Normalizer.{Normalized, normalize_all}
use vllm_responses.Engine.Failures.{ModelFailure, FailureDetails, extract_failure_details}

-- The exceptions of `run_stream_events`: `ModelHTTPError` and `UnexpectedModelBehavior`, which the
-- engine reports, and any other, such as `UsageLimitExceeded`, which it does not catch.
pub data UpstreamError : Type 0 where
  reported : ModelFailure → UpstreamError
  escaped : Text → UpstreamError

-- What `run_stream_events` yields, and the exception that it raises then.
pub record Upstream : Type 0 where
  pub events : List AgentEvent
  pub failure : Option UpstreamError

-- `OpenAIResponsesResponseError`
pub record ResponseError : Type 0 where
  pub code : Text
  pub message : Text

pub data EngineEvent : Type 0 where
  composed : StreamEvent → EngineEvent
  -- code, message, param, sequence number
  error_event : Text → Text → Text → ℕ → EngineEvent
  -- sequence number, response, its error
  response_failed : ℕ → ResponsesResponse → ResponseError → EngineEvent

-- How the generator ends: an exception that it does not report goes on to the caller.
pub data End : Type 0 where
  finished : End
  composer_raised : State.Error → End
  normalizer_raised : NormalizerError → End
  upstream_raised : Text → End

pub record Streamed : Type 0 where
  pub events : List EngineEvent
  pub end : End

-- `yield OpenAIResponsesError(...)`, then `response.failed` with the response of the composer.
unfoldable pub failure_events : FailureDetails → ResponseComposer → List EngineEvent
failure_events details s =
    error_event details.code details.message details.param s.sequence_number
    ∷ response_failed (s.sequence_number + 1) (record s.response { status = some Items.failed })
        (record { code = details.code; message = details.message })
    ∷ []

abbrev pub composed_all : List StreamEvent → List EngineEvent
composed_all events = map composed events

module _ (codec : Codec) where
  -- Behind the loop
  unfoldable pub closing : Option UpstreamError → ResponseComposer → List EngineEvent
  unfolding failure_events extract_failure_details
  closing none s = []
  closing (some (reported failure)) s = failure_events (extract_failure_details codec failure) s
  closing (some (escaped e)) s = []

  unfoldable pub end_of : Option UpstreamError → End
  end_of none = finished
  end_of (some (reported failure)) = finished
  end_of (some (escaped e)) = upstream_raised e

  -- The composer's exception comes first: the normalizer has come no further than its events.
  unfoldable pub end_stream :
      Outcome (Unit {0})
      → Result NormalizerError Normalizer
      → Option UpstreamError
      → Result State.Error (Unit {0})
      → Streamed
  unfolding closing end_of
  end_stream o normalized failure (err e) = record {
    events = composed_all o.events;
    end = composer_raised e;
  }
  end_stream o (err e) failure (ok u) = record {
    events = composed_all o.events;
    end = normalizer_raised e;
  }
  end_stream o (ok n) failure (ok u) = record {
    events = composed_all o.events ++ closing failure o.state;
    end = end_of failure;
  }

  module _ (config : Config) (env : Environment) where
    -- `_iter_responses_events_stream` behind the building of its context: the response, the two
    -- flags and the reasoning format are what the composer is made with.
    unfoldable pub iter_responses_events_stream :
        ResponsesResponse → Bool → Bool → ReasoningEventFormat → Upstream → Streamed
    unfolding end_stream
    iter_responses_events_stream response outputs sources format upstream =
        let n = normalize_all config codec upstream.events new_normalizer in
        let o = run env n.events (new_composer response outputs sources format) in
        end_stream o n.result upstream.failure o.result

-- `_tap_events`: the responses that are handed to the store, in order.
unfoldable pub tap_events : List EngineEvent → List ResponsesResponse
tap_events [] = []
tap_events (composed (lifecycle response_completed n r) ∷ events) = r ∷ tap_events events
tap_events (composed (lifecycle response_incomplete n r) ∷ events) = r ∷ tap_events events
tap_events (_ ∷ events) = tap_events events
