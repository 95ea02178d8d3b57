-- ===== src/Normalizer.antt =====
-- `PydanticAINormalizer` of responses/python/vllm_responses/responses_core/normalizer.py: the
-- normalized events from the events of pydantic_ai.
pub mod State
pub mod Reasoning
pub mod TextCalls
pub mod Thinking
pub mod Starts
pub mod Deltas
pub mod Ends
pub mod Outcomes
pub mod Shapes
pub mod Held
pub mod Scoping
mod Tests
use vllm_responses.Prelude.{Option, List, [], ◌∷◌, ◌++◌}
use vllm_responses.Prelude.Result.{Result, ok, err}
use vllm_responses.Events.{NormalizedEvent, usage_final}
use vllm_responses.Normalizer.State.{
  AgentEvent, Normalizer, NormalizerError, Config, Codec, Handled, part_start, part_delta, part_end,
  function_tool_call, function_tool_result, agent_run_result, other_event, yields,
}
use vllm_responses.Normalizer.Starts.{on_part_start}
use vllm_responses.Normalizer.Deltas.{on_part_delta}
use vllm_responses.Normalizer.Ends.{on_part_end}
use vllm_responses.Normalizer.Outcomes.{
  on_function_tool_call, on_function_tool_result, usage_final_of,
}

-- The loop over the stream: the events that were handed on, and the state or the exception.
pub record Normalized : Type 0 where
  pub events : List NormalizedEvent
  pub result : Result NormalizerError Normalizer

-- The events of one step before those of the rest
abbrev pub and_then : List NormalizedEvent → Normalized → Normalized
and_then events rest = record { events = events ++ rest.events; result = rest.result }

-- An exception ends the loop.
unfoldable pub then_rest : Handled → (Normalizer → Normalized) → Normalized
then_rest (n, err e) rest = record { events = []; result = err e }
then_rest (n, ok out) rest = and_then out (rest n)

module _ (config : Config) (codec : Codec) where
  unfoldable pub on_event : AgentEvent → Normalizer → Handled
  unfolding on_part_start on_part_delta on_part_end on_function_tool_call on_function_tool_result
      usage_final_of
  on_event (part_start index part) n = on_part_start config index part n
  on_event (part_delta index delta) n = on_part_delta codec index delta n
  on_event (part_end index part) n = on_part_end config codec index part n
  on_event (function_tool_call tool_name call_id) n =
      on_function_tool_call config tool_name call_id n
  on_event (function_tool_result call_id result) n =
      on_function_tool_result codec config call_id result n
  on_event (agent_run_result usage messages) n =
      yields n (usage_final (usage_final_of usage messages) ∷ [])
  on_event other_event n = yields n []

  unfoldable pub normalize_all : List AgentEvent → Normalizer → Normalized
  unfolding on_event then_rest
  normalize_all [] n = record { events = []; result = ok n }
  normalize_all (event ∷ events) n = then_rest (on_event event n) (λ n1. normalize_all events n1)
