-- ===== src/Engine/Tests.antt =====
-- A stream of the engine: a text, a tool call and the result of the run; and one that fails.
use vllm_responses.Prelude.{◌≡◌, refl, inl, false, none, some, List, [], ◌∷◌, map, length, codes}
use vllm_responses.Json.{end}
use vllm_responses.Prelude.Result.{err}
use vllm_responses.Items.{ResponsesResponse}
use vllm_responses.Composer.State.{Environment, ReasoningEventFormat}
use vllm_responses.Composer.Numbering.{count_up}
use vllm_responses.Normalizer.State.{
  AgentEvent, ToolCallPart, RunUsage, Config, Codec, text_part, tool_call_part, text_delta,
  part_start, part_delta, part_end,
}
use vllm_responses.Normalizer.Shapes.{well_formed}
use vllm_responses.Engine.Failures.{unexpected_behavior}
use vllm_responses.Engine.{Upstream, reported, iter_responses_events_stream}
use vllm_responses.Engine.Numbering.{number_of, iter_responses_events_stream-numbers}
use vllm_responses.Engine.Streams.{Ended, iter_responses_events_stream-Ended}

abbrev env : Environment
env = record { uuid7 = λ n. n ∷ []; time = 1000; validate_source = λ d. none }

abbrev response : ResponsesResponse
response = record {
  id = codes "resp_1";
  model = codes "m";
  previous_response_id = none;
  status = none;
  output = [];
  usage = none;
  incomplete_details = none;
  completed_at = none;
}

abbrev config : Config
config = record {
  builtin_tool_names = codes "web_search" ∷ codes "code_interpreter" ∷ [];
  code_interpreter_tool_name = codes "code_interpreter";
  mcp_tool_name_map = [];
  text_tool_call_probe_names = [];
  named_function_tool_choice = none;
  codex_namespace_tool_map = [];
  codex_custom_tool_names = [];
}

abbrev codec : Codec
codec = record {
  json = record { loads = λ t. none; dumps = λ o. codes "{}" };
  results = record { model_validate = λ o. err (codes "no"); repr = λ t. t };
  parse_web_search = λ t. none;
  str = λ v. codes "?";
}

abbrev call : ToolCallPart
call = record {
  tool_name = codes "get_weather";
  tool_call_id = codes "call_1";
  args_as_json_str = codes "{}";
  args_as_dict = some end;
}

abbrev usage : RunUsage
usage = record {
  input_tokens = 1;
  output_tokens = 2;
  total_tokens = 3;
  cache_read_tokens = 0;
  cache_write_tokens = 0;
  details = [];
}

abbrev parts : List AgentEvent
parts =
    part_start 0 (text_part (codes "Hel"))
    ∷ part_delta 0 (text_delta (codes "lo"))
    ∷ part_end 0 (text_part (codes "Hello"))
    ∷ part_start 1 (tool_call_part call)
    ∷ part_end 1 (tool_call_part call)
    ∷ []

abbrev failing : Upstream
failing = record {
  events = parts;
  failure = some (reported (unexpected_behavior none (codes "cut off")));
}

iter_responses_events_stream-Ended_example : Ended failing.failure (
    iter_responses_events_stream codec config env response false false ReasoningEventFormat.openai
      failing)
unfolding well_formed
iter_responses_events_stream-Ended_example =
    iter_responses_events_stream-Ended codec config env response false false
      ReasoningEventFormat.openai failing refl refl
      (inl (reported (unexpected_behavior none (codes "cut off")), refl))

iter_responses_events_stream-numbers_example :
    let out =
      (iter_responses_events_stream codec config env response false false
        ReasoningEventFormat.openai failing).events in
    map number_of out ≡ count_up 0 (length out)
iter_responses_events_stream-numbers_example =
    iter_responses_events_stream-numbers codec config env response false false
      ReasoningEventFormat.openai failing
