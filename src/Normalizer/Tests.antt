-- ===== src/Normalizer/Tests.antt =====
-- Streams of parts and raw reasoning, and the theorems at them.
use vllm_responses.Prelude.{◌≡◌, refl, true, false, none, some, List, [], ◌∷◌, ◌++◌, codes, concat}
use vllm_responses.Prelude.Result.{err}
use vllm_responses.Json.{end}
use vllm_responses.Events.Scopes.{scoped}
use vllm_responses.Normalizer.State.{
  AgentEvent, ToolCallPart, Config, Codec, text_part, tool_call_part, tool_call_delta, fragment,
  part_start, part_delta, part_end, function_tool_call, function_tool_result, retry_prompt,
  new_normalizer,
}
use vllm_responses.Normalizer.Reasoning.{diff_raw_reasoning_text}
use vllm_responses.Normalizer.Shapes.{well_formed}
use vllm_responses.Normalizer.Thinking.{grown, concat-diff_raw_reasoning_text}
use vllm_responses.Normalizer.Scoping.Streams.{ends_stuck, normalize_all-scoped}
use vllm_responses.Normalizer.{normalize_all}

abbrev config : Config
config = record {
  builtin_tool_names = codes "web_search" ∷ codes "code_interpreter" ∷ [];
  code_interpreter_tool_name = codes "code_interpreter";
  mcp_tool_name_map = [];
  text_tool_call_probe_names = codes "get_weather" ∷ [];
  named_function_tool_choice = some (codes "get_weather");
  codex_namespace_tool_map = [];
  codex_custom_tool_names = [];
}

abbrev codec : Codec
codec = record {
  json = record { loads = λ t. none; dumps = λ o. codes "{}" };
  results = record { model_validate = λ o. err (codes "no"); repr = λ t. t };
  parse_web_search = λ t. none;
  str = λ v. codes "?";
}

abbrev call : ToolCallPart
call = record {
  tool_name = codes "code_interpreter";
  tool_call_id = codes "call_1";
  args_as_json_str = codes "{\"code\":\"1";
  args_as_dict = some end;
}

-- A text that is held back, and a code interpreter call whose arguments come in two fragments
abbrev parts : List AgentEvent
parts =
    part_start 0 (text_part (codes "Hi"))
    ∷ part_end 0 (text_part (codes "Hi"))
    ∷ part_start 1 (tool_call_part call)
    ∷ part_delta 1 (
        tool_call_delta
          (record { tool_call_id = none; args_delta = some (fragment (codes "+1\"}")) }))
    ∷ part_end 1 (tool_call_part call)
    ∷ function_tool_call (codes "code_interpreter") (codes "call_1")
    ∷ function_tool_result (codes "call_1") (retry_prompt (some (codes "code_interpreter")))
    ∷ []

normalize_all-scoped_example :
    let out = normalize_all config codec parts new_normalizer in
    (scoped [] out.events ≡ true) × (ends_stuck out.result ≡ false)
unfolding well_formed
normalize_all-scoped_example = normalize_all-scoped config codec parts refl refl

concat-diff_raw_reasoning_text_example :
    concat (codes "a" ∷ codes "b" ∷ [])
      ++ diff_raw_reasoning_text
          (codes "a" ∷ codes "b" ∷ [])
          (grown (codes "a" ∷ codes "b" ∷ []) (codes "c") (codes "d" ∷ []))
    ≡ concat (grown (codes "a" ∷ codes "b" ∷ []) (codes "c") (codes "d" ∷ []))
concat-diff_raw_reasoning_text_example =
    concat-diff_raw_reasoning_text (codes "a" ∷ codes "b" ∷ []) (codes "c") (codes "d" ∷ [])
