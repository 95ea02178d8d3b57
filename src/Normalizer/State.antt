-- ===== src/Normalizer/State.antt =====
-- The events that `PydanticAINormalizer` (responses_core/normalizer.py) gets from pydantic_ai, and
-- its state. What pydantic_ai computes of a part or a result (`args_as_json_str`, `args_as_dict`,
-- `model_response_str`) is a field of it.
use vllm_responses.Prelude.{ℕ, ◌==◌, Text, Option, none, some, List, [], ◌∷◌, if◌then◌else◌}
use vllm_responses.Prelude.Dict
use vllm_responses.Prelude.Dict.{Dict}
use vllm_responses.Prelude.Result.{Result, ok, err}
use vllm_responses.CodeArgs.{CodeJsonArgsExtractor, feed}
use vllm_responses.Json.{Json, JsonObject, JsonCodec}
use vllm_responses.Events.{NormalizedEvent, code_interpreter_call_code_delta}
use vllm_responses.Mcp.{McpToolRef}
use vllm_responses.Mcp.Results.{ResultValidation}

pub record ToolCallPart : Type 0 where
  pub tool_name : Text
  pub tool_call_id : Text
  pub args_as_json_str : Text
  -- `none` if it raises
  pub args_as_dict : Option JsonObject

pub data Part : Type 0 where
  text_part : Text → Part
  -- content, provider details
  thinking_part : Text → Option Json → Part
  tool_call_part : ToolCallPart → Part
  other_part : Part

-- A change of the provider details: a dict to merge, or a function of the old ones.
pub data DetailsDelta : Type 0 where
  merged : JsonObject → DetailsDelta
  callable : (Option Json → Json) → DetailsDelta

pub data ArgsDelta : Type 0 where
  fragment : Text → ArgsDelta
  arguments : JsonObject → ArgsDelta

pub record ToolCallPartDelta : Type 0 where
  pub tool_call_id : Option Text
  pub args_delta : Option ArgsDelta

pub data PartDelta : Type 0 where
  text_delta : Text → PartDelta
  thinking_delta : Option Text → Option DetailsDelta → PartDelta
  tool_call_delta : ToolCallPartDelta → PartDelta

pub record ToolReturnPart : Type 0 where
  pub tool_name : Text
  pub content : Json
  pub model_response_str : Text

pub data ToolResult : Type 0 where
  tool_return : ToolReturnPart → ToolResult
  retry_prompt : Option Text → ToolResult

pub data ModelMessage : Type 0 where
  model_request : ModelMessage
  -- finish reason
  model_response : Option Text → ModelMessage

pub record RunUsage : Type 0 where
  pub input_tokens : ℕ
  pub output_tokens : ℕ
  pub total_tokens : ℕ
  pub cache_read_tokens : ℕ
  pub cache_write_tokens : ℕ
  pub details : Dict ℕ

pub data AgentEvent : Type 0 where
  part_start : ℕ → Part → AgentEvent
  part_delta : ℕ → PartDelta → AgentEvent
  part_end : ℕ → Part → AgentEvent
  -- tool name, tool call id
  function_tool_call : Text → Text → AgentEvent
  -- tool call id, result
  function_tool_result : Text → ToolResult → AgentEvent
  agent_run_result : RunUsage → List ModelMessage → AgentEvent
  other_event : AgentEvent

pub data PartKind : Type 0 where
  text_tool_call_probe message reasoning mcp_call web_search_call : PartKind
  code_interpreter_call custom_tool_call function_call : PartKind

-- `WebSearchToolResult.action`
pub data WebSearchActionPublic : Type 0 where
  search : Text → Option (List Text) → Option (List (Dict Text)) → WebSearchActionPublic
  open_page : Option Text → WebSearchActionPublic
  find_in_page : Option Text → Text → WebSearchActionPublic

-- The arguments of the constructor. Without `codex_compat` its two collections are empty.
pub record Config : Type 0 where
  pub builtin_tool_names : List Text
  pub code_interpreter_tool_name : Text
  pub mcp_tool_name_map : Dict McpToolRef
  pub text_tool_call_probe_names : List Text
  pub named_function_tool_choice : Option Text
  pub codex_namespace_tool_map : Dict (Text × Text)
  pub codex_custom_tool_names : List Text

-- The standard library's `json`, pydantic's validations, and `str` of a JSON value.
pub record Codec : Type 0 where
  pub json : JsonCodec
  pub results : ResultValidation
  pub parse_web_search : Text → Option WebSearchActionPublic
  pub str : Json → Text

pub record Normalizer : Type 0 where
  pub index_to_item_key : List (ℕ × Text)
  pub tool_call_id_to_item_key : Dict Text
  pub item_kind : Dict PartKind
  pub code_arg_extractors : Dict CodeJsonArgsExtractor
  pub reasoning_raw_content : Dict (List Text)
  pub text_part_buffers : Dict (List Text)

abbrev pub new_normalizer : Normalizer
new_normalizer = record {
  index_to_item_key = [];
  tool_call_id_to_item_key = [];
  item_kind = [];
  code_arg_extractors = [];
  reasoning_raw_content = [];
  text_part_buffers = [];
}

-- `stuck_extractor` stands for an extractor that runs out of fuel.
pub data NormalizerError : Type 0 where
  invalid_arguments invalid_web_search_result stuck_extractor : NormalizerError

-- What `list(generator)` gives: the state, and the events or the exception.
abbrev pub Handled : Type 0
Handled = Normalizer × Result NormalizerError (List NormalizedEvent)

abbrev pub yields : Normalizer → List NormalizedEvent → Handled
yields n events = (n, ok events)

-- `self._index_to_item_key.get(index)` and the assignment to it
unfoldable pub get_index {ℓ} : {V : Type ℓ} → List (ℕ × V) → ℕ → Option V
get_index [] i = none
get_index ((j, v) ∷ d) i = if j == i then some v else get_index d i

unfoldable pub put_index {ℓ} : {V : Type ℓ} → List (ℕ × V) → ℕ → V → List (ℕ × V)
put_index [] i v = (i, v) ∷ []
put_index ((j, w) ∷ d) i v = if j == i then (i, v) ∷ d else (j, w) ∷ put_index d i v

abbrev pub set_kind : Text → PartKind → Normalizer → Normalizer
set_kind key kind n = record n { item_kind = Dict.put n.item_kind key kind }

-- `if text: yield event`
abbrev pub unless_empty : Text → NormalizedEvent → List NormalizedEvent
unless_empty [] event = []
unless_empty (c ∷ s) event = event ∷ []

abbrev pub put_extractor : Text → CodeJsonArgsExtractor → Normalizer → Normalizer
put_extractor key extractor n = record n {
  code_arg_extractors = Dict.put n.code_arg_extractors key extractor;
}

-- A fragment of the arguments goes into the item's extractor, the code that it gives out.
unfoldable pub feed_extractor : Text → CodeJsonArgsExtractor → Text → Normalizer → Handled
feed_extractor key extractor raw n = elim (feed extractor raw) [
  | none ↦ (n, err stuck_extractor)
  | some (extractor', code) ↦
      yields (put_extractor key extractor' n)
        (unless_empty code (code_interpreter_call_code_delta key code))
]

-- An event yielded before the others
abbrev pub first : NormalizedEvent → Handled → Handled
first event (n, ok events) = (n, ok (event ∷ events))
first event (n, err e) = (n, err e)
