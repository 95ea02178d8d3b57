-- ===== src/Normalizer/Starts.antt =====
-- `_on_part_start`: a part of the model's response begins.
use vllm_responses.Prelude.{
  ℕ, Text, ◌||◌, Option, none, some, List, [], ◌∷◌, ◌++◌, codes, concat, decimal, is_empty, member,
  text_eq, if◌then◌else◌,
}
use vllm_responses.Prelude.Dict
use vllm_responses.Json.{Json}
use vllm_responses.CodeArgs.{new_extractor}
use vllm_responses.Events.{
  FunctionCallStarted, message_started, message_delta, reasoning_started, reasoning_delta,
  mcp_call_started, mcp_call_arguments_delta, web_search_call_started, custom_tool_call_started,
  code_interpreter_call_started, function_call_started, function_call_arguments_delta,
}
use vllm_responses.Mcp.{McpToolRef}
use vllm_responses.Normalizer.State.{
  Normalizer, Config, Part, ToolCallPart, PartKind, Handled, text_part, thinking_part,
  tool_call_part, other_part, yields, put_index, set_kind, unless_empty, put_extractor,
  feed_extractor, first,
}
use vllm_responses.Normalizer.Reasoning.{extract_raw_reasoning_content}

-- `WEB_SEARCH_TOOL` of tools/ids.py
abbrev pub web_search_tool : Text
web_search_tool = codes "web_search"

-- `f"part:{index}"`
abbrev pub item_key_of : ℕ → Text
item_key_of index = codes "part:" ++ decimal index

-- `_text_part_buffers[item_key] = [part.content] if part.content else []`
abbrev pub put_buffer : Text → List Text → Normalizer → Normalizer
put_buffer key buffer n = record n { text_part_buffers = Dict.put n.text_part_buffers key buffer }

abbrev pub unless_blank : Text → List Text
unless_blank [] = []
unless_blank (c ∷ s) = (c ∷ s) ∷ []

abbrev pub put_raw : Text → List Text → Normalizer → Normalizer
put_raw key raw n = record n { reasoning_raw_content = Dict.put n.reasoning_raw_content key raw }

abbrev pub put_call : Text → Text → Normalizer → Normalizer
put_call call_id key n = record n {
  tool_call_id_to_item_key = Dict.put n.tool_call_id_to_item_key call_id key;
}

module _ (config : Config) where
  -- The name, and the namespace.
  unfoldable pub codex_resolve_function_name_and_namespace : Text → Text × Option Text
  codex_resolve_function_name_and_namespace tool_name =
      elim (Dict.get config.codex_namespace_tool_map tool_name) [
        | none ↦ (tool_name, none)
        | some (namespace, name) ↦ (name, some namespace)
      ]

  unfoldable pub started_function : Text → Text → Text → FunctionCallStarted
  unfolding codex_resolve_function_name_and_namespace
  started_function key call_id tool_name = record {
    item_key = key;
    call_id = call_id;
    name = (codex_resolve_function_name_and_namespace tool_name).0;
    initial_arguments_json = [];
    namespace = (codex_resolve_function_name_and_namespace tool_name).1;
  }

  unfoldable pub start_text : Text → Text → Normalizer → Handled
  start_text key content n =
      if is_empty config.text_tool_call_probe_names
      then yields (set_kind key PartKind.message n)
          (message_started key ∷ unless_empty content (message_delta key content))
      else yields
          (put_buffer key (unless_blank content) (set_kind key PartKind.text_tool_call_probe n)) []

  -- The raw reasoning of the provider details comes before the content.
  unfoldable pub start_thinking_as : Option (List Text) → Text → Text → Normalizer → Handled
  start_thinking_as none key content n =
      yields (set_kind key PartKind.reasoning n)
        (reasoning_started key ∷ unless_empty content (reasoning_delta key content))
  start_thinking_as (some raw) key content n =
      yields (put_raw key raw (set_kind key PartKind.reasoning n))
        (reasoning_started key ∷ unless_empty (concat raw) (reasoning_delta key (concat raw)))

  unfoldable pub start_thinking : Text → Text → Option Json → Normalizer → Handled
  unfolding start_thinking_as extract_raw_reasoning_content
  start_thinking key content details n =
      start_thinking_as (extract_raw_reasoning_content details) key content n

  unfoldable pub start_mcp : Text → McpToolRef → Text → Normalizer → Handled
  start_mcp key ref arguments n = yields (set_kind key PartKind.mcp_call n) (
      mcp_call_started (record {
        item_key = key;
        server_label = ref.server_label;
        name = ref.tool_name;
        initial_arguments_json = [];
        mode = ref.mode;
      })
      ∷ unless_empty arguments (mcp_call_arguments_delta key arguments))

  unfoldable pub start_code_interpreter : Text → Text → Normalizer → Handled
  unfolding feed_extractor
  start_code_interpreter key arguments n =
      let extractor = new_extractor (codes "code") in
      let n1 = put_extractor key extractor (set_kind key PartKind.code_interpreter_call n) in
      first (code_interpreter_call_started key (some [])) (
        if is_empty arguments || text_eq arguments (codes "{}")
        then yields n1 []
        else feed_extractor key extractor arguments n1)

  unfoldable pub start_builtin : Text → ToolCallPart → Normalizer → Handled
  unfolding start_code_interpreter
  start_builtin key part n =
      if text_eq part.tool_name web_search_tool
      then yields (set_kind key PartKind.web_search_call n) (web_search_call_started key ∷ [])
      else if text_eq part.tool_name config.code_interpreter_tool_name
      then start_code_interpreter key part.args_as_json_str n
      else yields n []

  unfoldable pub start_function : Text → ToolCallPart → Normalizer → Handled
  unfolding started_function
  start_function key part n =
      if member part.tool_name config.codex_custom_tool_names
      then yields (set_kind key PartKind.custom_tool_call n) (
          custom_tool_call_started
            (record { item_key = key; call_id = part.tool_call_id; name = part.tool_name })
          ∷ [])
      else yields (set_kind key PartKind.function_call n) (
          function_call_started (started_function key part.tool_call_id part.tool_name)
          ∷ unless_empty part.args_as_json_str
              (function_call_arguments_delta key part.args_as_json_str))

  -- The reference of an MCP tool, if the name stands for one
  unfoldable pub start_tool_as : Option McpToolRef → Text → ToolCallPart → Normalizer → Handled
  unfolding start_mcp start_builtin start_function
  start_tool_as (some ref) key part n = start_mcp key ref part.args_as_json_str n
  start_tool_as none key part n =
      if member part.tool_name config.builtin_tool_names
      then start_builtin key part n
      else start_function key part n

  unfoldable pub start_tool_call : Text → ToolCallPart → Normalizer → Handled
  unfolding start_tool_as
  start_tool_call key part n =
      start_tool_as (Dict.get config.mcp_tool_name_map part.tool_name) key part
        (put_call part.tool_call_id key n)

  unfoldable pub start_part : Text → Part → Normalizer → Handled
  unfolding start_text start_thinking start_tool_call
  start_part key (text_part content) n = start_text key content n
  start_part key (thinking_part content details) n = start_thinking key content details n
  start_part key (tool_call_part part) n = start_tool_call key part n
  start_part key other_part n = yields n []

  unfoldable pub on_part_start : ℕ → Part → Normalizer → Handled
  unfolding start_part
  on_part_start index part n =
      let key = item_key_of index in
      start_part key part (record n { index_to_item_key = put_index n.index_to_item_key index key })
