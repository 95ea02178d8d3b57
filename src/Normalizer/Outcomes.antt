-- ===== src/Normalizer/Outcomes.antt =====
-- `_on_function_tool_call`, `_on_function_tool_result`, what these call, and `_usage_final`.
use vllm_responses.Prelude.{
  Text, Bool, false, Option, none, some, List, [], ◌∷◌, codes, text_eq, if◌then◌else◌,
}
use vllm_responses.Prelude.Dict
use vllm_responses.Prelude.Dict.{Dict}
use vllm_responses.Prelude.Result.{Result, ok, err}
use vllm_responses.Json.{Json, null, string, object, get_field}
use vllm_responses.Events.{
  NormalizedEvent, UsageFinal, IncompleteReason, WebSearchActionType, CodeInterpreterCallCompleted,
  max_output_tokens, content_filter, web_search_call_searching, web_search_call_completed,
  code_interpreter_call_interpreting, code_interpreter_call_completed, mcp_call_completed,
  mcp_call_failed,
}
use vllm_responses.Mcp.{McpToolRef, McpExecutionResult}
use vllm_responses.Mcp.Names.{ref_eq}
use vllm_responses.Mcp.Results.{truncate_error_text, parse_mcp_tool_result_payload, or_empty}
use vllm_responses.Normalizer.State.{
  Normalizer, Config, Codec, PartKind, ToolResult, ModelMessage, RunUsage, WebSearchActionPublic,
  Handled, invalid_web_search_result, yields, tool_return, retry_prompt, model_request,
  model_response,
}
use vllm_responses.Normalizer.Starts.{web_search_tool}
use vllm_responses.Normalizer.Deltas.{or_else}

-- `if item_key: yield event`
abbrev pub event_for : Option Text → (Text → NormalizedEvent) → List NormalizedEvent
event_for none event = []
event_for (some []) event = []
event_for (some (c ∷ s)) event = event (c ∷ s) ∷ []

-- The source of a search result as the composer gets it: its type is `url`.
abbrev pub completed_search : Text → WebSearchActionPublic → NormalizedEvent
completed_search key (WebSearchActionPublic.search query queries sources) =
    web_search_call_completed (record {
      item_key = key;
      action_type = WebSearchActionType.search;
      query = some query;
      queries = or_else queries [];
      sources = or_else sources [];
      url = none;
      pattern_text = none;
    })
completed_search key (WebSearchActionPublic.open_page url) = web_search_call_completed (record {
  item_key = key;
  action_type = WebSearchActionType.open_page;
  query = none;
  queries = [];
  sources = [];
  url = url;
  pattern_text = none;
})
completed_search key (WebSearchActionPublic.find_in_page url pattern_text) =
    web_search_call_completed (record {
      item_key = key;
      action_type = WebSearchActionType.find_in_page;
      query = none;
      queries = [];
      sources = [];
      url = url;
      pattern_text = some pattern_text;
    })

-- `_result_raw_text`
abbrev pub result_raw_text : ToolResult → Option Text
result_raw_text (tool_return part) = some part.model_response_str
result_raw_text (retry_prompt tool_name) = none

-- `event.result.tool_name`
abbrev pub result_tool_name : ToolResult → Option Text
result_tool_name (tool_return part) = some part.tool_name
result_tool_name (retry_prompt tool_name) = tool_name

abbrev pub is_tool : Option Text → Text → Bool
is_tool none tool = false
is_tool (some name) tool = text_eq name tool

-- A text that is not empty
abbrev pub filled_text : Option Json → Option Text
filled_text (some (string (c ∷ s))) = some (c ∷ s)
filled_text _ = none

abbrev pub unparsed : Text → Text → CodeInterpreterCallCompleted
unparsed key raw = record { item_key = key; stdout = none; stderr = none; result = some raw }

-- The incomplete reason of the last response of the model
unfoldable pub reason_of_reversed : List ModelMessage → Option IncompleteReason
reason_of_reversed [] = none
reason_of_reversed (model_request ∷ messages) = reason_of_reversed messages
reason_of_reversed (model_response none ∷ messages) = none
reason_of_reversed (model_response (some reason) ∷ messages) =
    if text_eq reason (codes "length")
    then some max_output_tokens
    else if text_eq reason (codes "content_filter")
    then some content_filter
    else none

abbrev pub onto : List ModelMessage → List ModelMessage → List ModelMessage
onto [] done = done
onto (m ∷ ms) done = onto ms (m ∷ done)

unfoldable pub incomplete_reason_from_model_messages : List ModelMessage → Option IncompleteReason
unfolding reason_of_reversed
incomplete_reason_from_model_messages messages = reason_of_reversed (onto messages [])

unfoldable pub usage_final_of : RunUsage → List ModelMessage → UsageFinal
unfolding incomplete_reason_from_model_messages
usage_final_of usage messages = record {
  input_tokens = usage.input_tokens;
  output_tokens = usage.output_tokens;
  total_tokens = usage.total_tokens;
  cache_read_tokens = usage.cache_read_tokens;
  cache_write_tokens = usage.cache_write_tokens;
  reasoning_tokens = or_else (Dict.get usage.details (codes "reasoning_tokens")) 0;
  incomplete_reason = incomplete_reason_from_model_messages messages;
}

module _ (codec : Codec) where
  -- The display value: a text as it is, another value as Python prints it.
  unfoldable pub display : Option Json → Option Text
  display none = none
  display (some null) = none
  display (some (string text)) = some text
  display (some value) = some (codec.str value)

  unfoldable pub output_as : Text → Text → Option Json → CodeInterpreterCallCompleted
  unfolding display
  output_as key raw (some (object fields)) = record {
    item_key = key;
    stdout = filled_text (get_field fields (codes "stdout"));
    stderr = filled_text (get_field fields (codes "stderr"));
    result = display (get_field fields (codes "result"));
  }
  output_as key raw _ = unparsed key raw

  -- The outputs of the event: stdout, stderr and result.
  unfoldable pub parse_code_interpreter_tool_output :
      Text → Option Text → CodeInterpreterCallCompleted
  unfolding output_as
  parse_code_interpreter_tool_output key none = record {
    item_key = key;
    stdout = none;
    stderr = none;
    result = none;
  }
  parse_code_interpreter_tool_output key (some []) = record {
    item_key = key;
    stdout = none;
    stderr = none;
    result = none;
  }
  parse_code_interpreter_tool_output key (some (c ∷ s)) =
      output_as key (c ∷ s) (codec.json.loads (c ∷ s))

  unfoldable pub search_result_as : Text → Option WebSearchActionPublic → Normalizer → Handled
  search_result_as key none n = (n, err invalid_web_search_result)
  search_result_as key (some action) n = yields n (completed_search key action ∷ [])

  unfoldable pub on_web_search_tool_result : Text → ToolResult → Normalizer → Handled
  unfolding search_result_as
  on_web_search_tool_result key (retry_prompt tool_name) n = yields n []
  on_web_search_tool_result key (tool_return part) n =
      search_result_as key (codec.parse_web_search part.model_response_str) n

  module _ (config : Config) where
    -- The result against the reference that the tool's name stands for.
    unfoldable pub is_expected : Text → McpToolRef → Bool
    is_expected tool_name ref = elim (Dict.get config.mcp_tool_name_map tool_name) [
      | none ↦ false
      | some expected ↦ ref_eq expected ref
    ]

    unfoldable pub mcp_outcome : Text → Text → McpToolRef → McpExecutionResult → NormalizedEvent
    unfolding is_expected truncate_error_text
    mcp_outcome key tool_name ref result =
        if is_expected tool_name ref
        then if result.ok
          then mcp_call_completed key (or_empty result.output_text)
          else mcp_call_failed key (truncate_error_text result.error_text)
        else mcp_call_failed key
            (truncate_error_text (some (codes "MCP tool returned mismatched tool ref.")))

    unfoldable pub mcp_result_as :
        Text → Text → Result Text (McpToolRef × McpExecutionResult) → NormalizedEvent
    unfolding mcp_outcome truncate_error_text
    mcp_result_as key tool_name (err message) =
        mcp_call_failed key (truncate_error_text (some message))
    mcp_result_as key tool_name (ok (ref, result)) = mcp_outcome key tool_name ref result

    unfoldable pub mcp_tool_result : Text → ToolResult → NormalizedEvent
    unfolding mcp_result_as parse_mcp_tool_result_payload
    mcp_tool_result key (retry_prompt tool_name) =
        mcp_call_failed key (codes "MCP tool returned empty result.")
    mcp_tool_result key (tool_return part) =
        mcp_result_as key part.tool_name (parse_mcp_tool_result_payload codec.results part.content)

    unfoldable pub on_tool_result : Text → ToolResult → Normalizer → Handled
    unfolding on_web_search_tool_result parse_code_interpreter_tool_output
    on_tool_result key result n =
        if is_tool (result_tool_name result) web_search_tool
        then on_web_search_tool_result key result n
        else if is_tool (result_tool_name result) config.code_interpreter_tool_name
        then yields n (
            code_interpreter_call_completed
              (parse_code_interpreter_tool_output key (result_raw_text result))
            ∷ [])
        else yields n []

    unfoldable pub tool_result_as : Text → Option PartKind → ToolResult → Normalizer → Handled
    unfolding mcp_tool_result on_tool_result
    tool_result_as key (some PartKind.mcp_call) result n =
        yields n (mcp_tool_result key result ∷ [])
    tool_result_as key _ result n = on_tool_result key result n

    unfoldable pub tool_result_for : Option Text → ToolResult → Normalizer → Handled
    unfolding tool_result_as
    tool_result_for none result n = yields n []
    tool_result_for (some key) result n = tool_result_as key (Dict.get n.item_kind key) result n

    unfoldable pub on_function_tool_result : Text → ToolResult → Normalizer → Handled
    unfolding tool_result_for
    on_function_tool_result call_id result n =
        tool_result_for (Dict.get n.tool_call_id_to_item_key call_id) result n

module _ (config : Config) where
  unfoldable pub on_function_tool_call : Text → Text → Normalizer → Handled
  on_function_tool_call tool_name call_id n =
      let key = Dict.get n.tool_call_id_to_item_key call_id in
      if text_eq tool_name config.code_interpreter_tool_name
      then yields n (event_for key code_interpreter_call_interpreting)
      else if text_eq tool_name web_search_tool
      then yields n (event_for key web_search_call_searching)
      else yields n []
