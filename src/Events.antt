-- ===== src/Events.antt =====
-- The normalized events that drive the composer:
-- responses/python/vllm_responses/responses_core/models.py.
pub mod Scopes
use vllm_responses.Prelude.{ℕ, Text, Option, List}
use vllm_responses.Prelude.Dict.{Dict}

pub record FunctionCallStarted : Type 0 where
  pub item_key : Text
  pub call_id : Text
  pub name : Text
  pub initial_arguments_json : Text
  pub namespace : Option Text

pub record CustomToolCallStarted : Type 0 where
  pub item_key : Text
  pub call_id : Text
  pub name : Text

pub record CodeInterpreterCallCompleted : Type 0 where
  pub item_key : Text
  pub stdout : Option Text
  pub stderr : Option Text
  pub result : Option Text

pub data WebSearchActionType : Type 0 where
  search open_page find_in_page : WebSearchActionType

-- A source is a dictionary of texts, validated only when it is put into an item.
pub record WebSearchCallCompleted : Type 0 where
  pub item_key : Text
  pub action_type : WebSearchActionType
  pub query : Option Text
  pub queries : List Text
  pub sources : List (Dict Text)
  pub url : Option Text
  pub pattern_text : Option Text

pub data McpMode : Type 0 where
  hosted request_remote : McpMode

pub record McpCallStarted : Type 0 where
  pub item_key : Text
  pub server_label : Text
  pub name : Text
  pub initial_arguments_json : Text
  pub mode : McpMode

pub data IncompleteReason : Type 0 where
  max_output_tokens content_filter : IncompleteReason

pub record UsageFinal : Type 0 where
  pub input_tokens : ℕ
  pub output_tokens : ℕ
  pub total_tokens : ℕ
  pub cache_read_tokens : ℕ
  pub cache_write_tokens : ℕ
  pub reasoning_tokens : ℕ
  pub incomplete_reason : Option IncompleteReason

-- What stands under "code" in the arguments of a call: nothing checks that it is a text.
pub data CodeValue : Type 0 where
  code_text : Text → CodeValue
  no_text : CodeValue

-- The first argument of a constructor is the item key.
pub data NormalizedEvent : Type 0 where
  message_started : Text → NormalizedEvent
  message_delta : Text → Text → NormalizedEvent
  message_done : Text → Text → NormalizedEvent
  reasoning_started : Text → NormalizedEvent
  reasoning_delta : Text → Text → NormalizedEvent
  reasoning_done : Text → Text → NormalizedEvent
  function_call_started : FunctionCallStarted → NormalizedEvent
  function_call_arguments_delta : Text → Text → NormalizedEvent
  function_call_done : Text → Text → NormalizedEvent
  custom_tool_call_started : CustomToolCallStarted → NormalizedEvent
  custom_tool_call_done : Text → Text → NormalizedEvent
  code_interpreter_call_started : Text → Option Text → NormalizedEvent
  code_interpreter_call_code_delta : Text → Text → NormalizedEvent
  code_interpreter_call_code_done : Text → Option CodeValue → NormalizedEvent
  code_interpreter_call_interpreting : Text → NormalizedEvent
  code_interpreter_call_completed : CodeInterpreterCallCompleted → NormalizedEvent
  web_search_call_started : Text → NormalizedEvent
  web_search_call_searching : Text → NormalizedEvent
  web_search_call_completed : WebSearchCallCompleted → NormalizedEvent
  mcp_call_started : McpCallStarted → NormalizedEvent
  mcp_call_arguments_delta : Text → Text → NormalizedEvent
  mcp_call_arguments_done : Text → Text → NormalizedEvent
  mcp_call_completed : Text → Text → NormalizedEvent
  mcp_call_failed : Text → Text → NormalizedEvent
  usage_final : UsageFinal → NormalizedEvent
