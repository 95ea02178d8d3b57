-- ===== src/Items.antt =====
-- The output items and the response of responses/python/vllm_responses/types/openai.py, with the
-- fields that the composer sets. Fields that keep a constant default are left out.
use vllm_responses.Prelude.{ℕ, Text, Option, List, Bool, true, false}
use vllm_responses.Events.{IncompleteReason}

pub data Status : Type 0 where
  in_progress completed incomplete failed : Status

pub record OutputTextContent : Type 0 where
  pub text : Text

-- `OpenAIOutputItem`, an assistant message.
pub record OutputItem : Type 0 where
  pub content : List OutputTextContent
  pub id : Text
  pub status : Status

pub record ReasoningContent : Type 0 where
  pub text : Text

pub record ReasoningItem : Type 0 where
  pub id : Text
  pub summary : List Text
  pub content : List ReasoningContent

pub record FunctionToolCall : Type 0 where
  pub arguments : Text
  pub call_id : Text
  pub name : Text
  pub namespace : Option Text
  pub id : Text
  pub status : Status

pub record CustomToolCall : Type 0 where
  pub call_id : Text
  pub name : Text
  pub input : Text
  pub id : Text
  pub status : Status

pub record CodeOutputLog : Type 0 where
  pub logs : Text

pub record CodeToolCall : Type 0 where
  pub code : Option Text
  pub container_id : Text
  pub id : Text
  pub outputs : Option (List CodeOutputLog)
  pub status : Status

pub record WebSearchSource : Type 0 where
  pub url : Text

pub data WebSearchAction : Type 0 where
  search : Text → Option (List Text) → Option (List WebSearchSource) → WebSearchAction
  open_page : Option Text → WebSearchAction
  find_in_page : Option Text → Text → WebSearchAction

pub record WebSearchToolCall : Type 0 where
  pub action : Option WebSearchAction
  pub id : Text
  pub status : Status

pub record McpToolCall : Type 0 where
  pub id : Text
  pub server_label : Text
  pub name : Text
  pub arguments : Text
  pub status : Status
  pub output : Option Text
  pub error : Option Text

pub data Output : Type 0 where
  message : OutputItem → Output
  reasoning : ReasoningItem → Output
  function_call : FunctionToolCall → Output
  custom_tool_call : CustomToolCall → Output
  code_interpreter_call : CodeToolCall → Output
  web_search_call : WebSearchToolCall → Output
  mcp_call : McpToolCall → Output

unfoldable pub item_id : Output → Text
item_id (message m) = m.id
item_id (reasoning r) = r.id
item_id (function_call f) = f.id
item_id (custom_tool_call c) = c.id
item_id (code_interpreter_call c) = c.id
item_id (web_search_call w) = w.id
item_id (mcp_call m) = m.id

unfoldable pub is_reasoning : Output → Bool
is_reasoning (reasoning r) = true
is_reasoning _ = false

pub record ResponsesUsage : Type 0 where
  pub input_tokens : ℕ
  pub cached_tokens : ℕ
  pub output_tokens : ℕ
  pub reasoning_tokens : ℕ
  pub total_tokens : ℕ

pub record ResponsesResponse : Type 0 where
  pub id : Text
  pub model : Text
  pub previous_response_id : Option Text
  pub status : Option Status
  pub output : List Output
  pub usage : Option ResponsesUsage
  pub incomplete_details : Option IncompleteReason
  pub completed_at : Option ℕ
