-- ===== src/Composer.antt =====
-- `ResponseComposer` of responses/python/vllm_responses/responses_core/composer.py: the stream
-- events and the response from the normalized events. The handlers are in the children named for
-- the kinds of items; the laws are in Numbering, Indices, Finished with Endings, and Safety, Places
-- and Apart with Lookups, by the rules of Tracks and Rules that Handlers applies to every handler.
pub mod State
mod Messages
mod Reasoning
mod FunctionCalls
mod CodeInterpreter
mod WebSearch
mod McpCalls
mod Completion
pub mod Tracks
mod Touch
mod Sharing
pub mod Safety
pub mod Places
pub mod Apart
pub mod Lookups
pub mod Rules
pub mod Handlers
pub mod Numbering
pub mod Indices
pub mod Finished
pub mod Endings
pub mod Keys
pub mod Successes
pub mod Openings
pub mod Scoped
pub mod Closing
mod Tests
use vllm_responses.Prelude.{Text, Bool, true, false, Option, none, some, List, [], ◌∷◌, ◌++◌}
use vllm_responses.Prelude.Result.{Result, ok, err}
use vllm_responses.Items.{ResponsesResponse, Status}
use vllm_responses.Events.{
  NormalizedEvent, message_started, message_delta, message_done, reasoning_started, reasoning_delta,
  reasoning_done, function_call_started, function_call_arguments_delta, function_call_done,
  custom_tool_call_started, custom_tool_call_done, code_interpreter_call_started,
  code_interpreter_call_code_delta, code_interpreter_call_code_done,
  code_interpreter_call_interpreting, code_interpreter_call_completed, web_search_call_started,
  web_search_call_searching, web_search_call_completed, mcp_call_started, mcp_call_arguments_delta,
  mcp_call_arguments_done, mcp_call_completed, mcp_call_failed, usage_final,
}
use vllm_responses.Stream.{StreamEvent, lifecycle, response_created, response_in_progress}
use vllm_responses.Composer.State.{
  ResponseComposer, Environment, Outcome, Action, ReasoningEventFormat, Error, not_started, ◌>>=◌,
  ◌>>◌, pure, raise, gets, emit,
}
use vllm_responses.Composer.Completion.{set_response, complete_response}

-- `include` is reduced to the two flags that the constructor reads off it.
abbrev pub new_composer : ResponsesResponse → Bool → Bool → ReasoningEventFormat → ResponseComposer
new_composer response outputs sources format = record {
  response = response;
  started = false;
  sequence_number = 0;
  next_output_index = 0;
  states = [];
  items = [];
  output_items = [];
  reasoning_item = none;
  reasoning_state = none;
  reasoning_item_done_emitted = false;
  reasoning_event_format = format;
  include_code_interpreter_outputs = outputs;
  include_web_search_action_sources = sources;
  uuids = 0;
}

pub set_started : Action (Unit {0})
set_started s = record { state = record s { started = true }; events = []; result = ok tt }

start_events : Bool → Action (Unit {0})
unfolding pure set_started gets set_response emit
start_events true = pure tt
start_events false = do
  set_started
  r ← gets (λ s. s.response)
  let r' = record r { status = some Status.in_progress }
  set_response r'
  emit (λ n. lifecycle response_created n r')
  emit (λ n. lifecycle response_in_progress n r')

unfoldable pub start : Action (Unit {0})
unfolding start_events
start s = start_events s.started s

unfoldable pub dispatch : Environment → NormalizedEvent → Action (Unit {0})
dispatch env (message_started key) = Messages.start_message env key
dispatch env (message_delta key delta) = Messages.message_delta key delta
dispatch env (message_done key text) = Messages.message_done key text
dispatch env (reasoning_started key) = Reasoning.start_reasoning env key
dispatch env (reasoning_delta key delta) = Reasoning.reasoning_delta key delta
dispatch env (reasoning_done key text) = Reasoning.reasoning_done key text
dispatch env (function_call_started e) = FunctionCalls.start_function_call env e
dispatch env (function_call_arguments_delta key delta) = FunctionCalls.function_args_delta key delta
dispatch env (function_call_done key arguments) = FunctionCalls.function_done key arguments
dispatch env (custom_tool_call_started e) = FunctionCalls.start_custom_tool_call env e
dispatch env (custom_tool_call_done key input) = FunctionCalls.custom_tool_done key input
dispatch env (mcp_call_started e) = McpCalls.start_mcp_call env e
dispatch env (mcp_call_arguments_delta key delta) = McpCalls.mcp_args_delta key delta
dispatch env (mcp_call_arguments_done key arguments) = McpCalls.mcp_args_done key arguments
dispatch env (mcp_call_completed key output) = McpCalls.mcp_completed key output
dispatch env (mcp_call_failed key error) = McpCalls.mcp_failed key error
dispatch env (code_interpreter_call_started key code) =
    CodeInterpreter.start_code_interpreter_call env key code
dispatch env (web_search_call_started key) = WebSearch.start_web_search_call env key
dispatch env (web_search_call_searching key) = WebSearch.web_search_searching_handler key
dispatch env (web_search_call_completed e) = WebSearch.web_search_completed_handler env e
dispatch env (code_interpreter_call_code_delta key delta) = CodeInterpreter.code_delta key delta
dispatch env (code_interpreter_call_code_done key code) = CodeInterpreter.code_done key code
dispatch env (code_interpreter_call_interpreting key) = CodeInterpreter.code_interpreting key
dispatch env (code_interpreter_call_completed e) = CodeInterpreter.code_completed env e
dispatch env (usage_final e) = complete_response env e

feed_if : Bool → Environment → NormalizedEvent → Action (Unit {0})
unfolding raise
feed_if false env event = raise not_started
feed_if true env event = dispatch env event

unfoldable pub feed : Environment → NormalizedEvent → Action (Unit {0})
unfolding feed_if
feed env event s = feed_if s.started env event s

-- The events of a run one after another; the first exception ends it.
unfoldable pub feed_all : Environment → List NormalizedEvent → Action (Unit {0})
feed_all env [] = pure tt
feed_all env (event ∷ events) = feed env event >> feed_all env events

-- `start`, then the events.
unfoldable pub run : Environment → List NormalizedEvent → Action (Unit {0})
run env events = start >> feed_all env events
