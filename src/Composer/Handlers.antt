-- ===== src/Composer/Handlers.antt =====
-- Every handler is made of the actions of Rules: what these track, all handlers track, and with
-- them a whole run.
use vllm_responses.Prelude.{Text, refl, Bool, true, false, Option, none, some, List, [], ◌∷◌}
use vllm_responses.Events.{
  NormalizedEvent, FunctionCallStarted, CustomToolCallStarted, WebSearchCallCompleted,
  McpCallStarted, CodeInterpreterCallCompleted, CodeValue, UsageFinal, IncompleteReason,
}
use vllm_responses.Items.{ResponsesResponse, ReasoningItem}
use vllm_responses.Stream.{sequence_number}
use vllm_responses.Composer.State.{
  ResponseComposer, Error, ItemState, Environment, Action, ◌>>=◌, pure, raise, gets, from_option,
}
use vllm_responses.Composer.Tracks.{
  Relation, Tracks, Tracks-bind, Tracks-pure, Tracks-raise, Tracks-gets, Tracks-from_option,
  Tracks-feed_all,
}
use vllm_responses.Composer.Rules.{
  Rules, AllocRule, OpensStoreRule, OpensUuidRule, OpensReasoningRule, OpensAddedRule,
  OpensAddedLastRule, FinishRule, FinishReasoningItemRule, PartRule, TextRule, StageRule,
  TouchesRule, UuidsRule, SharesRule, ChangesRule, MarksRule, SetsResponseRule, SetsStartedRule,
}
use vllm_responses.Composer.{start, start_events, dispatch, feed, feed_if, feed_all, run}
use vllm_responses.Composer.Messages.{start_message, message_delta, message_done}
use vllm_responses.Composer.Reasoning.{
  reasoning_delta, create_reasoning, start_reasoning_at, start_reasoning, reasoning_done,
  emit_reasoning_done,
}
use vllm_responses.Composer.FunctionCalls.{
  start_function_call, function_args_delta, function_done, start_custom_tool_call, custom_tool_done,
}
use vllm_responses.Composer.CodeInterpreter.{
  start_code_interpreter_call, code_delta, code_done, code_interpreting, code_completed,
  container_of,
}
use vllm_responses.Composer.WebSearch.{
  start_web_search_call, web_search_searching_handler, web_search_completed_handler,
}
use vllm_responses.Composer.McpCalls.{
  start_mcp_call, mcp_args_delta, mcp_args_done, mcp_completed, mcp_failed,
}
use vllm_responses.Composer.Completion.{complete_response, finish_as}

module _ {T : Relation} (rules : Rules T) where
  bind :
      {A B : Type 0} (m : Action A) (f : A → Action B)
      → Tracks T m
      → ((a : A) → Tracks T (f a))
      → Tracks T (m >>= f)
  bind = Tracks-bind rules.track

  pures : {A : Type 0} (a : A) → Tracks T (pure a)
  pures = Tracks-pure rules.track

  raises : {A : Type 0} (e : Error) → Tracks T (raise {A = A} e)
  raises = Tracks-raise rules.track

  reads : {A : Type 0} (f : ResponseComposer → A) → Tracks T (gets f)
  reads = Tracks-gets rules.track

  options : {A : Type 0} (e : Error) (o : Option A) → Tracks T (from_option e o)
  options = Tracks-from_option rules.track

  alloc : AllocRule T rules.Opens
  alloc = rules.alloc

  opens_store : OpensStoreRule T rules.Opens
  opens_store = rules.opens_store

  opens_uuid : OpensUuidRule T rules.Opens
  opens_uuid = rules.opens_uuid

  opens_reasoning : OpensReasoningRule T rules.Opens
  opens_reasoning = rules.opens_reasoning

  opens_added : OpensAddedRule T rules.Opens
  opens_added = rules.opens_added

  opens_added_last : OpensAddedLastRule T rules.Opens
  opens_added_last = rules.opens_added_last

  finish : FinishRule T rules.Opens
  finish = rules.finish

  finish_reasoning_item : FinishReasoningItemRule T rules.Opens
  finish_reasoning_item = rules.finish_reasoning_item

  part : PartRule T rules.Opens
  part = rules.part

  text : TextRule T rules.Opens
  text = rules.text

  stage : StageRule T rules.Opens
  stage = rules.stage

  touches : TouchesRule T rules.Opens
  touches = rules.touches

  uuids : UuidsRule T rules.Opens
  uuids = rules.uuids

  shares : SharesRule T rules.Opens
  shares = rules.shares

  changes : ChangesRule T rules.Opens
  changes = rules.changes

  marks : MarksRule T rules.Opens
  marks = rules.marks

  sets_response : SetsResponseRule T rules.Opens
  sets_response = rules.sets_response

  sets_started : SetsStartedRule T rules.Opens
  sets_started = rules.sets_started

  ruleset blocks = (
    alloc, opens_store, opens_uuid, opens_reasoning, opens_added, opens_added_last, finish,
    finish_reasoning_item, part, text, stage, touches, uuids, shares, changes, marks, sets_response,
    sets_started, bind, pures, raises, reads, options, refl,
  )

  start_message-Tracks : (env : Environment) (key : Text) → Tracks T (start_message env key)
  unfolding start_message sequence_number
  start_message-Tracks env key = search blocks depth 9

  message_delta-Tracks : (key delta : Text) → Tracks T (message_delta key delta)
  unfolding message_delta sequence_number
  message_delta-Tracks key delta = search blocks depth 9

  message_done-Tracks : (key t : Text) → Tracks T (message_done key t)
  unfolding message_done sequence_number
  message_done-Tracks key t = search blocks depth 9

  reasoning_delta-Tracks : (key delta : Text) → Tracks T (reasoning_delta key delta)
  unfolding reasoning_delta sequence_number
  reasoning_delta-Tracks key delta = search blocks depth 9

  start_function_call-Tracks :
      (env : Environment) (e : FunctionCallStarted) → Tracks T (start_function_call env e)
  unfolding start_function_call sequence_number
  start_function_call-Tracks env e = search blocks depth 9

  function_args_delta-Tracks : (key delta : Text) → Tracks T (function_args_delta key delta)
  unfolding function_args_delta sequence_number
  function_args_delta-Tracks key delta = search blocks depth 9

  function_done-Tracks : (key t : Text) → Tracks T (function_done key t)
  unfolding function_done sequence_number
  function_done-Tracks key t = search blocks depth 9

  start_custom_tool_call-Tracks :
      (env : Environment) (e : CustomToolCallStarted) → Tracks T (start_custom_tool_call env e)
  unfolding start_custom_tool_call sequence_number
  start_custom_tool_call-Tracks env e = search blocks depth 9

  custom_tool_done-Tracks : (key t : Text) → Tracks T (custom_tool_done key t)
  unfolding custom_tool_done sequence_number
  custom_tool_done-Tracks key t = search blocks depth 9

  start_code_interpreter_call-Tracks :
      (env : Environment) (key : Text) (code : Option Text)
      → Tracks T (start_code_interpreter_call env key code)
  unfolding start_code_interpreter_call sequence_number
  start_code_interpreter_call-Tracks env key code = search blocks depth 9

  code_delta-Tracks : (key delta : Text) → Tracks T (code_delta key delta)
  unfolding code_delta sequence_number
  code_delta-Tracks key delta = search blocks depth 9

  code_done-Tracks : (key : Text) (code : Option CodeValue) → Tracks T (code_done key code)
  unfolding code_done sequence_number
  code_done-Tracks key code = search blocks depth 9

  code_interpreting-Tracks : (key : Text) → Tracks T (code_interpreting key)
  unfolding code_interpreting sequence_number
  code_interpreting-Tracks key = search blocks depth 9

  start_web_search_call-Tracks :
      (env : Environment) (key : Text) → Tracks T (start_web_search_call env key)
  unfolding start_web_search_call sequence_number
  start_web_search_call-Tracks env key = search blocks depth 9

  web_search_searching_handler-Tracks : (key : Text) → Tracks T (web_search_searching_handler key)
  unfolding web_search_searching_handler sequence_number
  web_search_searching_handler-Tracks key = search blocks depth 9

  web_search_completed_handler-Tracks :
      (env : Environment) (e : WebSearchCallCompleted)
      → Tracks T (web_search_completed_handler env e)
  unfolding web_search_completed_handler sequence_number
  web_search_completed_handler-Tracks env e = search blocks depth 9

  start_mcp_call-Tracks : (env : Environment) (e : McpCallStarted) → Tracks T (start_mcp_call env e)
  unfolding start_mcp_call sequence_number
  start_mcp_call-Tracks env e = search blocks depth 9

  mcp_args_delta-Tracks : (key delta : Text) → Tracks T (mcp_args_delta key delta)
  unfolding mcp_args_delta sequence_number
  mcp_args_delta-Tracks key delta = search blocks depth 9

  mcp_args_done-Tracks : (key t : Text) → Tracks T (mcp_args_done key t)
  unfolding mcp_args_done sequence_number
  mcp_args_done-Tracks key t = search blocks depth 9

  mcp_completed-Tracks : (key t : Text) → Tracks T (mcp_completed key t)
  unfolding mcp_completed sequence_number
  mcp_completed-Tracks key t = search blocks depth 9

  mcp_failed-Tracks : (key t : Text) → Tracks T (mcp_failed key t)
  unfolding mcp_failed sequence_number
  mcp_failed-Tracks key t = search blocks depth 9

  create_reasoning-Tracks : (env : Environment) (key : Text) → Tracks T (create_reasoning env key)
  unfolding create_reasoning
  create_reasoning-Tracks env key = search blocks depth 9

  start_reasoning_at-Tracks :
      (env : Environment) (key : Text) (o : Option ReasoningItem)
      → Tracks T (start_reasoning_at env key o)
  unfolding start_reasoning_at
  start_reasoning_at-Tracks env key none = create_reasoning-Tracks env key
  start_reasoning_at-Tracks env key (some item) = shares key

  start_reasoning-Tracks : (env : Environment) (key : Text) → Tracks T (start_reasoning env key)
  unfolding start_reasoning
  start_reasoning-Tracks env key = record {
    at = λ s. (start_reasoning_at-Tracks env key s.reasoning_item).at s;
  }

  emit_reasoning_done-Tracks :
      (st : ItemState) (found : Option ReasoningItem) (b : Bool)
      → Tracks T (emit_reasoning_done st found b)
  unfolding emit_reasoning_done
  emit_reasoning_done-Tracks st (some item) false = search blocks
  emit_reasoning_done-Tracks st _ _ = pures tt

  reasoning_done-Tracks : (key t : Text) → Tracks T (reasoning_done key t)
  unfolding reasoning_done sequence_number
  reasoning_done-Tracks key t = search (blocks, emit_reasoning_done-Tracks) depth 9

  container_of-Tracks : (env : Environment) (o : Option Text) → Tracks T (container_of env o)
  unfolding container_of
  container_of-Tracks env none = search blocks
  container_of-Tracks env (some []) = search blocks
  container_of-Tracks env (some (c ∷ cs)) = search blocks

  code_completed-Tracks :
      (env : Environment) (e : CodeInterpreterCallCompleted) → Tracks T (code_completed env e)
  unfolding code_completed sequence_number
  code_completed-Tracks env e = search (blocks, container_of-Tracks) depth 9

  finish_as-Tracks :
      (reason : Option IncompleteReason) (r : ResponsesResponse) → Tracks T (finish_as reason r)
  unfolding finish_as
  finish_as-Tracks none r = search blocks
  finish_as-Tracks (some reason) r = search blocks

  complete_response-Tracks :
      (env : Environment) (e : UsageFinal) → Tracks T (complete_response env e)
  unfolding complete_response
  complete_response-Tracks env e = search (blocks, finish_as-Tracks)

  dispatch-Tracks : (env : Environment) (event : NormalizedEvent) → Tracks T (dispatch env event)
  unfolding dispatch
  dispatch-Tracks env (NormalizedEvent.message_started key) = start_message-Tracks env key
  dispatch-Tracks env (NormalizedEvent.message_delta key delta) = message_delta-Tracks key delta
  dispatch-Tracks env (NormalizedEvent.message_done key text) = message_done-Tracks key text
  dispatch-Tracks env (NormalizedEvent.reasoning_started key) = start_reasoning-Tracks env key
  dispatch-Tracks env (NormalizedEvent.reasoning_delta key delta) = reasoning_delta-Tracks key delta
  dispatch-Tracks env (NormalizedEvent.reasoning_done key text) = reasoning_done-Tracks key text
  dispatch-Tracks env (NormalizedEvent.function_call_started e) = start_function_call-Tracks env e
  dispatch-Tracks env (NormalizedEvent.function_call_arguments_delta key delta) =
      function_args_delta-Tracks key delta
  dispatch-Tracks env (NormalizedEvent.function_call_done key arguments) =
      function_done-Tracks key arguments
  dispatch-Tracks env (NormalizedEvent.custom_tool_call_started e) =
      start_custom_tool_call-Tracks env e
  dispatch-Tracks env (NormalizedEvent.custom_tool_call_done key input) =
      custom_tool_done-Tracks key input
  dispatch-Tracks env (NormalizedEvent.mcp_call_started e) = start_mcp_call-Tracks env e
  dispatch-Tracks env (NormalizedEvent.mcp_call_arguments_delta key delta) =
      mcp_args_delta-Tracks key delta
  dispatch-Tracks env (NormalizedEvent.mcp_call_arguments_done key arguments) =
      mcp_args_done-Tracks key arguments
  dispatch-Tracks env (NormalizedEvent.mcp_call_completed key output) =
      mcp_completed-Tracks key output
  dispatch-Tracks env (NormalizedEvent.mcp_call_failed key error) = mcp_failed-Tracks key error
  dispatch-Tracks env (NormalizedEvent.code_interpreter_call_started key code) =
      start_code_interpreter_call-Tracks env key code
  dispatch-Tracks env (NormalizedEvent.web_search_call_started key) =
      start_web_search_call-Tracks env key
  dispatch-Tracks env (NormalizedEvent.web_search_call_searching key) =
      web_search_searching_handler-Tracks key
  dispatch-Tracks env (NormalizedEvent.web_search_call_completed e) =
      web_search_completed_handler-Tracks env e
  dispatch-Tracks env (NormalizedEvent.code_interpreter_call_code_delta key delta) =
      code_delta-Tracks key delta
  dispatch-Tracks env (NormalizedEvent.code_interpreter_call_code_done key code) =
      code_done-Tracks key code
  dispatch-Tracks env (NormalizedEvent.code_interpreter_call_interpreting key) =
      code_interpreting-Tracks key
  dispatch-Tracks env (NormalizedEvent.code_interpreter_call_completed e) =
      code_completed-Tracks env e
  dispatch-Tracks env (NormalizedEvent.usage_final e) = complete_response-Tracks env e

  feed_if-Tracks :
      (b : Bool) (env : Environment) (event : NormalizedEvent) → Tracks T (feed_if b env event)
  unfolding feed_if
  feed_if-Tracks false env event = raises _
  feed_if-Tracks true env event = dispatch-Tracks env event

  pub feed-Tracks : (env : Environment) (event : NormalizedEvent) → Tracks T (feed env event)
  unfolding feed
  feed-Tracks env event = record { at = λ s. (feed_if-Tracks s.started env event).at s }

  start_events-Tracks : (b : Bool) → Tracks T (start_events b)
  unfolding start_events
  start_events-Tracks true = pures tt
  start_events-Tracks false = search blocks depth 9

  pub start-Tracks : Tracks T start
  unfolding start
  start-Tracks = record { at = λ s. (start_events-Tracks s.started).at s }

  pub feed_all-Tracks :
      (env : Environment) (events : List NormalizedEvent) → Tracks T (feed_all env events)
  feed_all-Tracks env events = Tracks-feed_all rules.track env events (feed-Tracks env)

  pub run-Tracks : (env : Environment) (events : List NormalizedEvent) → Tracks T (run env events)
  unfolding run
  run-Tracks env events =
      bind start (λ _. feed_all env events) start-Tracks (λ _. feed_all-Tracks env events)
