-- ===== src/Composer/FunctionCalls.antt =====
-- The handlers of function calls and custom tool calls of `ResponseComposer`.
use vllm_responses.Prelude.{Text, some, [], ◌++◌, codes}
use vllm_responses.Events.{FunctionCallStarted, CustomToolCallStarted}
use vllm_responses.Items.{Output, in_progress, completed}
use vllm_responses.Stream.{
  stream_text, output_item, output_item_added, output_item_done, text_event,
  function_call_arguments_delta, function_call_arguments_done,
}
use vllm_responses.Composer.State.{
  Environment, Action, ItemKind, new_item_state, ◌>>=◌, ◌>>◌, emit, alloc_output_index, uuid7_str,
  store_item, touch, append_output, or_empty,
}

unfoldable pub start_function_call : Environment → FunctionCallStarted → Action (Unit {0})
unfolding uuid7_str alloc_output_index store_item emit
start_function_call env event = do
  id ← uuid7_str env (codes "fc_")
  index ← alloc_output_index
  store_item event.item_key (record (new_item_state id index ItemKind.function_call) {
    function_name = some event.name;
    function_namespace = event.namespace;
    function_call_id = some event.call_id;
    function_args_json = event.initial_arguments_json;
  })
  emit (λ n. output_item output_item_added n index (
      Output.function_call (record {
        arguments = event.initial_arguments_json;
        call_id = event.call_id;
        name = event.name;
        namespace = event.namespace;
        id = id;
        status = in_progress;
      })))

unfoldable pub function_args_delta : Text → Text → Action (Unit {0})
unfolding touch emit
function_args_delta key delta = do
  st ← touch key (λ st. record st { function_args_json = st.function_args_json ++ delta })
  emit (λ n.
      text_event (record (stream_text function_call_arguments_delta st.item_id st.output_index n) {
        delta = some delta;
      }))

unfoldable pub function_done : Text → Text → Action (Unit {0})
unfolding touch emit append_output
function_done key arguments_json = do
  st ← touch key (λ st. record st { function_args_json = arguments_json })
  emit (λ n.
      text_event (record (stream_text function_call_arguments_done st.item_id st.output_index n) {
        arguments = some arguments_json;
      }))
  let item = Output.function_call (record {
    arguments = arguments_json;
    call_id = or_empty st.function_call_id;
    name = or_empty st.function_name;
    namespace = st.function_namespace;
    id = st.item_id;
    status = completed;
  })
  emit (λ n. output_item output_item_done n st.output_index item)
  append_output item

unfoldable pub start_custom_tool_call : Environment → CustomToolCallStarted → Action (Unit {0})
unfolding uuid7_str alloc_output_index store_item emit
start_custom_tool_call env event = do
  id ← uuid7_str env (codes "ctc_")
  index ← alloc_output_index
  store_item event.item_key (record (new_item_state id index ItemKind.custom_tool_call) {
    custom_tool_name = some event.name;
    custom_tool_call_id = some event.call_id;
  })
  emit (λ n. output_item output_item_added n index (
      Output.custom_tool_call (record {
        call_id = event.call_id;
        name = event.name;
        input = [];
        id = id;
        status = in_progress;
      })))

unfoldable pub custom_tool_done : Text → Text → Action (Unit {0})
unfolding touch emit append_output
custom_tool_done key input = do
  st ← touch key (λ st. record st { custom_tool_input = input })
  let item = Output.custom_tool_call (record {
    call_id = or_empty st.custom_tool_call_id;
    name = or_empty st.custom_tool_name;
    input = input;
    id = st.item_id;
    status = completed;
  })
  emit (λ n. output_item output_item_done n st.output_index item)
  append_output item
