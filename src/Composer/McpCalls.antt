-- ===== src/Composer/McpCalls.antt =====
-- The MCP call handlers of `ResponseComposer`.
use vllm_responses.Prelude.{Text, none, some, ◌++◌, codes}
use vllm_responses.Events.{McpCallStarted}
use vllm_responses.Items.{Output, in_progress, completed, failed}
use vllm_responses.Stream.{
  stream_text, output_item, output_item_added, output_item_done, text_event, mcp_call_in_progress,
  mcp_call_arguments_delta, mcp_call_arguments_done, mcp_call_completed, mcp_call_failed,
}
use vllm_responses.Composer.State.{
  Environment, Action, ItemKind, new_item_state, ◌>>=◌, ◌>>◌, emit, alloc_output_index, uuid7_str,
  store_item, touch, append_output, or_empty,
}

unfoldable pub start_mcp_call : Environment → McpCallStarted → Action (Unit {0})
unfolding uuid7_str alloc_output_index store_item emit
start_mcp_call env event = do
  id ← uuid7_str env (codes "mcp_")
  index ← alloc_output_index
  store_item event.item_key (record (new_item_state id index ItemKind.mcp_call) {
    mcp_server_label = some event.server_label;
    mcp_name = some event.name;
    mcp_arguments_json = event.initial_arguments_json;
  })
  emit (λ n. output_item output_item_added n index (
      Output.mcp_call (record {
        id = id;
        server_label = event.server_label;
        name = event.name;
        arguments = event.initial_arguments_json;
        status = in_progress;
        output = none;
        error = none;
      })))
  emit (λ n. text_event (stream_text mcp_call_in_progress id index n))

unfoldable pub mcp_args_delta : Text → Text → Action (Unit {0})
unfolding touch emit
mcp_args_delta key delta = do
  st ← touch key (λ st. record st { mcp_arguments_json = st.mcp_arguments_json ++ delta })
  emit (λ n.
      text_event (record (stream_text mcp_call_arguments_delta st.item_id st.output_index n) {
        delta = some delta;
      }))

unfoldable pub mcp_args_done : Text → Text → Action (Unit {0})
unfolding touch emit
mcp_args_done key arguments_json = do
  st ← touch key (λ st. record st { mcp_arguments_json = arguments_json })
  emit (λ n. text_event (record (stream_text mcp_call_arguments_done st.item_id st.output_index n) {
    arguments = some arguments_json;
  }))

unfoldable pub mcp_completed : Text → Text → Action (Unit {0})
unfolding touch emit append_output
mcp_completed key output_text = do
  st ← touch key (λ st. record st { mcp_output = some output_text; mcp_error = none })
  emit (λ n. text_event (record (stream_text mcp_call_completed st.item_id st.output_index n) {
    output = some output_text;
  }))
  let item = Output.mcp_call (record {
    id = st.item_id;
    server_label = or_empty st.mcp_server_label;
    name = or_empty st.mcp_name;
    arguments = st.mcp_arguments_json;
    status = completed;
    output = some output_text;
    error = none;
  })
  emit (λ n. output_item output_item_done n st.output_index item)
  append_output item

-- The stream event carries no error text: the item does.
unfoldable pub mcp_failed : Text → Text → Action (Unit {0})
unfolding touch emit append_output
mcp_failed key error_text = do
  st ← touch key (λ st. record st { mcp_output = none; mcp_error = some error_text })
  emit (λ n. text_event (stream_text mcp_call_failed st.item_id st.output_index n))
  let item = Output.mcp_call (record {
    id = st.item_id;
    server_label = or_empty st.mcp_server_label;
    name = or_empty st.mcp_name;
    arguments = st.mcp_arguments_json;
    status = failed;
    output = none;
    error = some error_text;
  })
  emit (λ n. output_item output_item_done n st.output_index item)
  append_output item
