-- ===== src/Composer/Messages.antt =====
-- The message handlers of `ResponseComposer`.
use vllm_responses.Prelude.{Text, some, [], ◌∷◌, ◌++◌, codes}
use vllm_responses.Items.{Output, in_progress, completed}
use vllm_responses.Stream.{
  stream_text, output_item, output_item_added, output_item_done, content_part, content_part_added,
  content_part_done, text_event, output_text_delta, output_text_done,
}
use vllm_responses.Composer.State.{
  Environment, Action, ItemKind, new_item_state, ◌>>=◌, ◌>>◌, emit, alloc_output_index, uuid7_str,
  store_item, touch, append_output,
}

unfoldable pub start_message : Environment → Text → Action (Unit {0})
unfolding uuid7_str alloc_output_index store_item emit
start_message env key = do
  id ← uuid7_str env (codes "msg_")
  index ← alloc_output_index
  store_item key (new_item_state id index ItemKind.message)
  emit (λ n.
      output_item output_item_added n index
        (Output.message (record { content = []; id = id; status = in_progress })))
  emit (λ n. content_part content_part_added id n index (record { text = [] }))

unfoldable pub message_delta : Text → Text → Action (Unit {0})
unfolding touch emit
message_delta key delta = do
  st ← touch key (λ st. record st { text = st.text ++ delta })
  emit (λ n.
      text_event (record (stream_text output_text_delta st.item_id st.output_index n) {
        delta = some delta;
      }))

unfoldable pub message_done : Text → Text → Action (Unit {0})
unfolding touch emit append_output
message_done key text = do
  st ← touch key (λ st. record st { text = text })
  emit (λ n.
      text_event
        (record (stream_text output_text_done st.item_id st.output_index n) { text = some text }))
  emit (λ n. content_part content_part_done st.item_id n st.output_index (record { text = text }))
  let item =
      Output.message
        (record { content = record { text = text } ∷ []; id = st.item_id; status = completed })
  emit (λ n. output_item output_item_done n st.output_index item)
  append_output item
