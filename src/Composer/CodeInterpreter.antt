-- ===== src/Composer/CodeInterpreter.antt =====
-- The code interpreter handlers of `ResponseComposer`.
use mathlib.Core.Option
use vllm_responses.Prelude.{
  Text, Bool, true, false, Option, none, some, List, [], ◌∷◌, ◌++◌, codes, is_empty, if◌then◌else◌,
}
use vllm_responses.Events.{CodeInterpreterCallCompleted, CodeValue, code_text, no_text}
use vllm_responses.Items.{Output, CodeOutputLog, in_progress, completed}
use vllm_responses.Stream.{
  stream_text, output_item, output_item_added, output_item_done, text_event, code_call_in_progress,
  code_call_interpreting, code_call_completed, code_call_code_delta, code_call_code_done,
}
use vllm_responses.Composer.State.{
  Environment, Action, ItemKind, new_item_state, ◌>>=◌, ◌>>◌, pure, gets, from_option,
  validation_error, emit, alloc_output_index, uuid7_str, store_item, touch, append_output, or_empty,
}

-- The field `code` of pydantic's models takes a text or nothing.
unfoldable pub valid_code : Option CodeValue → Option (Option Text)
valid_code none = some none
valid_code (some (code_text code)) = some (some code)
valid_code (some no_text) = none

unfoldable pub start_code_interpreter_call : Environment → Text → Option Text → Action (Unit {0})
unfolding uuid7_str alloc_output_index store_item emit
start_code_interpreter_call env key initial_code = do
  id ← uuid7_str env (codes "ci_")
  index ← alloc_output_index
  container ← uuid7_str env (codes "cntr_")
  store_item key (record (new_item_state id index ItemKind.code_interpreter_call) {
    code = Option.map code_text initial_code;
    container_id = some container;
  })
  emit (λ n. output_item output_item_added n index (
      Output.code_interpreter_call (record {
        code = initial_code;
        container_id = container;
        id = id;
        outputs = none;
        status = in_progress;
      })))
  emit (λ n. text_event (stream_text code_call_in_progress id index n))

-- A delta of the code changes no state.
unfoldable pub code_delta : Text → Text → Action (Unit {0})
unfolding touch emit
code_delta key delta = do
  st ← touch key (λ st. st)
  emit (λ n. text_event (record (stream_text code_call_code_delta st.item_id st.output_index n) {
    delta = some delta;
  }))

-- No event is made for a code that is no text, and its number is lost with the run.
unfoldable pub code_done : Text → Option CodeValue → Action (Unit {0})
unfolding touch emit from_option valid_code
code_done key code = do
  st ← touch key (λ st. record st { code = code })
  valid ← from_option validation_error (valid_code code)
  emit (λ n.
      text_event
        (record (stream_text code_call_code_done st.item_id st.output_index n) { code = valid }))

unfoldable pub code_interpreting : Text → Action (Unit {0})
unfolding touch emit
code_interpreting key = do
  st ← touch key (λ st. st)
  emit (λ n. text_event (stream_text code_call_interpreting st.item_id st.output_index n))

-- A log if there is text.
abbrev pub log_of : Text → List CodeOutputLog
log_of t = if is_empty t then [] else record { logs = t } ∷ []

-- `outs or None`
abbrev pub or_none {ℓ} : {A : Type ℓ} → List A → Option (List A)
or_none [] = none
or_none (x ∷ xs) = some (x ∷ xs)

unfoldable pub code_outputs : Bool → CodeInterpreterCallCompleted → Option (List CodeOutputLog)
code_outputs false event = none
code_outputs true event =
    or_none
      (log_of (or_empty event.stdout ++ or_empty event.stderr) ++ log_of (or_empty event.result))

-- `state.container_id or uuid7_str("cntr_")`
unfoldable pub container_of : Environment → Option Text → Action Text
unfolding pure uuid7_str
container_of env none = uuid7_str env (codes "cntr_")
container_of env (some []) = uuid7_str env (codes "cntr_")
container_of env (some (c ∷ cs)) = pure (c ∷ cs)

unfoldable pub code_completed : Environment → CodeInterpreterCallCompleted → Action (Unit {0})
unfolding touch emit gets container_of from_option valid_code append_output
code_completed env event = do
  st ← touch event.item_key (λ st. record st {
    code_stdout = event.stdout;
    code_stderr = event.stderr;
    code_result = event.result;
  })
  emit (λ n. text_event (stream_text code_call_completed st.item_id st.output_index n))
  included ← gets (λ s. s.include_code_interpreter_outputs)
  container ← container_of env st.container_id
  code ← from_option validation_error (valid_code st.code)
  let item = Output.code_interpreter_call (record {
    code = code;
    container_id = container;
    id = st.item_id;
    outputs = code_outputs included event;
    status = completed;
  })
  emit (λ n. output_item output_item_done n st.output_index item)
  append_output item
