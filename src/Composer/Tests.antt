-- ===== src/Composer/Tests.antt =====
-- A run of the composer, and its theorems at concrete events.
use vllm_responses.Prelude.{◌++◌, ◌⊎◌, ◌≡◌, refl, false, none, List, [], ◌∷◌, map, length, codes}
use vllm_responses.Events.{NormalizedEvent, UsageFinal}
use vllm_responses.Events.Scopes.{scoped}
use vllm_responses.Items.{ResponsesResponse}
use vllm_responses.Stream.{sequence_number, added_indices, done_items, lifecycle}
use vllm_responses.Prelude.Result.{ok, err}
use vllm_responses.Composer.State.{
  Environment, ReasoningEventFormat, ResponseComposer, ItemState, ItemKind, new_item_state, touch,
  validation_error,
}
use vllm_responses.Composer.{new_composer, run, start, feed, feed_all, dispatch}
use vllm_responses.Composer.Messages.{start_message, message_delta}
use vllm_responses.Composer.Numbering.{count_up, run-numbers}
use vllm_responses.Composer.Indices.{run-added_indices}
use vllm_responses.Composer.Lookups.{look_up, run-touch}
use vllm_responses.Prelude.Dict
use vllm_responses.Composer.Finished.{without_reasoning}
use vllm_responses.Composer.Scoped.{run-scoped}
use vllm_responses.Composer.Endings.{final_type, run-usage_final}

abbrev env : Environment
env = record { uuid7 = λ n. n ∷ []; time = 1000; validate_source = λ d. none }

abbrev response : ResponsesResponse
response = record {
  id = codes "resp_1";
  model = codes "m";
  previous_response_id = none;
  status = none;
  output = [];
  usage = none;
  incomplete_details = none;
  completed_at = none;
}

abbrev usage : UsageFinal
usage = record {
  input_tokens = 1;
  output_tokens = 2;
  total_tokens = 3;
  cache_read_tokens = 0;
  cache_write_tokens = 0;
  reasoning_tokens = 0;
  incomplete_reason = none;
}

abbrev hello : List NormalizedEvent
hello =
    NormalizedEvent.message_started (codes "part:0")
    ∷ NormalizedEvent.message_delta (codes "part:0") (codes "hi")
    ∷ NormalizedEvent.message_done (codes "part:0") (codes "hi")
    ∷ NormalizedEvent.usage_final usage
    ∷ []

run-numbers_example :
    let out =
      (run env hello (new_composer response false false ReasoningEventFormat.openai)).events in
    map sequence_number out ≡ count_up 0 (length out)
run-numbers_example = run-numbers env hello response false false ReasoningEventFormat.openai

run-added_indices_example :
    let o = run env hello (new_composer response false false ReasoningEventFormat.openai) in
    (added_indices o.events ≡ count_up 0 o.state.next_output_index)
    × (o.state.next_output_index ≡ length (added_indices o.events))
run-added_indices_example =
    run-added_indices env hello response false false ReasoningEventFormat.openai

run-usage_final_example :
    let o = run env hello (new_composer response false false ReasoningEventFormat.openai) in
    let last = feed env (NormalizedEvent.usage_final usage) o.state in
    (last.result ≡ ok tt)
    × (last.events
        ≡ lifecycle (final_type usage.incomplete_reason) o.state.sequence_number last.state.response
          ∷ [])
    × (without_reasoning last.state.response.output ≡ without_reasoning (done_items o.events))
run-usage_final_example =
    run-usage_final env hello response false false ReasoningEventFormat.openai usage

abbrev cleared : ItemState → ItemState
cleared st = record st { text = [] }

-- Two messages, both under way
abbrev started_twice : List NormalizedEvent
started_twice =
    NormalizedEvent.message_started (codes "part:0")
    ∷ NormalizedEvent.message_delta (codes "part:0") (codes "hi")
    ∷ NormalizedEvent.message_started (codes "part:1")
    ∷ NormalizedEvent.message_delta (codes "part:1") (codes "you")
    ∷ []

abbrev reached : ResponseComposer
reached =
    (run env started_twice (new_composer response false false ReasoningEventFormat.openai)).state

abbrev first_state : ItemState
first_state = record (new_item_state (codes "msg_" ++ 0 ∷ []) 0 ItemKind.message) {
  text = codes "hi";
}

abbrev second_state : ItemState
second_state = record (new_item_state (codes "msg_" ++ 1 ∷ []) 1 ItemKind.message) {
  text = codes "you";
}

run-touch_example :
    ((touch (codes "part:0") cleared reached).result ≡ ok (cleared first_state))
    × (look_up (codes "part:0") (touch (codes "part:0") cleared reached).state
        ≡ ok (cleared first_state))
    × (look_up (codes "part:1") (touch (codes "part:0") cleared reached).state ≡ ok second_state)
unfolding touch run start feed_all feed dispatch start_message message_delta Dict.get Dict.put
run-touch_example =
    run-touch env started_twice response false false ReasoningEventFormat.openai reached
      (codes "part:0") (codes "part:1") cleared first_state second_state refl refl refl refl refl

run-scoped_example :
    ((run env hello (new_composer response false false ReasoningEventFormat.openai)).result ≡ ok tt)
    ⊎ ((run env hello (new_composer response false false ReasoningEventFormat.openai)).result
        ≡ err validation_error)
unfolding scoped
run-scoped_example = run-scoped env hello response false false ReasoningEventFormat.openai refl
