-- ===== src/Composer/Endings.antt =====
-- What the usage event does at the end of a run.
use vllm_responses.Prelude.{Bool, true, ◌+◌, ◌≡◌, refl, ap, ◌∙◌, Option, none, some, List, [], ◌∷◌}
use vllm_responses.Events.{NormalizedEvent, UsageFinal, IncompleteReason}
use vllm_responses.Items.{Output, ResponsesResponse}
use vllm_responses.Stream.{
  LifecycleType, response_completed, response_incomplete, done_items, lifecycle,
}
use vllm_responses.Composer.State.{
  ReasoningEventFormat, ResponseComposer, Environment, Action, ◌>>=◌, emit, gets, pure,
}
use vllm_responses.Composer.Completion.{finish_as, set_response, final_response, complete_response}
use vllm_responses.Composer.Handlers.{feed_all-Tracks}
use vllm_responses.Prelude.Result.{ok}
use vllm_responses.Composer.{
  new_composer, run, dispatch, feed_if, start, start_events, set_started, feed,
}
use vllm_responses.Composer.Finished.{without_reasoning, Finished-Rules}

final_response-output :
    (env : Environment) (e : UsageFinal) (os : List Output) (reason : Option IncompleteReason)
    (r : ResponsesResponse)
    → (final_response env e os reason r).output ≡ os
unfolding final_response
final_response-output env e os none r = refl
final_response-output env e os (some reason) r = refl

abbrev pub final_type : Option IncompleteReason → LifecycleType
final_type none = response_completed
final_type (some reason) = response_incomplete

finish_as_lem :
    (reason : Option IncompleteReason) (r : ResponsesResponse)
    → finish_as reason r ≡ emit (λ n. lifecycle (final_type reason) n r)
unfolding finish_as
finish_as_lem none r = refl
finish_as_lem (some reason) r = refl

pub feed-usage_final :
    (env : Environment) (e : UsageFinal) (s : ResponseComposer)
    → s.started ≡ true
    → let r = final_response env e s.output_items e.incomplete_reason s.response in
      feed env (NormalizedEvent.usage_final e) s ≡ record {
        state = record s { response = r; sequence_number = s.sequence_number + 1 };
        events = lifecycle (final_type e.incomplete_reason) s.sequence_number r ∷ [];
        result = ok tt;
      }
unfolding feed feed_if dispatch complete_response gets set_response emit ◌>>=◌
feed-usage_final env e s h =
    ap (λ (b : Bool). feed_if b env (NormalizedEvent.usage_final e) s) h
    ∙ ap
        (λ (m : Action (Unit {0})).
          let r = final_response env e s.output_items e.incomplete_reason s.response in
          m (record s { response = r }))
        (finish_as_lem e.incomplete_reason _)

run-Finished :
    (env : Environment) (events : List NormalizedEvent) (r : ResponsesResponse) (a b : Bool)
    (f : ReasoningEventFormat)
    → let o = run env events (new_composer r a b f) in
      (o.state.started ≡ true)
      × (without_reasoning o.state.output_items ≡ without_reasoning (done_items o.events))
unfolding run start start_events done_items set_started gets set_response emit ◌>>=◌ pure
run-Finished env events r a b f =
    let s = (start (new_composer r a b f)).state in
    let h = (feed_all-Tracks Finished-Rules env events).at s in (h.started refl, h.items)

-- After a run of a new composer, whatever its events were, the usage event is accepted and yields
-- one event: `response.incomplete` if it has an incomplete reason and else `response.completed`,
-- with the response that the composer keeps, whose output is, reasoning items apart, the items
-- that the run announced as done, in that order.
pub run-usage_final :
    (env : Environment) (events : List NormalizedEvent) (r : ResponsesResponse) (a b : Bool)
    (f : ReasoningEventFormat) (e : UsageFinal)
    → let o = run env events (new_composer r a b f) in
      let last = feed env (NormalizedEvent.usage_final e) o.state in
      (last.result ≡ ok tt)
      × (last.events
          ≡ lifecycle (final_type e.incomplete_reason) o.state.sequence_number last.state.response
            ∷ [])
      × (without_reasoning last.state.response.output ≡ without_reasoning (done_items o.events))
run-usage_final env events r a b f e =
    let s = (run env events (new_composer r a b f)).state in
    let (started, items) = run-Finished env events r a b f in
    let h = feed-usage_final env e s started in
    let p = final_response-output env e s.output_items e.incomplete_reason s.response in
    (rw h, rw h, rw (h, p, items))
