-- ===== src/Normalizer/Scoping/Streams.antt =====
-- Whole streams of parts.
use vllm_responses.Prelude.{Text, ◌≡◌, refl, Bool, true, false, List, [], ◌∷◌, arith}
use vllm_responses.Prelude.Dict
use vllm_responses.Prelude.Result.{Result, ok, err}
use vllm_responses.Events.{usage_final}
use vllm_responses.Events.Scopes.{scoped, opened_after, scoped-append}
use vllm_responses.Normalizer.State.{
  AgentEvent, Normalizer, NormalizerError, Config, Codec, Handled, part_start, part_delta, part_end,
  function_tool_call, function_tool_result, agent_run_result, other_event, new_normalizer,
  get_index,
}
use vllm_responses.Normalizer.Outcomes.{usage_final_of}
use vllm_responses.Normalizer.{Normalized, on_event, then_rest, normalize_all}
use vllm_responses.Normalizer.Shapes.{Shapes, all_known, fits, shapes_after, well_formed}
use vllm_responses.Normalizer.Held.{Held, Safe, is_stuck}
use vllm_responses.Normalizer.Scoping.{nothing_yielded, yielded_follow}
use vllm_responses.Normalizer.Scoping.Starts.{on_part_start-Safe}
use vllm_responses.Normalizer.Scoping.Deltas.{on_part_delta-Safe}
use vllm_responses.Normalizer.Scoping.Ends.{on_part_end-Safe}
use vllm_responses.Normalizer.Scoping.Outcomes.{
  on_function_tool_call-Safe, on_function_tool_result-Safe,
}

abbrev pub ends_stuck : Result NormalizerError Normalizer → Bool
ends_stuck (ok n) = false
ends_stuck (err e) = is_stuck e

-- The events are scoped, and an exception is none of the extractor's.
pub record Runs (opened : List Text) (out : Normalized) : Type 0 where
  pub in_scope : scoped opened out.events ≡ true
  pub live : ends_stuck out.result ≡ false

module _ (config : Config) (codec : Codec)
    (known : all_known config config.builtin_tool_names ≡ true) where
  on_event-Safe :
      (shapes : Shapes) (opened : List Text) (event : AgentEvent) (n : Normalizer)
      → fits shapes event ≡ true
      → Held n shapes opened
      → Safe (shapes_after shapes event) opened (on_event config codec event n)
  unfolding on_event fits shapes_after
  on_event-Safe shapes opened (part_start i part) n fit held =
      on_part_start-Safe config shapes opened i part n known held
  on_event-Safe shapes opened (part_delta i delta) n fit held =
      on_part_delta-Safe shapes opened codec i delta n fit held
  on_event-Safe shapes opened (part_end i part) n fit held =
      on_part_end-Safe config codec shapes opened i part n fit held
  on_event-Safe shapes opened (function_tool_call tool_name call_id) n fit held =
      on_function_tool_call-Safe codec config shapes opened tool_name call_id n held
  on_event-Safe shapes opened (function_tool_result call_id result) n fit held =
      on_function_tool_result-Safe codec config shapes opened call_id result n held
  on_event-Safe shapes opened (agent_run_result usage messages) n fit held =
      yielded_follow shapes opened n (usage_final (usage_final_of usage messages)) refl held
  on_event-Safe shapes opened other_event n fit held = nothing_yielded shapes opened n held

  then_rest-Runs :
      (shapes : Shapes) (opened : List Text) (handled : Handled) (rest : Normalizer → Normalized)
      → Safe shapes opened handled
      → ((n : Normalizer) (now : List Text) → Held n shapes now → Runs now (rest n))
      → Runs opened (then_rest handled rest)
  unfolding then_rest scoped
  then_rest-Runs shapes opened (n, ok out) rest (s, held) runs =
      let later = runs n (opened_after opened out) held in
      record {
        in_scope = scoped-append opened out (rest n).events s later.in_scope;
        live = later.live;
      }
  then_rest-Runs shapes opened (n, err e) rest safe runs = record { in_scope = refl; live = safe }

  normalize_all-Runs :
      (shapes : Shapes) (opened : List Text) (events : List AgentEvent) (n : Normalizer)
      → well_formed shapes events ≡ true
      → Held n shapes opened
      → Runs opened (normalize_all config codec events n)
  unfolding normalize_all well_formed scoped
  normalize_all-Runs shapes opened [] n fit held = record { in_scope = refl; live = refl }
  normalize_all-Runs shapes opened (event ∷ events) n fit held =
      then_rest-Runs (shapes_after shapes event) opened (on_event config codec event n)
        (λ n1. normalize_all config codec events n1)
        (on_event-Safe shapes opened event n (ground arith) held)
        (λ n1 now held'.
          normalize_all-Runs (shapes_after shapes event) now events n1 (ground arith) held')

  new_normalizer-Held : Held new_normalizer [] []
  unfolding get_index Dict.get
  new_normalizer-Held = record {
    calls = λ c k h. cc;
    parts = λ i s h. cc;
    extractors = λ k e h. cc;
  }

-- A new normalizer whose builtin tools are the search tool and the code interpreter, on a stream of
-- parts in which each delta and each end belongs to a part of the same sort that began at its
-- index: every event that goes on with an item comes behind the event that opens this item, also
-- when an exception ends the stream; and no exception comes from an extractor that runs for ever.
pub normalize_all-scoped :
    (config : Config) (codec : Codec) (events : List AgentEvent)
    → all_known config config.builtin_tool_names ≡ true
    → well_formed [] events ≡ true
    → let out = normalize_all config codec events new_normalizer in
      (scoped [] out.events ≡ true) × (ends_stuck out.result ≡ false)
normalize_all-scoped config codec events known fit =
    let runs =
      normalize_all-Runs config codec known [] [] events new_normalizer fit
        (new_normalizer-Held config codec known) in
    (runs.in_scope, runs.live)
