-- ===== src/Engine/Streams.antt =====
-- How the streams of the engine end.
use vllm_responses.Prelude.{
  ℕ, Text, ◌≡◌, refl, sym, ap, ◌∙◌, ◌⊎◌, inl, inr, Bool, true, false, Option, none, some, List, [],
  ◌∷◌, ◌++◌, append_assoc, append-nil,
}
use mathlib.Core.List.{map-append}
use vllm_responses.Prelude.Result.{Result, ok, err}
use vllm_responses.Events.{NormalizedEvent, UsageFinal, IncompleteReason, usage_final}
use vllm_responses.Items.{ResponsesResponse}
use vllm_responses.Stream.{StreamEvent, lifecycle, response_completed, response_incomplete}
use vllm_responses.Composer.State.{
  ReasoningEventFormat, ResponseComposer, Environment, Outcome, Error, validation_error,
}
use vllm_responses.Composer.{new_composer, run}
use vllm_responses.Composer.Endings.{final_type}
use vllm_responses.Composer.Closing.{ClosesWith, run-ClosesWith}
use vllm_responses.Composer.Successes.{Works}
use vllm_responses.Composer.Scoped.{run-scoped}
use vllm_responses.Normalizer.State.{
  AgentEvent, ModelMessage, RunUsage, NormalizerError, Normalizer, Config, Codec, Handled,
  agent_run_result, new_normalizer,
}
use vllm_responses.Normalizer.Outcomes.{usage_final_of}
use vllm_responses.Normalizer.{Normalized, on_event, then_rest, normalize_all}
use vllm_responses.Normalizer.Shapes.{all_known, well_formed}
use vllm_responses.Normalizer.Held.{is_stuck}
use vllm_responses.Normalizer.Scoping.Streams.{normalize_all-scoped, ends_stuck}
use vllm_responses.Engine.Failures.{ModelFailure, extract_failure_details}
use vllm_responses.Engine.{
  Upstream, EngineEvent, Streamed, composed, error_event, response_failed, finished,
  composer_raised, normalizer_raised, upstream_raised, UpstreamError, reported, escaped,
  composed_all, failure_events, closing, end_of, end_stream, iter_responses_events_stream,
}

-- `response.completed`, `response.incomplete` or `response.failed`
abbrev pub is_final : EngineEvent → Bool
is_final (composed (lifecycle response_completed n r)) = true
is_final (composed (lifecycle response_incomplete n r)) = true
is_final (response_failed n response error) = true
is_final _ = false

abbrev pub Closes : List EngineEvent → Type 0
Closes events =
    (before : List EngineEvent) × (last : EngineEvent) × (events ≡ before ++ last ∷ [])
    × (is_final last ≡ true)

-- The usage event is the last one of a stream whose last event is the result of the run.
then_rest-ok :
    (handled : Handled) (f g : Normalizer → Normalized) (n : Normalizer) (last : NormalizedEvent)
    → (then_rest handled f).result ≡ ok n
    → ((m : Normalizer) → (f m).result ≡ ok n → (f m).events ≡ (g m).events ++ last ∷ [])
    → (then_rest handled f).events ≡ (then_rest handled g).events ++ last ∷ []
unfolding then_rest
then_rest-ok (m, err e) f g n last h k = cc
then_rest-ok (m, ok out) f g n last h k =
    ap (λ (t : List NormalizedEvent). out ++ t) (k m h)
    ∙ sym (append_assoc out (g m).events (last ∷ []))

normalize_all-last :
    (config : Config) (codec : Codec) (events : List AgentEvent) (usage : RunUsage)
    (messages : List ModelMessage) (n m : Normalizer)
    → (normalize_all config codec (events ++ agent_run_result usage messages ∷ []) n).result ≡ ok m
    → (normalize_all config codec (events ++ agent_run_result usage messages ∷ []) n).events
      ≡ (normalize_all config codec events n).events
        ++ usage_final (usage_final_of usage messages) ∷ []
unfolding normalize_all on_event then_rest
normalize_all-last config codec [] usage messages n m h = refl
normalize_all-last config codec (event ∷ events) usage messages n m h =
    then_rest-ok (on_event config codec event n)
      (λ k. normalize_all config codec (events ++ agent_run_result usage messages ∷ []) k)
      (λ k. normalize_all config codec events k) m (usage_final (usage_final_of usage messages)) h
      (λ k. normalize_all-last config codec events usage messages k m)

-- The upstream fails, or its last event is the result of the run.
abbrev pub Concludes : Upstream → Type 0
Concludes upstream =
    ((e : UpstreamError) × (upstream.failure ≡ some e))
    ⊎ ((upstream.failure ≡ none)
        × ((events : List AgentEvent) × (usage : RunUsage) × (messages : List ModelMessage)
            × (upstream.events ≡ events ++ agent_run_result usage messages ∷ [])))

-- How the stream of an upstream with this failure may end
abbrev pub Ended : Option UpstreamError → Streamed → Type 0
Ended failure out =
    ((out.end ≡ finished) × Closes out.events)
    ⊎ ((e : Text) × (failure ≡ some (escaped e)) × (out.end ≡ upstream_raised e))
    ⊎ (out.end ≡ composer_raised validation_error)
    ⊎ ((e : NormalizerError) × (out.end ≡ normalizer_raised e) × (is_stuck e ≡ false))

last_failed :
    (codec : Codec) (failure : ModelFailure) (s : ResponseComposer) (events : List EngineEvent)
    → Closes (events ++ closing codec (some (reported failure)) s)
unfolding closing failure_events
last_failed codec failure s events =
    let d = extract_failure_details codec failure in
    let reported = error_event d.code d.message d.param s.sequence_number in
    (events ++ reported ∷ [], _, sym (append_assoc events (reported ∷ []) _), refl)

is_final-final_type :
    (reason : Option IncompleteReason) (n : ℕ) (r : ResponsesResponse)
    → is_final (composed (lifecycle (final_type reason) n r)) ≡ true
is_final-final_type none n r = refl
is_final-final_type (some reason) n r = refl

last_composed :
    (e : UsageFinal) (events : List StreamEvent)
    → ClosesWith e events
    → Closes (composed_all events)
last_composed e events (before, n, r, h) =
    let last = lifecycle (final_type e.incomplete_reason) n r in
    (
      composed_all before,
      composed last,
      ap composed_all h ∙ map-append composed before (last ∷ []),
      is_final-final_type e.incomplete_reason n r,
    )

module _ (codec : Codec) (config : Config) (env : Environment) where
  end_stream-Ended :
      (o : Outcome (Unit {0})) (normalized : Result NormalizerError Normalizer)
      (failure : Option UpstreamError) (r : Result Error (Unit {0}))
      → Works r
      → ends_stuck normalized ≡ false
      → ((m : Normalizer)
          → normalized ≡ ok m
          → r ≡ ok tt
          → end_of codec failure ≡ finished
          → Closes (composed_all o.events ++ closing codec failure o.state))
      → Ended failure (end_stream codec o normalized failure r)
  unfolding end_stream end_of
  end_stream-Ended o normalized failure (err e) (inl h) live closes = cc
  end_stream-Ended o normalized failure (err e) (inr h) live closes = inr (inr (inl (cc h)))
  end_stream-Ended o (err e) failure (ok u) works live closes = inr (inr (inr (e, refl, live)))
  end_stream-Ended o (ok n) none (ok u) works live closes = inl (refl, closes n refl refl refl)
  end_stream-Ended o (ok n) (some (reported failure)) (ok u) works live closes =
      inl (refl, closes n refl refl refl)
  end_stream-Ended o (ok n) (some (escaped e)) (ok u) works live closes = inr (inl (e, refl, refl))

  -- The composer's events at the end of a stream of parts that ends with the result of the run
  last_run :
      (all events : List AgentEvent) (usage : RunUsage) (messages : List ModelMessage)
      (r : ResponsesResponse) (a b : Bool) (f : ReasoningEventFormat) (m : Normalizer)
      → all ≡ events ++ agent_run_result usage messages ∷ []
      → let n = normalize_all config codec all new_normalizer in
        n.result ≡ ok m
        → (run env n.events (new_composer r a b f)).result ≡ ok tt
        → Closes (composed_all (run env n.events (new_composer r a b f)).events)
  last_run all events usage messages r a b f m eq h k =
      let out = λ (t : List AgentEvent). normalize_all config codec t new_normalizer in
      let u = usage_final_of usage messages in
      let c = new_composer r a b f in
      let split : (out all).events ≡ (out events).events ++ usage_final u ∷ [] =
        ap (λ (t : List AgentEvent). (out t).events) eq
        ∙ normalize_all-last config codec events usage messages new_normalizer m
            (ap (λ (t : List AgentEvent). (out t).result) (sym eq) ∙ h) in
      let k' = ap (λ (t : List NormalizedEvent). (run env t c).result) (sym split) ∙ k in
      last_composed u (run env (out all).events c).events
        (rw split (run-ClosesWith env (out events).events u r a b f k'))

  last_stream :
      (upstream : Upstream) (r : ResponsesResponse) (a b : Bool) (f : ReasoningEventFormat)
      (m : Normalizer)
      → Concludes upstream
      → let n = normalize_all config codec upstream.events new_normalizer in
        let o = run env n.events (new_composer r a b f) in
        n.result ≡ ok m
        → o.result ≡ ok tt
        → end_of codec upstream.failure ≡ finished
        → Closes (composed_all o.events ++ closing codec upstream.failure o.state)
  unfolding closing end_of
  last_stream upstream r a b f m (inl (escaped t, e)) h k ended =
      let raised : end_of codec upstream.failure ≡ upstream_raised t = ap (end_of codec) e in cc
  last_stream upstream r a b f m (inl (reported failure, e)) h k ended =
      let n = normalize_all config codec upstream.events new_normalizer in
      let o = run env n.events (new_composer r a b f) in
      rw e (last_failed codec failure o.state (composed_all o.events))
  last_stream upstream r a b f m (inr (none_eq, (events, usage, messages, eq))) h k ended =
      let n = normalize_all config codec upstream.events new_normalizer in
      let o = run env n.events (new_composer r a b f) in
      rw (none_eq, closing, append-nil (composed_all o.events))
        (last_run upstream.events events usage messages r a b f m eq h k)

  -- The builtin tools are the search tool and the code interpreter, each delta and each end belongs
  -- to a part of the same sort that began at its index, and the upstream fails or its last event is
  -- the result of the run. Then the stream ends with a final event (completed, incomplete or
  -- failed) as its last one, unless an exception leaves it, which is the upstream's own where it is
  -- not one that the engine reports, or that a web search source or a code that is no text does not
  -- validate, or one of the normalizer for arguments or a search result that it cannot read: no
  -- look-up of an item fails, and no extractor runs for ever.
  pub iter_responses_events_stream-Ended :
      (r : ResponsesResponse) (a b : Bool) (f : ReasoningEventFormat) (upstream : Upstream)
      → all_known config config.builtin_tool_names ≡ true
      → well_formed [] upstream.events ≡ true
      → Concludes upstream
      → Ended upstream.failure (iter_responses_events_stream codec config env r a b f upstream)
  unfolding iter_responses_events_stream
  iter_responses_events_stream-Ended r a b f upstream known fit concludes =
      let n = normalize_all config codec upstream.events new_normalizer in
      let o = run env n.events (new_composer r a b f) in
      let (in_scope, live) = normalize_all-scoped config codec upstream.events known fit in
      end_stream-Ended o n.result upstream.failure o.result
        (run-scoped env n.events r a b f in_scope) live
        (λ m. last_stream upstream r a b f m concludes)
