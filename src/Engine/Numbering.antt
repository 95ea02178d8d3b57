-- ===== src/Engine/Numbering.antt =====
-- The sequence numbers of the engine's streams.
use vllm_responses.Prelude.{
  ℕ, suc, ◌+◌, ◌≡◌, refl, sym, ap, ◌∙◌, Bool, Option, none, some, List, [], ◌∷◌, ◌++◌, map, length,
  append-nil, length-append, arith,
}
use mathlib.Core.List.{map-append}
use vllm_responses.Prelude.Result.{Result, ok, err}
use vllm_responses.Items.{ResponsesResponse}
use vllm_responses.Stream.{StreamEvent, sequence_number}
use vllm_responses.Composer.State.{
  ReasoningEventFormat, ResponseComposer, Environment, Outcome, Error,
}
use vllm_responses.Composer.{new_composer, run}
use vllm_responses.Composer.Handlers.{run-Tracks}
use vllm_responses.Composer.Numbering.{count_up, count_up-append, Numbers-Rules}
use vllm_responses.Normalizer.State.{NormalizerError, Normalizer, Config, Codec, new_normalizer}
use vllm_responses.Normalizer.{normalize_all}
use vllm_responses.Engine.{
  UpstreamError, Upstream, EngineEvent, reported, escaped, composed, error_event, response_failed,
  composed_all, failure_events, closing, end_stream, iter_responses_events_stream,
}

-- The number of an event
abbrev pub number_of : EngineEvent → ℕ
number_of (composed event) = sequence_number event
number_of (error_event code message param n) = n
number_of (response_failed n response error) = n

map-composed :
    (events : List StreamEvent) → map number_of (composed_all events) ≡ map sequence_number events
map-composed [] = refl
map-composed (e ∷ es) = ap (λ (t : List ℕ). sequence_number e ∷ t) (map-composed es)

length-composed : (events : List StreamEvent) → length (composed_all events) ≡ length events
length-composed [] = refl
length-composed (e ∷ es) = ap suc (length-composed es)

composed-numbers :
    (events : List StreamEvent)
    → map sequence_number events ≡ count_up 0 (length events)
    → map number_of (composed_all events) ≡ count_up 0 (length (composed_all events))
composed-numbers events h = map-composed events ∙ h ∙ ap (count_up 0) (sym (length-composed events))

closed-numbers :
    (codec : Codec) (events : List StreamEvent) (failure : Option UpstreamError)
    (s : ResponseComposer)
    → map sequence_number events ≡ count_up 0 (length events)
    → s.sequence_number ≡ length events
    → map number_of (composed_all events ++ closing codec failure s)
      ≡ count_up 0 (length (composed_all events ++ closing codec failure s))
unfolding closing failure_events
closed-numbers codec events none s h k =
    ap (map number_of) (append-nil (composed_all events))
    ∙ composed-numbers events h
    ∙ ap (λ (t : List EngineEvent). count_up 0 (length t)) (sym (append-nil (composed_all events)))
closed-numbers codec events (some (escaped e)) s h k =
    ap (map number_of) (append-nil (composed_all events))
    ∙ composed-numbers events h
    ∙ ap (λ (t : List EngineEvent). count_up 0 (length t)) (sym (append-nil (composed_all events)))
closed-numbers codec events (some (reported failure)) s h k =
    let front = composed_all events in
    let tail = closing codec (some (reported failure)) s in
    let l : s.sequence_number ≡ 0 + length front = omega (arith, length-composed events) in
    let l' : s.sequence_number + 1 ≡ suc (0 + length front) =
      omega (arith, length-composed events) in
    cc (
      map-append number_of front tail,
      composed-numbers events h,
      count_up-append 0 (length front) 2,
      length-append front tail,
    )

module _ (codec : Codec) (config : Config) (env : Environment) where
  end_stream-numbers :
      (o : Outcome (Unit {0})) (normalized : Result NormalizerError Normalizer)
      (failure : Option UpstreamError) (r : Result Error (Unit {0}))
      → map sequence_number o.events ≡ count_up 0 (length o.events)
      → o.state.sequence_number ≡ length o.events
      → let out = (end_stream codec o normalized failure r).events in
        map number_of out ≡ count_up 0 (length out)
  unfolding end_stream
  end_stream-numbers o normalized failure (err e) h k = composed-numbers o.events h
  end_stream-numbers o (err e) failure (ok u) h k = composed-numbers o.events h
  end_stream-numbers o (ok n) failure (ok u) h k = closed-numbers codec o.events failure o.state h k

  -- The events of a stream, whatever the upstream does and however the stream ends, have the sequence
  -- numbers 0, 1, 2 and so on, those of a reported failure included.
  pub iter_responses_events_stream-numbers :
      (response : ResponsesResponse) (a b : Bool) (format : ReasoningEventFormat)
      (upstream : Upstream)
      → let out =
          (iter_responses_events_stream codec config env response a b format upstream).events in
        map number_of out ≡ count_up 0 (length out)
  unfolding iter_responses_events_stream
  iter_responses_events_stream-numbers response a b format upstream =
      let n = normalize_all config codec upstream.events new_normalizer in
      let c = new_composer response a b format in
      let numbered = (run-Tracks Numbers-Rules env n.events).at c in
      end_stream-numbers (run env n.events c) n.result upstream.failure (run env n.events c).result
        numbered.numbers (omega (arith, numbered.next))
