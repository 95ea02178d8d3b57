-- ===== src/Composer/Closing.antt =====
-- A run whose last normalized event is the usage event.
use vllm_responses.Prelude.{
  ℕ, ◌≡◌, refl, sym, ap, ◌∙◌, inl, inr, Bool, true, List, [], ◌∷◌, ◌++◌, append_assoc,
}
use vllm_responses.Prelude.Result.{Result, ok, Result-cases}
use vllm_responses.Events.{NormalizedEvent, UsageFinal, usage_final}
use vllm_responses.Items.{ResponsesResponse}
use vllm_responses.Stream.{StreamEvent, lifecycle}
use vllm_responses.Composer.State.{
  ReasoningEventFormat, ResponseComposer, Environment, Outcome, Action, Error, ◌>>=◌, pure, gets,
  emit, continue,
}
use vllm_responses.Composer.{new_composer, run, feed, feed_all, start, start_events, set_started}
use vllm_responses.Composer.Completion.{set_response}
use vllm_responses.Composer.Handlers.{feed-Tracks}
use vllm_responses.Composer.Keys.{Grown-Rules}
use vllm_responses.Composer.Endings.{final_type, feed-usage_final}

-- The last event is the one that completes the response.
abbrev pub ClosesWith : UsageFinal → List StreamEvent → Type 0
ClosesWith e events =
    (before : List StreamEvent) × (n : ℕ) × (r : ResponsesResponse) × (events
      ≡ before ++ lifecycle (final_type e.incomplete_reason) n r ∷ [])

closes_behind :
    (e : UsageFinal) (front events : List StreamEvent)
    → ClosesWith e events
    → ClosesWith e (front ++ events)
closes_behind e front events (before, n, r, h) = (
  front ++ before,
  n,
  r,
  ap (λ (t : List StreamEvent). front ++ t) h ∙ sym (append_assoc front before _),
)

-- An action that comes to an end came to its end in its parts.
then-ok :
    (m n : Action (Unit {0})) (s : ResponseComposer)
    → ((m >>= λ _. n) s).result ≡ ok tt
    → ((n (m s).state).result ≡ ok tt)
      × (((m >>= λ _. n) s).events ≡ (m s).events ++ (n (m s).state).events)
unfolding ◌>>=◌
then-ok m n s h = elim (Result-cases (m s).result) [
  | inl (e, f) ↦
      let g = ap (λ (r : Result Error (Unit {0})). (continue r (λ _. n) (m s).state).result) f in cc
  | inr (u, f) ↦ (
    ap (λ (r : Result Error (Unit {0})). (continue r (λ _. n) (m s).state).result) (sym f) ∙ h,
    ap (λ (r : Result Error (Unit {0})). (m s).events ++ (continue r (λ _. n) (m s).state).events)
        f,
  )
]

feed_all-ClosesWith :
    (env : Environment) (events : List NormalizedEvent) (e : UsageFinal) (s : ResponseComposer)
    → s.started ≡ true
    → (feed_all env (events ++ usage_final e ∷ []) s).result ≡ ok tt
    → ClosesWith e (feed_all env (events ++ usage_final e ∷ []) s).events
unfolding feed_all pure
feed_all-ClosesWith env [] e s h k =
    let (k', split) = then-ok (feed env (usage_final e)) (pure tt) s k in
    ([], _, _, split ∙ ap (λ (o : Outcome (Unit {0})). o.events ++ []) (feed-usage_final env e s h))
feed_all-ClosesWith env (event ∷ events) e s h k =
    let (k', split) = then-ok (feed env event) (feed_all env (events ++ usage_final e ∷ [])) s k in
    let s' = (feed env event s).state in
    let started' = ((feed-Tracks Grown-Rules env event).at s).1 h in
    rw split (
      closes_behind e (feed env event s).events _ (feed_all-ClosesWith env events e s' started' k'))

-- A run that comes to an end and whose last normalized event is the usage event closes with it.
pub run-ClosesWith :
    (env : Environment) (events : List NormalizedEvent) (e : UsageFinal) (r : ResponsesResponse)
    (a b : Bool) (f : ReasoningEventFormat)
    → (run env (events ++ usage_final e ∷ []) (new_composer r a b f)).result ≡ ok tt
    → ClosesWith e (run env (events ++ usage_final e ∷ []) (new_composer r a b f)).events
unfolding run start start_events set_started gets set_response emit pure ◌>>=◌
run-ClosesWith env events e r a b f k =
    closes_behind e (start (new_composer r a b f)).events _
      (feed_all-ClosesWith env events e (start (new_composer r a b f)).state refl k)
