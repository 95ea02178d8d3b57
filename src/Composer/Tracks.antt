-- ===== src/Composer/Tracks.antt =====
-- What an action does from a state to a state with the events between them, as a relation that
-- composes: its rules for the ways in which actions are built.
use vllm_responses.Prelude.{Option, none, some, List, [], ◌∷◌, ◌++◌}
use vllm_responses.Prelude.Result.{Result, ok, err}
use vllm_responses.Stream.{StreamEvent}
use vllm_responses.Events.{NormalizedEvent}
use vllm_responses.Composer.State.{
  ResponseComposer, Environment, Action, Error, ◌>>=◌, continue, pure, raise, gets, from_option,
}
use vllm_responses.Composer.{feed_all, feed}

abbrev pub Relation : Type 1
Relation = ResponseComposer → List StreamEvent → ResponseComposer → Type 0

-- Nothing happens to a state, and what happens composes.
pub record IsTrack (T : Relation) : Type 0 where
  pub nil : (s : ResponseComposer) → T s [] s
  pub append :
      (s s' s'' : ResponseComposer) (es es' : List StreamEvent)
      → T s es s'
      → T s' es' s''
      → T s (es ++ es') s''

-- `m` does what `T` allows, whether it returns or raises.
pub record Tracks {A : Type 0} (T : Relation) (m : Action A) : Type 0 where
  pub at : (s : ResponseComposer) → T s (m s).events (m s).state

module _ {T : Relation} (track : IsTrack T) where
  pub Tracks-pure : {A : Type 0} (a : A) → Tracks T (pure a)
  unfolding pure
  Tracks-pure a = record { at = track.nil }

  pub Tracks-raise : {A : Type 0} (e : Error) → Tracks T (raise {A = A} e)
  unfolding raise
  Tracks-raise e = record { at = track.nil }

  pub Tracks-gets : {A : Type 0} (f : ResponseComposer → A) → Tracks T (gets f)
  unfolding gets
  Tracks-gets f = record { at = track.nil }

  pub Tracks-from_option : {A : Type 0} (e : Error) (o : Option A) → Tracks T (from_option e o)
  unfolding from_option
  Tracks-from_option e none = record { at = track.nil }
  Tracks-from_option e (some a) = record { at = track.nil }

  Tracks-continue :
      {A B : Type 0} (r : Result Error A) (f : A → Action B)
      → ((a : A) → Tracks T (f a))
      → Tracks T (continue r f)
  Tracks-continue (ok a) f h = record { at = (h a).at }
  Tracks-continue (err e) f h = record { at = track.nil }

  pub Tracks-bind :
      {A B : Type 0} (m : Action A) (f : A → Action B)
      → Tracks T m
      → ((a : A) → Tracks T (f a))
      → Tracks T (m >>= f)
  unfolding ◌>>=◌
  Tracks-bind m f hm hf = record {
    at = λ s.
        let o = m s in
        let o' = continue o.result f o.state in
        track.append s o.state o'.state o.events o'.events (hm.at s)
          ((Tracks-continue o.result f hf).at o.state);
  }

  -- A relation that every event tracks is tracked by every sequence of events.
  pub Tracks-feed_all :
      (env : Environment) (events : List NormalizedEvent)
      → ((event : NormalizedEvent) → Tracks T (feed env event))
      → Tracks T (feed_all env events)
  unfolding feed_all
  Tracks-feed_all env [] h = Tracks-pure tt
  Tracks-feed_all env (event ∷ events) h =
      Tracks-bind (feed env event) (λ _. feed_all env events) (h event)
        (λ _. Tracks-feed_all env events h)
