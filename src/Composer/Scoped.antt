-- ===== src/Composer/Scoped.antt =====
-- Runs on scoped events: no look-up fails.
use vllm_responses.Prelude.{
  ℕ, Text, ◌≡◌, refl, ap, ◌⊎◌, inl, inr, Bool, true, false, Option, none, some, List, [], ◌∷◌,
  member, text_eq, eq_of_text_eq, Bool-cases, arith,
}
use vllm_responses.Prelude.Dict
use vllm_responses.Prelude.Result.{Result, ok, err}
use vllm_responses.Events.{
  NormalizedEvent, IncompleteReason, UsageFinal, message_started, message_delta, message_done,
  reasoning_started, reasoning_delta, reasoning_done, function_call_started,
  function_call_arguments_delta, function_call_done, custom_tool_call_started,
  custom_tool_call_done, code_interpreter_call_started, code_interpreter_call_code_delta,
  code_interpreter_call_code_done, code_interpreter_call_interpreting,
  code_interpreter_call_completed, web_search_call_started, web_search_call_searching,
  web_search_call_completed, mcp_call_started, mcp_call_arguments_delta, mcp_call_arguments_done,
  mcp_call_completed, mcp_call_failed, usage_final,
}
use vllm_responses.Events.Scopes.{scoped, opens, follows, is_open, with_key}
use vllm_responses.Items.{ResponsesResponse}
use vllm_responses.Composer.State.{
  ReasoningEventFormat, ResponseComposer, Environment, Action, Outcome, Error, validation_error,
  ◌>>=◌, pure, gets, emit, continue,
}
use vllm_responses.Composer.Completion.{finish_as, set_response, complete_response}
use vllm_responses.Composer.Handlers.{feed-Tracks}
use vllm_responses.Composer.Safety.{IsValid, Kept-Rules}
use vllm_responses.Composer.Keys.{has, Grown-Rules}
use vllm_responses.Composer.Successes.{
  Works, message_delta-Works, message_done-Works, reasoning_delta-Works, reasoning_done-Works,
  function_args_delta-Works, function_done-Works, custom_tool_done-Works, code_delta-Works,
  code_done-Works, code_interpreting-Works, code_completed-Works,
  web_search_searching_handler-Works, web_search_completed_handler-Works, mcp_args_delta-Works,
  mcp_args_done-Works, mcp_completed-Works, mcp_failed-Works,
}
use vllm_responses.Composer.{
  new_composer, start, start_events, set_started, dispatch, feed_if, feed, feed_all, run,
}
use vllm_responses.Composer.Openings.{
  Opened, start_message-Opened, start_function_call-Opened, start_custom_tool_call-Opened,
  start_code_interpreter_call-Opened, start_web_search_call-Opened, start_mcp_call-Opened,
  start_reasoning-Opened,
}

-- A started composer in a valid state that knows the open keys
pub record Ready (s : ResponseComposer) (opened : List Text) : Type 0 where
  pub valid : IsValid s
  pub started : s.started ≡ true
  pub known : (key : Text) → member key opened ≡ true → has s.items key ≡ true

-- What an event comes to in a state that knows its item.
record Fed (opened : List Text) (event : NormalizedEvent) (o : Outcome (Unit {0})) : Type 0 where
  works : Works o.result
  known : (key : Text) → opens event ≡ some key → has o.state.items key ≡ true

module _ (env : Environment) (opened : List Text) (s : ResponseComposer) where
  step_of_start :
      (event : NormalizedEvent) (key : Text)
      → opens event ≡ some key
      → Opened key (dispatch env event s)
      → Fed opened event (dispatch env event s)
  step_of_start event key e o = record {
    works = inl o.done;
    known = λ k f. ground (arith, e, f, o.known);
  }

  step_of_follow :
      (event : NormalizedEvent)
      → opens event ≡ none
      → Works (dispatch env event s).result
      → Fed opened event (dispatch env event s)
  step_of_follow event e w = record { works = w; known = λ k f. cc }

  finish_as-ok :
      (reason : Option IncompleteReason) (r : ResponsesResponse) (s' : ResponseComposer)
      → (finish_as reason r s').result ≡ ok tt
  unfolding finish_as emit
  finish_as-ok none r s' = refl
  finish_as-ok (some reason) r s' = refl

  complete_response-ok : (e : UsageFinal) → (complete_response env e s).result ≡ ok tt
  unfolding complete_response gets set_response ◌>>=◌
  complete_response-ok e = finish_as-ok e.incomplete_reason _ _

  dispatch-Fed :
      (event : NormalizedEvent)
      → is_open opened (follows event) ≡ true
      → Ready s opened
      → Fed opened event (dispatch env event s)
  unfolding dispatch
  dispatch-Fed (message_started key) h r =
      step_of_start (message_started key) key refl (start_message-Opened env key s)
  dispatch-Fed (reasoning_started key) h r =
      step_of_start (reasoning_started key) key refl (start_reasoning-Opened env key s r.valid)
  dispatch-Fed (function_call_started e) h r =
      step_of_start (function_call_started e) e.item_key refl (start_function_call-Opened env e s)
  dispatch-Fed (custom_tool_call_started e) h r =
      step_of_start (custom_tool_call_started e) e.item_key refl
        (start_custom_tool_call-Opened env e s)
  dispatch-Fed (code_interpreter_call_started key code) h r =
      step_of_start (code_interpreter_call_started key code) key refl
        (start_code_interpreter_call-Opened env key code s)
  dispatch-Fed (web_search_call_started key) h r =
      step_of_start (web_search_call_started key) key refl (start_web_search_call-Opened env key s)
  dispatch-Fed (mcp_call_started e) h r =
      step_of_start (mcp_call_started e) e.item_key refl (start_mcp_call-Opened env e s)
  dispatch-Fed (message_delta key t) h r =
      step_of_follow (message_delta key t) refl
        (message_delta-Works s r.valid key t (r.known key h))
  dispatch-Fed (message_done key t) h r =
      step_of_follow (message_done key t) refl (message_done-Works s r.valid key t (r.known key h))
  dispatch-Fed (reasoning_delta key t) h r =
      step_of_follow (reasoning_delta key t) refl
        (reasoning_delta-Works s r.valid key t (r.known key h))
  dispatch-Fed (reasoning_done key t) h r =
      step_of_follow (reasoning_done key t) refl
        (reasoning_done-Works s r.valid key t (r.known key h))
  dispatch-Fed (function_call_arguments_delta key t) h r =
      step_of_follow (function_call_arguments_delta key t) refl
        (function_args_delta-Works s r.valid key t (r.known key h))
  dispatch-Fed (function_call_done key t) h r =
      step_of_follow (function_call_done key t) refl
        (function_done-Works s r.valid key t (r.known key h))
  dispatch-Fed (custom_tool_call_done key t) h r =
      step_of_follow (custom_tool_call_done key t) refl
        (custom_tool_done-Works s r.valid key t (r.known key h))
  dispatch-Fed (code_interpreter_call_code_delta key t) h r =
      step_of_follow (code_interpreter_call_code_delta key t) refl
        (code_delta-Works s r.valid key t (r.known key h))
  dispatch-Fed (code_interpreter_call_code_done key code) h r =
      step_of_follow (code_interpreter_call_code_done key code) refl
        (code_done-Works s r.valid key code (r.known key h))
  dispatch-Fed (code_interpreter_call_interpreting key) h r =
      step_of_follow (code_interpreter_call_interpreting key) refl
        (code_interpreting-Works s r.valid key (r.known key h))
  dispatch-Fed (code_interpreter_call_completed e) h r =
      step_of_follow (code_interpreter_call_completed e) refl
        (code_completed-Works s r.valid env e (r.known e.item_key h))
  dispatch-Fed (web_search_call_searching key) h r =
      step_of_follow (web_search_call_searching key) refl
        (web_search_searching_handler-Works s r.valid key (r.known key h))
  dispatch-Fed (web_search_call_completed e) h r =
      step_of_follow (web_search_call_completed e) refl
        (web_search_completed_handler-Works s r.valid env e (r.known e.item_key h))
  dispatch-Fed (mcp_call_arguments_delta key t) h r =
      step_of_follow (mcp_call_arguments_delta key t) refl
        (mcp_args_delta-Works s r.valid key t (r.known key h))
  dispatch-Fed (mcp_call_arguments_done key t) h r =
      step_of_follow (mcp_call_arguments_done key t) refl
        (mcp_args_done-Works s r.valid key t (r.known key h))
  dispatch-Fed (mcp_call_completed key t) h r =
      step_of_follow (mcp_call_completed key t) refl
        (mcp_completed-Works s r.valid key t (r.known key h))
  dispatch-Fed (mcp_call_failed key t) h r =
      step_of_follow (mcp_call_failed key t) refl (mcp_failed-Works s r.valid key t (r.known key h))
  dispatch-Fed (usage_final e) h r =
      step_of_follow (usage_final e) refl (inl (complete_response-ok e))

  feed_if-Fed :
      (b : Bool) (event : NormalizedEvent)
      → b ≡ true
      → is_open opened (follows event) ≡ true
      → Ready s opened
      → Fed opened event (feed_if b env event s)
  unfolding feed_if
  feed_if-Fed false event e h r = cc
  feed_if-Fed true event e h r = dispatch-Fed event h r

  feed-Fed :
      (event : NormalizedEvent)
      → is_open opened (follows event) ≡ true
      → Ready s opened
      → Fed opened event (feed env event s)
  unfolding feed
  feed-Fed event h r = feed_if-Fed s.started event r.started h r

  known_after :
      (o : Option Text) (items : Dict.Dict ℕ)
      → ((key : Text) → member key opened ≡ true → has items key ≡ true)
      → ((key : Text) → o ≡ some key → has items key ≡ true)
      → (key : Text) → member key (with_key o opened) ≡ true
      → has items key ≡ true
  known_after none items old new key m = old key m
  known_after (some k) items old new key m = elim (Bool-cases (text_eq k key)) [
    | inl e ↦ rw (← eq_of_text_eq k key e) (new k refl)
    | inr e ↦ old key (ground arith)
  ]

  feed-Ready :
      (event : NormalizedEvent)
      → is_open opened (follows event) ≡ true
      → Ready s opened
      → Ready (feed env event s).state (with_key (opens event) opened)
  feed-Ready event h r =
      let grown = (feed-Tracks Grown-Rules env event).at s in
      record {
        valid = (feed-Tracks Kept-Rules env event).at s r.valid;
        started = grown.1 r.started;
        known =
            known_after (opens event) (feed env event s).state.items
              (λ key m. grown.0 key (r.known key m)) (feed-Fed event h r).known;
      }

-- One action after another: the second matters only if the first comes to an end.
then-Works :
    (m n : Action (Unit {0})) (s : ResponseComposer)
    → Works (m s).result
    → Works (n (m s).state).result
    → Works ((m >>= λ _. n) s).result
unfolding ◌>>=◌
then-Works m n s (inl e) w =
    rw (ap (λ (r : Result Error (Unit {0})). (continue r (λ _. n) (m s).state).result) e) w
then-Works m n s (inr e) w =
    inr (ap (λ (r : Result Error (Unit {0})). (continue r (λ _. n) (m s).state).result) e)

feed_all-Works :
    (env : Environment) (opened : List Text) (events : List NormalizedEvent) (s : ResponseComposer)
    → scoped opened events ≡ true
    → Ready s opened
    → Works (feed_all env events s).result
unfolding feed_all pure scoped
feed_all-Works env opened [] s h r = inl refl
feed_all-Works env opened (event ∷ events) s h r =
    let inner : is_open opened (follows event) ≡ true = ground arith in
    then-Works (feed env event) (feed_all env events) s (feed-Fed env opened s event inner r).works
      (feed_all-Works env (with_key (opens event) opened) events (feed env event s).state
        (ground arith) (feed-Ready env opened s event inner r))

new_composer-Ready :
    (r : ResponsesResponse) (a b : Bool) (f : ReasoningEventFormat)
    → Ready (start (new_composer r a b f)).state []
unfolding start start_events set_started gets set_response emit pure ◌>>=◌ Dict.get
new_composer-Ready r a b f = record {
  valid = record { items = λ key place e. cc; shared = λ place e. cc; present = λ item e. cc };
  started = refl;
  known = λ key m. cc;
}

start-ok :
    (r : ResponsesResponse) (a b : Bool) (f : ReasoningEventFormat)
    → (start (new_composer r a b f)).result ≡ ok tt
unfolding start start_events set_started gets set_response emit pure ◌>>=◌
start-ok r a b f = refl

-- On events of which each that goes on with an item comes behind the one that opens this item, a
-- run of a new composer ends without an exception, or with the one that a web search source or a
-- code that is no text does not validate: no look-up of an item fails, and no event comes before
-- the start.
pub run-scoped :
    (env : Environment) (events : List NormalizedEvent) (r : ResponsesResponse) (a b : Bool)
    (f : ReasoningEventFormat)
    → scoped [] events ≡ true
    → ((run env events (new_composer r a b f)).result ≡ ok tt)
      ⊎ ((run env events (new_composer r a b f)).result ≡ err validation_error)
unfolding run
run-scoped env events r a b f h =
    let s = new_composer r a b f in
    then-Works start (feed_all env events) s (inl (start-ok r a b f))
      (feed_all-Works env [] events (start s).state h (new_composer-Ready r a b f))
