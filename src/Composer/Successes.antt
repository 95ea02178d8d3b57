-- ===== src/Composer/Successes.antt =====
-- What each handler comes to in a valid state that knows the key: only a web search source or a
-- code that does not validate raises.
use vllm_responses.Prelude.{
  Text, ◌≡◌, refl, ap, ◌⊎◌, inl, inr, Bool, true, false, Option, none, some, [], ◌∷◌, set,
  Option-cases,
}
use vllm_responses.Prelude.Dict
use vllm_responses.Prelude.Result.{Result, ok, err}
use vllm_responses.Events.{CodeInterpreterCallCompleted, CodeValue, WebSearchCallCompleted}
use vllm_responses.Items.{ReasoningItem}
use vllm_responses.Composer.State.{
  ResponseComposer, ItemState, Environment, Action, Error, Outcome, validation_error, ◌>>=◌, pure,
  gets, from_option, emit, uuid7_str, touch, append_output, continue, raise,
}
use vllm_responses.Composer.Touch.{touch-some}
use vllm_responses.Composer.Messages.{message_delta, message_done}
use vllm_responses.Composer.Reasoning.{
  reasoning_delta, reasoning_done, emit_reasoning_done, change_reasoning_item, mark_reasoning_done,
}
use vllm_responses.Composer.FunctionCalls.{function_args_delta, function_done, custom_tool_done}
use vllm_responses.Composer.CodeInterpreter.{
  code_delta, code_done, code_interpreting, code_completed, container_of, valid_code,
}
use vllm_responses.Composer.WebSearch.{
  web_search_searching_handler, web_search_completed_handler, item_action,
}
use vllm_responses.Composer.McpCalls.{mcp_args_delta, mcp_args_done, mcp_completed, mcp_failed}
use vllm_responses.Composer.Safety.{IsValid}
use vllm_responses.Composer.Lookups.{get_elem?-below}
use vllm_responses.Composer.Keys.{has, is_some}

abbrev pub Works : Result Error (Unit {0}) → Type 0
Works r = (r ≡ ok tt) ⊎ (r ≡ err validation_error)

-- A look-up that succeeds goes on.
touch-continues :
    {B : Type 0} (key : Text) (f : ItemState → ItemState) (k : ItemState → Action B)
    (s : ResponseComposer)
    → IsValid s
    → has s.items key ≡ true
    → (st : ItemState) × (s' : ResponseComposer) × (((touch key f >>= k) s).result
        ≡ (k st s').result)
unfolding ◌>>=◌
touch-continues key f k s v h = elim (Option-cases (Dict.get s.items key)) [
  | inl e ↦ let unknown = ap is_some e in cc
  | inr (place, e) ↦
      let (st, found) = get_elem?-below s.states place (v.items key place e) in
      (
        f st,
        record s { states = set s.states place (f st) },
        ap (λ (o : Outcome ItemState). (continue o.result k o.state).result)
            (touch-some key f s place st e found),
      )
]

module _ (s : ResponseComposer) (v : IsValid s) where
  touching :
      (key : Text) (f : ItemState → ItemState) (k : ItemState → Action (Unit {0}))
      → has s.items key ≡ true
      → ((st : ItemState) (s' : ResponseComposer) → Works (k st s').result)
      → Works ((touch key f >>= k) s).result
  touching key f k h works = let (st, s', e) = touch-continues key f k s v h in rw e (works st s')

  pub message_delta-Works :
      (key t : Text) → has s.items key ≡ true → Works (message_delta key t s).result
  unfolding message_delta emit append_output gets ◌>>=◌
  message_delta-Works key t h = touching key _ _ h (λ st s'. inl refl)

  pub message_done-Works :
      (key t : Text) → has s.items key ≡ true → Works (message_done key t s).result
  unfolding message_done emit append_output gets ◌>>=◌
  message_done-Works key t h = touching key _ _ h (λ st s'. inl refl)

  pub reasoning_delta-Works :
      (key t : Text) → has s.items key ≡ true → Works (reasoning_delta key t s).result
  unfolding reasoning_delta emit append_output gets ◌>>=◌
  reasoning_delta-Works key t h = touching key _ _ h (λ st s'. inl refl)

  pub function_args_delta-Works :
      (key t : Text) → has s.items key ≡ true → Works (function_args_delta key t s).result
  unfolding function_args_delta emit append_output gets ◌>>=◌
  function_args_delta-Works key t h = touching key _ _ h (λ st s'. inl refl)

  pub function_done-Works :
      (key t : Text) → has s.items key ≡ true → Works (function_done key t s).result
  unfolding function_done emit append_output gets ◌>>=◌
  function_done-Works key t h = touching key _ _ h (λ st s'. inl refl)

  pub custom_tool_done-Works :
      (key t : Text) → has s.items key ≡ true → Works (custom_tool_done key t s).result
  unfolding custom_tool_done emit append_output gets ◌>>=◌
  custom_tool_done-Works key t h = touching key _ _ h (λ st s'. inl refl)

  pub code_delta-Works : (key t : Text) → has s.items key ≡ true → Works (code_delta key t s).result
  unfolding code_delta emit append_output gets ◌>>=◌
  code_delta-Works key t h = touching key _ _ h (λ st s'. inl refl)

  -- An option that raises when a value does not validate.
  from_option-Works :
      {A : Type 0} (o : Option A) (k : A → Action (Unit {0})) (s' : ResponseComposer)
      → ((a : A) (s'' : ResponseComposer) → (k a s'').result ≡ ok tt)
      → Works ((from_option validation_error o >>= k) s').result
  unfolding from_option pure raise ◌>>=◌
  from_option-Works none k s' h = inr refl
  from_option-Works (some a) k s' h = inl (h a _)

  pub code_done-Works :
      (key : Text) (code : Option CodeValue)
      → has s.items key ≡ true
      → Works (code_done key code s).result
  unfolding code_done emit append_output gets ◌>>=◌
  code_done-Works key code h =
      touching key _ _ h (λ st s'. from_option-Works (valid_code code) _ s' (λ a s''. refl))

  pub code_interpreting-Works :
      (key : Text) → has s.items key ≡ true → Works (code_interpreting key s).result
  unfolding code_interpreting emit append_output gets ◌>>=◌
  code_interpreting-Works key h = touching key _ _ h (λ st s'. inl refl)

  pub web_search_searching_handler-Works :
      (key : Text) → has s.items key ≡ true → Works (web_search_searching_handler key s).result
  unfolding web_search_searching_handler emit append_output gets ◌>>=◌
  web_search_searching_handler-Works key h = touching key _ _ h (λ st s'. inl refl)

  pub mcp_args_delta-Works :
      (key t : Text) → has s.items key ≡ true → Works (mcp_args_delta key t s).result
  unfolding mcp_args_delta emit append_output gets ◌>>=◌
  mcp_args_delta-Works key t h = touching key _ _ h (λ st s'. inl refl)

  pub mcp_args_done-Works :
      (key t : Text) → has s.items key ≡ true → Works (mcp_args_done key t s).result
  unfolding mcp_args_done emit append_output gets ◌>>=◌
  mcp_args_done-Works key t h = touching key _ _ h (λ st s'. inl refl)

  pub mcp_completed-Works :
      (key t : Text) → has s.items key ≡ true → Works (mcp_completed key t s).result
  unfolding mcp_completed emit append_output gets ◌>>=◌
  mcp_completed-Works key t h = touching key _ _ h (λ st s'. inl refl)

  pub mcp_failed-Works : (key t : Text) → has s.items key ≡ true → Works (mcp_failed key t s).result
  unfolding mcp_failed emit append_output gets ◌>>=◌
  mcp_failed-Works key t h = touching key _ _ h (λ st s'. inl refl)

  emit_reasoning_done-ok :
      (st : ItemState) (found : Option ReasoningItem) (b : Bool) (s' : ResponseComposer)
      → (emit_reasoning_done st found b s').result ≡ ok tt
  unfolding emit_reasoning_done mark_reasoning_done emit pure ◌>>=◌
  emit_reasoning_done-ok st (some item) false s' = refl
  emit_reasoning_done-ok st _ _ s' = refl

  pub reasoning_done-Works :
      (key t : Text) → has s.items key ≡ true → Works (reasoning_done key t s).result
  unfolding reasoning_done emit gets change_reasoning_item ◌>>=◌
  reasoning_done-Works key t h = touching key _ _ h (λ st s'. inl (emit_reasoning_done-ok st _ _ _))

  container_of-Works :
      (env : Environment) (o : Option Text) (k : Text → Action (Unit {0})) (s' : ResponseComposer)
      → ((t : Text) (s'' : ResponseComposer) → Works (k t s'').result)
      → Works ((container_of env o >>= k) s').result
  unfolding container_of uuid7_str pure ◌>>=◌
  container_of-Works env none k s' h = h _ _
  container_of-Works env (some []) k s' h = h _ _
  container_of-Works env (some (c ∷ cs)) k s' h = h _ _

  pub code_completed-Works :
      (env : Environment) (e : CodeInterpreterCallCompleted)
      → has s.items e.item_key ≡ true
      → Works (code_completed env e s).result
  unfolding code_completed emit append_output gets ◌>>=◌
  code_completed-Works env e h = touching e.item_key _ _ h (λ st s'.
      container_of-Works env st.container_id _ _
        (λ t s''. from_option-Works (valid_code st.code) _ s'' (λ a s'''. refl)))

  pub web_search_completed_handler-Works :
      (env : Environment) (e : WebSearchCallCompleted)
      → has s.items e.item_key ≡ true
      → Works (web_search_completed_handler env e s).result
  unfolding web_search_completed_handler emit append_output gets ◌>>=◌
  web_search_completed_handler-Works env e h =
      touching e.item_key _ _ h
        (λ st s'. from_option-Works (item_action env _ e.action_type e) _ _ (λ a s''. refl))
