-- ===== src/Composer/Openings.antt =====
-- The handlers that open an item: each comes to an end and makes the key known.
use vllm_responses.Prelude.{Text, ◌≡◌, refl, true, Option, none, some, length}
use vllm_responses.Prelude.Result.{ok}
use vllm_responses.Events.{FunctionCallStarted, CustomToolCallStarted, McpCallStarted}
use vllm_responses.Items.{ReasoningItem}
use vllm_responses.Composer.State.{
  ResponseComposer, Environment, Outcome, ◌>>=◌, emit, alloc_output_index, uuid7_str, store_item,
  append_output,
}
use vllm_responses.Composer.Messages.{start_message}
use vllm_responses.Composer.Reasoning.{
  start_reasoning, start_reasoning_at, create_reasoning, store_reasoning, set_reasoning_item,
}
use vllm_responses.Composer.Sharing.{share_reasoning-some}
use vllm_responses.Composer.FunctionCalls.{start_function_call, start_custom_tool_call}
use vllm_responses.Composer.CodeInterpreter.{start_code_interpreter_call}
use vllm_responses.Composer.WebSearch.{start_web_search_call}
use vllm_responses.Composer.McpCalls.{start_mcp_call}
use vllm_responses.Composer.Safety.{IsValid}
use vllm_responses.Composer.Keys.{has, has-put_self}

-- An item is opened: the handler comes to an end, and the key is known.
pub record Opened (key : Text) (o : Outcome (Unit {0})) : Type 0 where
  pub done : o.result ≡ ok tt
  pub known : has o.state.items key ≡ true

pub start_message-Opened :
    (env : Environment) (key : Text) (s : ResponseComposer) → Opened key (start_message env key s)
unfolding start_message uuid7_str alloc_output_index store_item emit ◌>>=◌
start_message-Opened env key s = record {
  done = refl;
  known = has-put_self s.items key (length s.states);
}

pub start_function_call-Opened :
    (env : Environment) (e : FunctionCallStarted) (s : ResponseComposer)
    → Opened e.item_key (start_function_call env e s)
unfolding start_function_call uuid7_str alloc_output_index store_item emit ◌>>=◌
start_function_call-Opened env e s = record {
  done = refl;
  known = has-put_self s.items e.item_key (length s.states);
}

pub start_custom_tool_call-Opened :
    (env : Environment) (e : CustomToolCallStarted) (s : ResponseComposer)
    → Opened e.item_key (start_custom_tool_call env e s)
unfolding start_custom_tool_call uuid7_str alloc_output_index store_item emit ◌>>=◌
start_custom_tool_call-Opened env e s = record {
  done = refl;
  known = has-put_self s.items e.item_key (length s.states);
}

pub start_code_interpreter_call-Opened :
    (env : Environment) (key : Text) (code : Option Text) (s : ResponseComposer)
    → Opened key (start_code_interpreter_call env key code s)
unfolding start_code_interpreter_call uuid7_str alloc_output_index store_item emit ◌>>=◌
start_code_interpreter_call-Opened env key code s = record {
  done = refl;
  known = has-put_self s.items key (length s.states);
}

pub start_web_search_call-Opened :
    (env : Environment) (key : Text) (s : ResponseComposer)
    → Opened key (start_web_search_call env key s)
unfolding start_web_search_call uuid7_str alloc_output_index store_item emit ◌>>=◌
start_web_search_call-Opened env key s = record {
  done = refl;
  known = has-put_self s.items key (length s.states);
}

pub start_mcp_call-Opened :
    (env : Environment) (e : McpCallStarted) (s : ResponseComposer)
    → Opened e.item_key (start_mcp_call env e s)
unfolding start_mcp_call uuid7_str alloc_output_index store_item emit ◌>>=◌
start_mcp_call-Opened env e s = record {
  done = refl;
  known = has-put_self s.items e.item_key (length s.states);
}

create_reasoning-Opened :
    (env : Environment) (key : Text) (s : ResponseComposer)
    → Opened key (create_reasoning env key s)
unfolding create_reasoning uuid7_str alloc_output_index set_reasoning_item append_output
    store_reasoning emit ◌>>=◌
create_reasoning-Opened env key s = record {
  done = refl;
  known = has-put_self s.items key (length s.states);
}

start_reasoning_at-Opened :
    (env : Environment) (key : Text) (item : Option ReasoningItem) (s : ResponseComposer)
    → s.reasoning_item ≡ item
    → IsValid s
    → Opened key (start_reasoning_at env key item s)
unfolding start_reasoning_at
start_reasoning_at-Opened env key none s h v = create_reasoning-Opened env key s
start_reasoning_at-Opened env key (some item) s h v =
    let (place, p) = v.present item h in
    rw (share_reasoning-some key s place p)
      (record { done = refl; known = has-put_self s.items key place })

pub start_reasoning-Opened :
    (env : Environment) (key : Text) (s : ResponseComposer)
    → IsValid s
    → Opened key (start_reasoning env key s)
unfolding start_reasoning
start_reasoning-Opened env key s v = start_reasoning_at-Opened env key s.reasoning_item s refl v
