-- ===== src/Composer/State.antt =====
-- The state of `ResponseComposer` (responses/python/vllm_responses/responses_core/composer.py),
-- and the actions that its handlers are made of. A handler is a generator: what it has yielded
-- before it raises has been delivered, so an action gives the events beside its result.
use vllm_responses.Prelude.{
  ℕ, ◌+◌, Text, Bool, Option, none, some, List, [], ◌∷◌, ◌++◌, get_elem?, set, length,
}
use vllm_responses.Prelude.Dict
use vllm_responses.Prelude.Dict.{Dict}
use vllm_responses.Prelude.Result.{Result, ok, err}
use vllm_responses.Events.{WebSearchActionType, CodeValue}
use vllm_responses.Items.{ResponsesResponse, Output, ReasoningItem, WebSearchSource}
use vllm_responses.Stream.{StreamEvent}

pub data ItemKind : Type 0 where
  message reasoning function_call custom_tool_call code_interpreter_call mcp_call web_search_call :
      ItemKind

pub record ItemState : Type 0 where
  pub item_id : Text
  pub output_index : ℕ
  pub kind : ItemKind
  pub text : Text
  pub reasoning : Text
  pub function_name : Option Text
  pub function_namespace : Option Text
  pub function_call_id : Option Text
  pub function_args_json : Text
  pub custom_tool_name : Option Text
  pub custom_tool_call_id : Option Text
  pub custom_tool_input : Text
  pub code : Option CodeValue
  pub code_stdout : Option Text
  pub code_stderr : Option Text
  pub code_result : Option Text
  pub container_id : Option Text
  pub mcp_server_label : Option Text
  pub mcp_name : Option Text
  pub mcp_arguments_json : Text
  pub mcp_output : Option Text
  pub mcp_error : Option Text
  pub web_search_action_type : Option WebSearchActionType
  pub web_search_query : Option Text
  pub web_search_queries : List Text
  pub web_search_sources : List (Dict Text)
  pub web_search_url : Option Text
  pub web_search_pattern : Option Text

abbrev pub new_item_state : Text → ℕ → ItemKind → ItemState
new_item_state id index kind = record {
  item_id = id;
  output_index = index;
  kind = kind;
  text = [];
  reasoning = [];
  function_name = none;
  function_namespace = none;
  function_call_id = none;
  function_args_json = [];
  custom_tool_name = none;
  custom_tool_call_id = none;
  custom_tool_input = [];
  code = none;
  code_stdout = none;
  code_stderr = none;
  code_result = none;
  container_id = none;
  mcp_server_label = none;
  mcp_name = none;
  mcp_arguments_json = [];
  mcp_output = none;
  mcp_error = none;
  web_search_action_type = none;
  web_search_query = none;
  web_search_queries = [];
  web_search_sources = [];
  web_search_url = none;
  web_search_pattern = none;
}

pub data ReasoningEventFormat : Type 0 where
  openai openresponses : ReasoningEventFormat

-- Item states are shared objects: `items` and `reasoning_state` hold their places in `states`.
-- `uuids` counts the identifiers drawn from `uuid7`.
pub record ResponseComposer : Type 0 where
  pub response : ResponsesResponse
  pub started : Bool
  pub sequence_number : ℕ
  pub next_output_index : ℕ
  pub states : List ItemState
  pub items : Dict ℕ
  pub output_items : List Output
  pub reasoning_item : Option ReasoningItem
  pub reasoning_state : Option ℕ
  pub reasoning_item_done_emitted : Bool
  pub reasoning_event_format : ReasoningEventFormat
  pub include_code_interpreter_outputs : Bool
  pub include_web_search_action_sources : Bool
  pub uuids : ℕ

-- What the handlers take from outside: the suffix of the n-th uuid, the clock, and the validation
-- of a web search source by pydantic.
pub record Environment : Type 0 where
  pub uuid7 : ℕ → Text
  pub time : ℕ
  pub validate_source : Dict Text → Option WebSearchSource

-- `dangling` stands for a place outside `states`, which Python has no way to hold.
pub data Error : Type 0 where
  not_started missing_reasoning_state dangling validation_error : Error
  key_error : Text → Error

pub record Outcome (A : Type 0) : Type 0 where
  pub state : ResponseComposer
  pub events : List StreamEvent
  pub result : Result Error A

abbrev pub Action : Type 0 → Type 0
Action A = ResponseComposer → Outcome A

module _ {A B : Type 0} where
  abbrev pub continue : Result Error A → (A → Action B) → Action B
  continue (ok a) f s = f a s
  continue (err e) f s = record { state = s; events = []; result = err e }

  infixl 5 ◌>>=◌ ◌>>◌
  unfoldable pub ◌>>=◌ : Action A → (A → Action B) → Action B
  ◌>>=◌ m f s =
      let o = m s in
      let o' = continue o.result f o.state in
      record { state = o'.state; events = o.events ++ o'.events; result = o'.result }

  abbrev pub ◌>>◌ : Action A → Action B → Action B
  m >> n = m >>= λ _. n

module _ {A : Type 0} where
  unfoldable pub pure : A → Action A
  pure a s = record { state = s; events = []; result = ok a }

  unfoldable pub raise : Error → Action A
  raise e s = record { state = s; events = []; result = err e }

  unfoldable pub gets : (ResponseComposer → A) → Action A
  gets f s = record { state = s; events = []; result = ok (f s) }

  -- `none` raises.
  unfoldable pub from_option : Error → Option A → Action A
  unfolding pure raise
  from_option e none = raise e
  from_option e (some a) = pure a

-- `yield` of an event that takes its number from `_incr_seq`.
unfoldable pub emit : (ℕ → StreamEvent) → Action (Unit {0})
emit event s = record {
  state = record s { sequence_number = s.sequence_number + 1 };
  events = event s.sequence_number ∷ [];
  result = ok tt;
}

unfoldable pub alloc_output_index : Action ℕ
alloc_output_index s = record {
  state = record s { next_output_index = s.next_output_index + 1 };
  events = [];
  result = ok s.next_output_index;
}

unfoldable pub uuid7_str : Environment → Text → Action Text
uuid7_str env prefix s = record {
  state = record s { uuids = s.uuids + 1 };
  events = [];
  result = ok (prefix ++ env.uuid7 s.uuids);
}

-- A new item state under its key.
unfoldable pub store_item : Text → ItemState → Action (Unit {0})
store_item key st s = record {
  state = record s { states = s.states ++ st ∷ []; items = Dict.put s.items key (length s.states) };
  events = [];
  result = ok tt;
}

unfoldable pub place_of : Text → Action ℕ
unfolding from_option
place_of key s = from_option (key_error key) (Dict.get s.items key) s

unfoldable pub update_at : ℕ → (ItemState → ItemState) → Action ItemState
update_at place f s = elim (get_elem? s.states place) [
  | none ↦ record { state = s; events = []; result = err dangling }
  | some st ↦ record {
    state = record s { states = set s.states place (f st) };
    events = [];
    result = ok (f st);
  }
]

-- `state = self._items[key]`, then the assignments `f` to its fields.
unfoldable pub touch : Text → (ItemState → ItemState) → Action ItemState
unfolding ◌>>=◌ place_of update_at
touch key f = do place ← place_of key; update_at place f

unfoldable pub append_output : Output → Action (Unit {0})
append_output o s = record {
  state = record s { output_items = s.output_items ++ o ∷ [] };
  events = [];
  result = ok tt;
}

abbrev pub or_empty : Option Text → Text
or_empty none = []
or_empty (some t) = t
