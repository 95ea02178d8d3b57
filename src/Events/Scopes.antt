-- ===== src/Events/Scopes.antt =====
-- Which events of models.py open an item, and which go on with one that is open.
use vllm_responses.Prelude.{
  Text, ◌≡◌, refl, Bool, true, ◌&&◌, Option, none, some, List, [], ◌∷◌, ◌++◌, member, arith,
}
use vllm_responses.Events.{
  NormalizedEvent, message_started, message_delta, message_done, reasoning_started, reasoning_delta,
  reasoning_done, function_call_started, function_call_arguments_delta, function_call_done,
  custom_tool_call_started, custom_tool_call_done, code_interpreter_call_started,
  code_interpreter_call_code_delta, code_interpreter_call_code_done,
  code_interpreter_call_interpreting, code_interpreter_call_completed, web_search_call_started,
  web_search_call_searching, web_search_call_completed, mcp_call_started, mcp_call_arguments_delta,
  mcp_call_arguments_done, mcp_call_completed, mcp_call_failed,
}

-- The key of the item that the event opens
abbrev pub opens : NormalizedEvent → Option Text
opens (message_started key) = some key
opens (reasoning_started key) = some key
opens (function_call_started e) = some e.item_key
opens (custom_tool_call_started e) = some e.item_key
opens (code_interpreter_call_started key code) = some key
opens (web_search_call_started key) = some key
opens (mcp_call_started e) = some e.item_key
opens _ = none

-- The key of the item that the event goes on with
abbrev pub follows : NormalizedEvent → Option Text
follows (message_delta key delta) = some key
follows (message_done key text) = some key
follows (reasoning_delta key delta) = some key
follows (reasoning_done key text) = some key
follows (function_call_arguments_delta key delta) = some key
follows (function_call_done key arguments) = some key
follows (custom_tool_call_done key input) = some key
follows (code_interpreter_call_code_delta key delta) = some key
follows (code_interpreter_call_code_done key code) = some key
follows (code_interpreter_call_interpreting key) = some key
follows (code_interpreter_call_completed e) = some e.item_key
follows (web_search_call_searching key) = some key
follows (web_search_call_completed e) = some e.item_key
follows (mcp_call_arguments_delta key delta) = some key
follows (mcp_call_arguments_done key arguments) = some key
follows (mcp_call_completed key output) = some key
follows (mcp_call_failed key error) = some key
follows _ = none

abbrev pub is_open : List Text → Option Text → Bool
is_open opened none = true
is_open opened (some key) = member key opened

abbrev pub with_key : Option Text → List Text → List Text
with_key none opened = opened
with_key (some key) opened = key ∷ opened

-- The keys that are open behind the events
unfoldable pub opened_after : List Text → List NormalizedEvent → List Text
opened_after opened [] = opened
opened_after opened (e ∷ es) = opened_after (with_key (opens e) opened) es

-- Every event that goes on with an item comes behind the one that opens it.
unfoldable pub scoped : List Text → List NormalizedEvent → Bool
scoped opened [] = true
scoped opened (e ∷ es) = is_open opened (follows e) && scoped (with_key (opens e) opened) es

pub scoped-append :
    (opened : List Text) (es fs : List NormalizedEvent)
    → scoped opened es ≡ true
    → scoped (opened_after opened es) fs ≡ true
    → scoped opened (es ++ fs) ≡ true
unfolding scoped opened_after
scoped-append opened [] fs h k = k
scoped-append opened (e ∷ es) fs h k =
    ground (arith, scoped-append (with_key (opens e) opened) es fs)

pub opened_after-append :
    (opened : List Text) (es fs : List NormalizedEvent)
    → opened_after opened (es ++ fs) ≡ opened_after (opened_after opened es) fs
unfolding opened_after
opened_after-append opened [] fs = refl
opened_after-append opened (e ∷ es) fs = opened_after-append (with_key (opens e) opened) es fs
