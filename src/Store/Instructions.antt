-- ===== src/Store/Instructions.antt =====
-- The instructions in a request's messages: `_normalize_input`, `_instruction_text_from_message`,
-- `_join_instruction_parts`, `_strip_request_instruction_messages`,
-- `_extract_current_system_instruction` and `_sanitize_effective_tools_for_storage`.
use vllm_responses.Prelude.{
  rstrip, join, Text, Option, none, some, List, [], ◌∷◌, is_empty, if◌then◌else◌,
}
use vllm_responses.Prelude.Result.{Result, ok, err, ◌>>=◌}
use vllm_responses.Store.{
  user, assistant, system, developer, Part, text_content, image_content, string, parts, Message,
  Input, message, item, RequestInput, shorthand, items, Tool, mcp, other_tool, StoreError,
  bad_input,
}

-- Python's `a or b`
unfoldable pub or_else : Option Text → Option Text → Option Text
or_else (some (c ∷ t)) b = some (c ∷ t)
or_else _ b = b

unfoldable pub texts_of : List Part → Result StoreError (List Text)
texts_of [] = ok []
texts_of (text_content t ∷ ps) = do ts ← texts_of ps; ok (t ∷ ts)
texts_of (image_content url ∷ ps) = err bad_input

unfoldable pub instruction_text_from_message : Message → Result StoreError Text
unfolding join texts_of
instruction_text_from_message m = elim m.content [
  | string t ↦ ok t
  | parts ps ↦ do ts ← texts_of ps; ok (join (10 ∷ []) ts)
]

-- `part.rstrip() for part in parts if part`
unfoldable pub stripped : List Text → List Text
unfolding rstrip
stripped [] = []
stripped (t ∷ ts) = if is_empty t then stripped ts else rstrip t ∷ stripped ts

unfoldable pub join_instruction_parts : List Text → Option Text
unfolding join stripped
join_instruction_parts ts =
    let merged = join (10 ∷ 10 ∷ []) (stripped ts) in if is_empty merged then none else some merged

module _ {Item : Type 0} where
  unfoldable pub normalize_input : RequestInput Item → List (Input Item)
  normalize_input (shorthand t) =
      message (record { role = user; content = string t; status = none }) ∷ []
  normalize_input (items xs) = xs

  -- The loop of `_strip_request_instruction_messages`: replayable items and system parts.
  unfoldable pub strip_messages :
      List (Input Item) → Result StoreError (List (Input Item) × List Text)
  unfolding instruction_text_from_message
  strip_messages [] = ok ([], [])
  strip_messages (message m ∷ xs) = elim m.role [
    | system ↦ do t ← instruction_text_from_message m; r ← strip_messages xs; ok (r.0, t ∷ r.1)
    | developer ↦ strip_messages xs
    | user ↦ do r ← strip_messages xs; ok (message m ∷ r.0, r.1)
    | assistant ↦ do r ← strip_messages xs; ok (message m ∷ r.0, r.1)
  ]
  strip_messages (item x ∷ xs) = do r ← strip_messages xs; ok (item x ∷ r.0, r.1)

  unfoldable pub strip_request_instruction_messages :
      List (Input Item) → Result StoreError (List (Input Item) × Option Text)
  unfolding strip_messages
  strip_request_instruction_messages xs = do
    r ← strip_messages xs
    ok (r.0, join_instruction_parts r.1)

  unfoldable pub extract_messages :
      List (Input Item) → Result StoreError (List (Input Item) × List Text)
  unfolding instruction_text_from_message
  extract_messages [] = ok ([], [])
  extract_messages (message m ∷ xs) = elim m.role [
    | system ↦ do t ← instruction_text_from_message m; r ← extract_messages xs; ok (r.0, t ∷ r.1)
    | developer ↦ do r ← extract_messages xs; ok (message m ∷ r.0, r.1)
    | user ↦ do r ← extract_messages xs; ok (message m ∷ r.0, r.1)
    | assistant ↦ do r ← extract_messages xs; ok (message m ∷ r.0, r.1)
  ]
  extract_messages (item x ∷ xs) = do r ← extract_messages xs; ok (item x ∷ r.0, r.1)

  unfoldable pub extract_current_system_instruction :
      List (Input Item) → Result StoreError (List (Input Item) × Option Text)
  unfolding extract_messages
  extract_current_system_instruction xs = do
    r ← extract_messages xs
    ok (r.0, join_instruction_parts r.1)

-- The credentials of MCP tools are not stored.
unfoldable pub sanitize_tools : List Tool → List Tool
sanitize_tools [] = []
sanitize_tools (mcp t ∷ ts) =
    mcp (record t { authorization = none; headers = none }) ∷ sanitize_tools ts
sanitize_tools (other_tool name ∷ ts) = other_tool name ∷ sanitize_tools ts

unfoldable pub sanitize_effective_tools_for_storage : Option (List Tool) → Option (List Tool)
unfolding sanitize_tools
sanitize_effective_tools_for_storage none = none
sanitize_effective_tools_for_storage (some ts) = some (sanitize_tools ts)
