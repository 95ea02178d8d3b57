-- ===== src/Store/Privacy.antt =====
-- What a stored payload holds of instruction messages and of the credentials of MCP tools.
use vllm_responses.Prelude.{
  Text, Bool, true, false, ◌||◌, inl, inr, ◌≡◌, refl, Option, none, some, List, [], ◌∷◌, arith,
}
use vllm_responses.Prelude.Result.{ok, Result-cases}
use vllm_responses.Store.{
  Input, message, item, Role, system, developer, user, assistant, Tool, mcp, other_tool,
  ResponsesRequest, Response, StoredResponsePayload, Pydantic,
}
use vllm_responses.Store.Instructions.{
  normalize_input, strip_messages, strip_request_instruction_messages, sanitize_tools,
  sanitize_effective_tools_for_storage,
}
use vllm_responses.Store.Table.{payload_of}
use vllm_responses.Store.Conversations.{payload_of-ok}

abbrev pub is_instruction : Role → Bool
is_instruction system = true
is_instruction developer = true
is_instruction user = false
is_instruction assistant = false

abbrev pub is_set {ℓ} : {A : Type ℓ} → Option A → Bool
is_set none = false
is_set (some a) = true

abbrev pub any_credentials : List Tool → Bool
any_credentials [] = false
any_credentials (other_tool name ∷ ts) = any_credentials ts
any_credentials (mcp t ∷ ts) = is_set t.authorization || (is_set t.headers || any_credentials ts)

abbrev pub has_credentials : Option (List Tool) → Bool
has_credentials none = false
has_credentials (some ts) = any_credentials ts

module _ {Item : Type 0} where
  abbrev pub has_instructions : List (Input Item) → Bool
  has_instructions [] = false
  has_instructions (item x ∷ xs) = has_instructions xs
  has_instructions (message m ∷ xs) = is_instruction m.role || has_instructions xs

  strip_messages-has_instructions :
      (xs : List (Input Item)) (r : List (Input Item) × List Text)
      → strip_messages xs ≡ ok r
      → has_instructions r.0 ≡ false
  unfolding strip_messages
  strip_messages-has_instructions [] r h = ground arith
  strip_messages-has_instructions (item x ∷ xs) r h = elim (Result-cases (strip_messages xs)) [
    | inl (e, p) ↦ ground arith
    | inr (a, p) ↦ let q = strip_messages-has_instructions xs a p in ground arith
  ]
  strip_messages-has_instructions (message m ∷ xs) r h = elim (Result-cases (strip_messages xs)) [
    | inl (e, p) ↦ ground arith
    | inr (a, p) ↦ let q = strip_messages-has_instructions xs a p in ground arith
  ]

strip_request-has_instructions :
    {Item : Type 0} (xs : List (Input Item)) (r : List (Input Item) × Option Text)
    → strip_request_instruction_messages xs ≡ ok r
    → has_instructions r.0 ≡ false
unfolding strip_request_instruction_messages
strip_request-has_instructions xs r h = elim (Result-cases (strip_messages xs)) [
  | inl (e, p) ↦ ground arith
  | inr (a, p) ↦ let q = strip_messages-has_instructions xs a p in ground arith
]

any_credentials-sanitize_tools : (ts : List Tool) → any_credentials (sanitize_tools ts) ≡ false
unfolding sanitize_tools
any_credentials-sanitize_tools [] = refl
any_credentials-sanitize_tools (mcp t ∷ ts) = any_credentials-sanitize_tools ts
any_credentials-sanitize_tools (other_tool name ∷ ts) = any_credentials-sanitize_tools ts

has_credentials-sanitize_effective_tools :
    (o : Option (List Tool)) → has_credentials (sanitize_effective_tools_for_storage o) ≡ false
unfolding sanitize_effective_tools_for_storage
has_credentials-sanitize_effective_tools none = refl
has_credentials-sanitize_effective_tools (some ts) = any_credentials-sanitize_tools ts

-- Whether a payload holds credentials, in the tools to inherit or in those of its response
abbrev pub holds_credentials : {Item : Type 0} → StoredResponsePayload Item → Bool
holds_credentials payload =
    has_credentials payload.effective_tools || any_credentials payload.response.tools

-- The payload that is stored of a request holds no system or developer message in its history, and
-- the tools that the next request may inherit have no authorization or headers of an MCP tool; but
-- the payload as a whole holds such credentials exactly if the tools of the response have them.
pub payload_of-credentials :
    {Item State : Type 0} (pydantic : Pydantic Item State) (hydrated : ResponsesRequest Item)
    (response : Response Item) (payload : StoredResponsePayload Item)
    → payload_of pydantic hydrated response ≡ ok payload
    → (has_instructions payload.hydrated_input ≡ false)
      × (has_credentials payload.effective_tools ≡ false)
      × (holds_credentials payload ≡ any_credentials response.tools)
payload_of-credentials pydantic hydrated response payload h =
    let (prior, s, is) = payload_of-ok pydantic hydrated response payload h in
    let i = strip_request-has_instructions (normalize_input hydrated.input) prior s in
    let e = has_credentials-sanitize_effective_tools hydrated.tools in
    let none_effective : has_credentials payload.effective_tools ≡ false = cc in
    let same : payload.response ≡ response = cc in (cc, none_effective, ground arith)
