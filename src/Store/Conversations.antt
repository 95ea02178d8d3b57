-- ===== src/Store/Conversations.antt =====
-- What the store promises over requests: the cache is never seen, and a conversation goes on with
-- the whole history.
use vllm_responses.Prelude.{
  Text, Bool, true, false, ◌≡◌, ap, sym, ◌∙◌, inl, inr, Option, none, some, List, ◌++◌, map,
  if◌then◌else◌,
}
use vllm_responses.Prelude.Dict
use vllm_responses.Prelude.Dict.{Dict, get-put, get-put_self}
use vllm_responses.Prelude.Result.{Result, ok, err, Result-cases}
use vllm_responses.Store.{
  TextFormat, json_schema, Input, message, item, items, Tool, ToolChoice, ResponsesRequest,
  Response, StoredResponsePayload, Pydantic,
}
use vllm_responses.Store.Instructions.{
  normalize_input, strip_request_instruction_messages, sanitize_effective_tools_for_storage,
  or_else,
}
use vllm_responses.Store.Table.{payload_of}

ok_or {ℓ} : {E A : Type ℓ} → A → Result E A → A
ok_or a (ok b) = b
ok_or a (err e) = a

module _ {Item : Type 0} where
  -- What comes back of a message or an item
  abbrev pub kept_input : (Item → Item) → Input Item → Input Item
  kept_input kept (message m) = message (record m { status = none })
  kept_input kept (item x) = item (kept x)

abbrev pub kept_tools : (Tool → Tool) → Option (List Tool) → Option (List Tool)
kept_tools kept none = none
kept_tools kept (some ts) = some (map kept ts)

-- A dump by field names, as the store makes it, cannot be validated again where it has a schema.
abbrev pub is_json_schema : Option TextFormat → Bool
is_json_schema (some (json_schema schema)) = true
is_json_schema _ = false

module _ {Item State : Type 0} (pydantic : Pydantic Item State) where
  -- A payload that has been dumped and validated again
  abbrev pub reloaded : StoredResponsePayload Item → StoredResponsePayload Item
  reloaded p = record p {
    hydrated_input = map (kept_input pydantic.kept_item) p.hydrated_input;
    response = record p.response {
      output = map pydantic.kept_item p.response.output;
      tools = map pydantic.kept_tool p.response.tools;
    };
    effective_tools = kept_tools pydantic.kept_tool p.effective_tools;
  }

-- What validation accepts: the dump of a payload whose response has no JSON schema as its text
-- format, and tools and tool choices, which are instances already and stay what they are.
pub record IsFaithful {Item State : Type 0} (pydantic : Pydantic Item State) : Type 0 where
  pub payloads :
      (p : StoredResponsePayload Item)
      → is_json_schema p.response.text_format ≡ false
      → pydantic.model_validate (pydantic.model_dump p) ≡ some (reloaded pydantic p)
  pub tools : (ts : List Tool) → pydantic.validate_tools ts ≡ some ts
  pub tool_choices : (c : ToolChoice) → pydantic.validate_tool_choice c ≡ some c

module _ {Item State : Type 0} (pydantic : Pydantic Item State) where
  pub payload_of-ok :
      (hydrated : ResponsesRequest Item) (response : Response Item)
      (payload : StoredResponsePayload Item)
      → payload_of pydantic hydrated response ≡ ok payload
      → (prior : List (Input Item) × Option Text) × (strip_request_instruction_messages
            (normalize_input hydrated.input)
          ≡ ok prior)
        × (record {
          hydrated_input = prior.0;
          response = response;
          effective_tools = sanitize_effective_tools_for_storage hydrated.tools;
          effective_tool_choice = hydrated.tool_choice;
          effective_instructions = hydrated.instructions;
          effective_system_instruction = or_else hydrated.effective_system_instruction prior.1;
        }
            ≡ payload)
  unfolding payload_of ok_or
  payload_of-ok hydrated response payload h =
      elim (Result-cases (strip_request_instruction_messages (normalize_input hydrated.input))) [
        | inl (x, s) ↦ let d : payload_of pydantic hydrated response ≡ err x = rw s in cc
        | inr (prior, s) ↦
            let d : payload_of pydantic hydrated response ≡ ok _ = rw s in
            (prior, s, ap (ok_or payload) (sym d ∙ h))
      ]

  -- The answer to the next request: what is done to it, from the request that was answered.
  abbrev pub continued :
      ResponsesRequest Item
      → Response Item
      → List (Input Item) × Option Text
      → List (Input Item) × Option Text
      → ResponsesRequest Item
      → ResponsesRequest Item
  continued hydrated response prior new next = record next {
    previous_response_id = none;
    input = items (
        map (kept_input pydantic.kept_item) prior.0
        ++ (map item (map pydantic.kept_item response.output) ++ new.0));
    tools =
        if next.tools_set
        then next.tools
        else kept_tools pydantic.kept_tool (sanitize_effective_tools_for_storage hydrated.tools);
    tools_set = true;
    tool_choice = if next.tool_choice_set then next.tool_choice else hydrated.tool_choice;
    tool_choice_set = true;
    effective_system_instruction =
        or_else new.1 (or_else (or_else hydrated.effective_system_instruction prior.1) none);
  }
