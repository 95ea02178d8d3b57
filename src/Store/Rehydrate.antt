-- ===== src/Store/Rehydrate.antt =====
-- `rehydrate_request` of `DBResponseStore`: the history of a conversation in front of the input of
-- the next request.
use vllm_responses.Prelude.{
  Text, Bool, true, false, ◌&&◌, not, Option, none, some, List, ◌++◌, map, if◌then◌else◌, is_empty,
}
use vllm_responses.Prelude.Result.{Result, ok, err, ◌>>=◌}
use vllm_responses.Store.{
  item, shorthand, items, Tool, ToolChoice, mode, ResponsesRequest, StoredResponsePayload,
  StoreError, not_found, specific_tool_choice, validation, Pydantic, Database,
}
use vllm_responses.Store.Instructions.{
  normalize_input, strip_request_instruction_messages, extract_current_system_instruction, or_else,
}
use vllm_responses.Store.Table.{get}

unfoldable pub is_specific : ToolChoice → Bool
is_specific (mode m) = false
is_specific _ = true

unfoldable pub required : {A : Type 0} → Option A → Result StoreError A
required none = err validation
required (some a) = ok a

module _ {Item State : Type 0} (pydantic : Pydantic Item State) where
  unfoldable pub validate_optional_tools :
      Option (List Tool) → Result StoreError (Option (List Tool))
  unfolding required
  validate_optional_tools none = ok none
  validate_optional_tools (some ts) = do ts' ← required (pydantic.validate_tools ts); ok (some ts')

  unfoldable pub check_tool_choice : ResponsesRequest Item → Result StoreError (Unit {0})
  check_tool_choice request =
      if not request.tools_set && (request.tool_choice_set && is_specific request.tool_choice)
      then err specific_tool_choice
      else ok tt

  -- The request behind a stored response. `model_copy` adds what it updates to the fields set.
  unfoldable pub continue_from :
      StoredResponsePayload Item → ResponsesRequest Item → Result StoreError (ResponsesRequest Item)
  unfolding check_tool_choice validate_optional_tools required normalize_input
  continue_from payload request = do
    prior ← strip_request_instruction_messages payload.hydrated_input
    new ← extract_current_system_instruction (normalize_input request.input)
    checked ← check_tool_choice request
    tools ←
        validate_optional_tools
          (if request.tools_set then request.tools else payload.effective_tools)
    choice ← required (
        pydantic.validate_tool_choice
          (if request.tool_choice_set then request.tool_choice else payload.effective_tool_choice))
    ok (record request {
      previous_response_id = none;
      input = items (prior.0 ++ (map item payload.response.output ++ new.0));
      tools = tools;
      tools_set = true;
      tool_choice = choice;
      tool_choice_set = true;
      effective_system_instruction =
          or_else new.1 (or_else payload.effective_system_instruction prior.1);
    })

  unfoldable pub normalize_request : ResponsesRequest Item → ResponsesRequest Item
  unfolding normalize_input
  normalize_request request = elim request.input [
    | shorthand t ↦ record request { input = items (normalize_input (shorthand t)) }
    | items xs ↦ request
  ]

  -- A request that goes on from the response of that id.
  unfoldable pub rehydrate_from :
      Database State
      → Text
      → ResponsesRequest Item
      → Database State × Result StoreError (ResponsesRequest Item)
  unfolding get required continue_from
  rehydrate_from db id request =
      let (db', found) = get db id in
      elim found [
        | none ↦ (db', err (not_found id))
        | some stored ↦ (
          db',
          required (pydantic.model_validate stored.state) >>= λ payload.
              continue_from payload request,
        )
      ]

  unfoldable pub rehydrate_request :
      Database State
      → ResponsesRequest Item
      → Database State × Result StoreError (ResponsesRequest Item)
  unfolding rehydrate_from normalize_request
  rehydrate_request db request = elim request.previous_response_id [
    | none ↦ (db, ok (normalize_request request))
    | some id ↦
        if is_empty id then (db, ok (normalize_request request)) else rehydrate_from db id request
  ]
