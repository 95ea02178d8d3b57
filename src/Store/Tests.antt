-- ===== src/Store/Tests.antt =====
-- A conversation of two turns, and the theorems at it.
use vllm_responses.Prelude.{
  rstrip, is_whitespace, join, Text, true, false, ◌≡◌, refl, Option, none, some, List, [], ◌∷◌,
  codes, map, if◌then◌else◌,
}
use vllm_responses.Prelude.Result.{ok}
use vllm_responses.Items.{Status}
use vllm_responses.Prelude.Dict
use vllm_responses.Store.{
  Input, message, Role, Content, RequestInput, Tool, ToolChoice, ResponsesRequest, Response,
  TextFormat, StoredResponsePayload, Pydantic, Database,
}
use vllm_responses.Store.Instructions.{
  sanitize_effective_tools_for_storage, or_else, sanitize_tools, strip_request_instruction_messages,
  strip_messages, instruction_text_from_message, normalize_input, join_instruction_parts, stripped,
}
use vllm_responses.Store.Table.{payload_of}
use vllm_responses.Store.Rehydrate.{rehydrate_request}
use vllm_responses.Store.Conversations.{kept_input, kept_tools, is_json_schema}
use vllm_responses.Store.Privacy.{
  has_instructions, has_credentials, holds_credentials, any_credentials, payload_of-credentials,
}
use vllm_responses.Store.Transparency.{Operation, operate_all, operate_all-rehydrate_request}

-- A dump by field names: without the status of messages, and with no way back for a JSON schema.
abbrev dumped : StoredResponsePayload Text → StoredResponsePayload Text
dumped p = record p {
  hydrated_input = map (kept_input (λ x. x)) p.hydrated_input;
  response = record p.response {
    output = map (λ x. x) p.response.output;
    tools = map (λ t. t) p.response.tools;
  };
  effective_tools = kept_tools (λ t. t) p.effective_tools;
}

abbrev pydantic : Pydantic Text (StoredResponsePayload Text)
pydantic = record {
  model_dump = dumped;
  model_validate = λ p. if is_json_schema p.response.text_format then none else some p;
  validate_tools = λ ts. some ts;
  validate_tool_choice = λ c. some c;
  kept_item = λ x. x;
  kept_tool = λ t. t;
}

abbrev first : ResponsesRequest Text
first = record {
  input = RequestInput.items (
      message (record {
        role = Role.system;
        content = Content.string (codes "Be brief. ");
        status = none;
      })
      ∷ message (record { role = Role.user; content = Content.string (codes "Hi"); status = none })
      ∷ []);
  previous_response_id = none;
  store = true;
  instructions = none;
  tools = some (Tool.other_tool (codes "t") ∷ []);
  tools_set = true;
  tool_choice = ToolChoice.mode (codes "auto");
  tool_choice_set = false;
  effective_system_instruction = none;
}

abbrev answer : Response Text
answer = record {
  id = codes "resp_1";
  previous_response_id = none;
  model = codes "m";
  status = some Status.completed;
  output = codes "Hello" ∷ [];
  instructions = none;
  tools = [];
  text_format = some TextFormat.plain_text;
}

abbrev second : ResponsesRequest Text
second = record first {
  input = RequestInput.shorthand (codes "Bye");
  previous_response_id = some (codes "resp_1");
  tools = none;
  tools_set = false;
}

abbrev new_database : Database (StoredResponsePayload Text)
new_database = record { rows = []; cache_enabled = true; cache = []; working = true }

abbrev bye : List (Input Text) × Option Text
bye = (
  message (record { role = Role.user; content = Content.string (codes "Bye"); status = none }) ∷ [],
  none,
)

operate_all-rehydrate_request_example :
    let db =
      operate_all pydantic new_database
        (Operation.put first first answer ∷ Operation.switch false ∷ []) in
    (rehydrate_request pydantic db second).1
    ≡ (rehydrate_request pydantic (record db { cache_enabled = false }) second).1
operate_all-rehydrate_request_example =
    operate_all-rehydrate_request pydantic true true
      (Operation.put first first answer ∷ Operation.switch false ∷ []) second

-- A request and its response with a tool that has a token
abbrev secret_tool : Tool
secret_tool =
    Tool.mcp
      (record { server_label = codes "m"; authorization = some (codes "token"); headers = none })

abbrev secret_first : ResponsesRequest Text
secret_first = record first { tools = some (secret_tool ∷ []) }

abbrev secret_answer : Response Text
secret_answer = record answer { tools = secret_tool ∷ [] }

abbrev stored : StoredResponsePayload Text
stored = record {
  hydrated_input =
      message (record { role = Role.user; content = Content.string (codes "Hi"); status = none })
      ∷ [];
  response = secret_answer;
  effective_tools =
      some
        (Tool.mcp (record { server_label = codes "m"; authorization = none; headers = none }) ∷ []);
  effective_tool_choice = ToolChoice.mode (codes "auto");
  effective_instructions = none;
  effective_system_instruction = some (codes "Be brief.");
}

stored_ok : payload_of pydantic secret_first secret_answer ≡ ok stored
unfolding payload_of strip_request_instruction_messages strip_messages instruction_text_from_message
    normalize_input join_instruction_parts join stripped rstrip is_whitespace
    sanitize_effective_tools_for_storage or_else sanitize_tools
stored_ok = refl

payload_of-credentials_example :
    (has_instructions stored.hydrated_input ≡ false)
    × (has_credentials stored.effective_tools ≡ false)
    × (holds_credentials stored ≡ any_credentials secret_answer.tools)
payload_of-credentials_example =
    payload_of-credentials pydantic secret_first secret_answer stored stored_ok
