-- ===== src/Store.antt =====
-- `DBResponseStore` of responses/python/vllm_responses/responses_core/store.py: what is kept of a
-- response, and how the next request takes it up. This file has the data; Instructions has the
-- functions on messages, Table the table with the cache in front of it, Rehydrate the next
-- request; Caching, Puts, Conversations, Transparency and Privacy have the laws. The store reads
-- messages, tools and tool choices; all other items, `Item` here, it only passes on. `State` is
-- the JSON object of a payload. Times and the schema version, which it only writes, are left out.
pub mod Instructions
pub mod Table
pub mod Rehydrate
pub mod Caching
pub mod Puts
pub mod Conversations
pub mod Transparency
pub mod Privacy
mod Tests
use vllm_responses.Prelude.{ℕ, Text, Bool, Option, List}
use vllm_responses.Prelude.Dict.{Dict}
use vllm_responses.Prelude.Result.{Result}
use vllm_responses.Items.{Status}

pub data Role : Type 0 where
  user assistant system developer : Role

pub data Part : Type 0 where
  text_content : Text → Part
  image_content : Text → Part

pub data Content : Type 0 where
  string : Text → Content
  parts : List Part → Content

-- `OpenAIInputMessage` and `OpenAIInputItem`; `status` has `exclude=True`.
pub record Message : Type 0 where
  pub role : Role
  pub content : Content
  pub status : Option Status

pub data Input (Item : Type 0) : Type 0 where
  message : Message → Input Item
  item : Item → Input Item

pub data RequestInput (Item : Type 0) : Type 0 where
  shorthand : Text → RequestInput Item
  items : List (Input Item) → RequestInput Item

pub record McpTool : Type 0 where
  pub server_label : Text
  pub authorization : Option Text
  pub headers : Option (Dict Text)

pub data Tool : Type 0 where
  mcp : McpTool → Tool
  other_tool : Text → Tool

pub data ToolChoice : Type 0 where
  mode function hosted allowed_tools mcp_choice : Text → ToolChoice

-- `tools_set` and `tool_choice_set` are the memberships in `model_fields_set`.
pub record ResponsesRequest (Item : Type 0) : Type 0 where
  pub input : RequestInput Item
  pub previous_response_id : Option Text
  pub store : Bool
  pub instructions : Option Text
  pub tools : Option (List Tool)
  pub tools_set : Bool
  pub tool_choice : ToolChoice
  pub tool_choice_set : Bool
  pub effective_system_instruction : Option Text

-- `text.format` of a response: only the schema has an alias.
pub data TextFormat : Type 0 where
  plain_text json_object : TextFormat
  json_schema : Text → TextFormat

pub record Response (Item : Type 0) : Type 0 where
  pub id : Text
  pub previous_response_id : Option Text
  pub model : Text
  pub status : Option Status
  pub output : List Item
  pub instructions : Option Text
  pub tools : List Tool
  pub text_format : Option TextFormat

pub record StoredResponsePayload (Item : Type 0) : Type 0 where
  pub hydrated_input : List (Input Item)
  pub response : Response Item
  pub effective_tools : Option (List Tool)
  pub effective_tool_choice : ToolChoice
  pub effective_instructions : Option Text
  pub effective_system_instruction : Option Text

pub record StoredResponse (State : Type 0) : Type 0 where
  pub response_id : Text
  pub previous_response_id : Option Text
  pub model : Text
  pub store : Bool
  pub state : State

pub data StoreError : Type 0 where
  bad_input : StoreError
  already_exists : Text → StoreError
  not_found : Text → StoreError
  specific_tool_choice : StoreError
  validation : StoreError

-- pydantic: the JSON object of a payload, the validations, and what comes back of an item and of a
-- tool that are dumped (with `exclude_none`) and validated again: fields with `exclude=True`, such
-- as the encrypted content of a reasoning item, do not.
pub record Pydantic (Item State : Type 0) : Type 0 where
  pub model_dump : StoredResponsePayload Item → State
  pub model_validate : State → Option (StoredResponsePayload Item)
  pub validate_tools : List Tool → Option (List Tool)
  pub validate_tool_choice : ToolChoice → Option ToolChoice
  pub kept_item : Item → Item
  pub kept_tool : Tool → Tool

-- `working` says whether the cache's server answers; when it does not, its calls raise.
pub record Database (State : Type 0) : Type 0 where
  pub rows : Dict (StoredResponse State)
  pub cache_enabled : Bool
  pub cache : Dict (StoredResponse State)
  pub working : Bool
