-- ===== src/Normalizer/TextCalls.antt =====
-- Tool calls that the model wrote as text, and the arguments of custom tools.
use vllm_responses.Prelude.{
  Text, Option, none, some, List, codes, is_empty, strip, member, if◌then◌else◌,
}
use vllm_responses.Json.{Json, JsonObject, JsonCodec, string, array, object, nil, cons, get_field}

-- `_ParsedTextToolCall`
pub record ParsedTextToolCall : Type 0 where
  pub name : Text
  pub arguments_json : Text

module _ (json : JsonCodec) where
  unfoldable pub custom_tool_input_from_arguments : Text → Text
  custom_tool_input_from_arguments arguments_json = elim (json.loads arguments_json) [
    | some (object fields) ↦ elim (get_field fields (codes "input")) [
      | some (string value) ↦ value
      | _ ↦ arguments_json
    ]
    | _ ↦ arguments_json
  ]

  -- A list of one object counts as the object.
  abbrev pub unwrapped : Json → Json
  unwrapped (array (cons (object fields) nil)) = object fields
  unwrapped value = value

  named_call : List Text → Json → Json → Option ParsedTextToolCall
  named_call allowed (string name) (object parameters) =
      if member name allowed
      then some (record { name = name; arguments_json = json.dumps parameters })
      else none
  named_call allowed _ _ = none

  -- An object with a name and parameters, or the arguments of the tool that was asked for.
  call_of_object : List Text → Option Text → JsonObject → Option ParsedTextToolCall
  unfolding named_call
  call_of_object allowed choice fields = elim (get_field fields (codes "name")) [
    | some name ↦ elim (get_field fields (codes "parameters")) [
      | some parameters ↦ named_call allowed name parameters
      | none ↦ elim choice [
        | none ↦ none
        | some forced ↦ some (record { name = forced; arguments_json = json.dumps fields })
      ]
    ]
    | none ↦ elim choice [
      | none ↦ none
      | some forced ↦ some (record { name = forced; arguments_json = json.dumps fields })
    ]
  ]

  unfoldable pub parse_tool_call_json : Text → List Text → Option Text → Option ParsedTextToolCall
  unfolding call_of_object
  parse_tool_call_json text allowed choice = elim (json.loads text) [
    | none ↦ none
    | some payload ↦ elim (unwrapped payload) [
      | object fields ↦ call_of_object allowed choice fields
      | _ ↦ none
    ]
  ]

  unfoldable pub parse_text_tool_call : Text → List Text → Option Text → Option ParsedTextToolCall
  unfolding parse_tool_call_json
  parse_text_tool_call text allowed choice =
      if is_empty (strip text) then none else parse_tool_call_json (strip text) allowed choice
