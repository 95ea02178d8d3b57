-- ===== src/Mcp/Results.antt =====
-- Results of MCP calls: `truncate_error_text`, `redact_and_truncate_error_text`,
-- `build_mcp_tool_result_payload` and `parse_mcp_tool_result_payload` of tools/mcp/utils.py.
use vllm_responses.Prelude.{
  ℕ, zero, suc, ◌-◌, Text, Bool, true, false, not, Option, none, some, List, [], ◌∷◌, ◌++◌, take,
  length, codes, is_empty, strip, starts_with, text_eq, if◌then◌else◌,
}
use vllm_responses.Prelude.Result.{Result, ok, err}
use vllm_responses.Events.{McpMode, hosted}
use vllm_responses.Json.{Json, JsonObject, object}
use vllm_responses.Mcp.{McpToolRef, McpExecutionResult}

-- `HOSTED_MCP_ERROR_MAX_CHARS`
abbrev pub error_max_chars : ℕ
error_max_chars = 4096

abbrev pub default_error_text : Text
default_error_text = codes "MCP tool call failed"

abbrev pub or_empty : Option Text → Text
or_empty none = []
or_empty (some t) = t

unfoldable pub truncate_error_text : Option Text → Text
truncate_error_text text =
    let candidate = strip (or_empty text) in
    take error_max_chars (if is_empty candidate then default_error_text else candidate)

-- `text.replace(old, new)` for an `old` that is not empty; `skip` characters of the last
-- occurrence are still to be passed over.
unfoldable pub replace_from : Text → Text → Text → ℕ → Text
replace_from old new [] skip = []
replace_from old new (c ∷ s) (suc skip) = replace_from old new s skip
replace_from old new (c ∷ s) zero = elim (starts_with old (c ∷ s)) [
  | true ↦ new ++ replace_from old new s (length old - 1)
  | false ↦ c ∷ replace_from old new s zero
]

unfoldable pub replace : Text → Text → Text → Text
unfolding replace_from
replace old new text = replace_from old new text 0

abbrev pub stars : Text
stars = codes "***"

unfoldable pub redact : Text → List Text → Text
unfolding replace
redact text [] = text
redact text (secret ∷ secrets) =
    redact (if is_empty secret then text else replace secret stars text) secrets

unfoldable pub redact_and_truncate_error_text : Option Text → List Text → Text
unfolding redact truncate_error_text
redact_and_truncate_error_text text secrets =
    truncate_error_text (some (redact (or_empty text) secrets))

abbrev pub result_kind : Text
result_kind = codes "vllm_responses_mcp_result"

-- `_ToolResultModel`
pub record ToolResultModel : Type 0 where
  pub kind : Text
  pub server_label : Text
  pub tool_name : Text
  pub mode : Option McpMode
  pub ok : Bool
  pub output_text : Option Text
  pub error_text : Option Text

-- The payload as the fields of `_ToolResultModel`, before it is made JSON.
unfoldable pub build_mcp_tool_result_payload : McpToolRef → McpExecutionResult → ToolResultModel
build_mcp_tool_result_payload ref result = record {
  kind = result_kind;
  server_label = ref.server_label;
  tool_name = ref.tool_name;
  mode = some ref.mode;
  ok = result.ok;
  output_text = result.output_text;
  error_text = if not result.ok then some (truncate_error_text result.error_text) else none;
}

-- pydantic's validation of `_ToolResultModel`, with the message of its first issue, and Python's
-- `repr` of a text.
pub record ResultValidation : Type 0 where
  pub model_validate : JsonObject → Result Text ToolResultModel
  pub repr : Text → Text

abbrev pub mode_or_hosted : Option McpMode → McpMode
mode_or_hosted none = hosted
mode_or_hosted (some m) = m

module _ (v : ResultValidation) where
  unfoldable pub read_result : ToolResultModel → Result Text (McpToolRef × McpExecutionResult)
  unfolding truncate_error_text
  read_result parsed =
      if not (text_eq parsed.kind result_kind)
      then err
          (codes "MCP tool result payload has invalid kind: " ++ (v.repr parsed.kind ++ codes "."))
      else ok (
        record {
          server_label = parsed.server_label;
          tool_name = parsed.tool_name;
          mode = mode_or_hosted parsed.mode;
        },
        record {
          ok = parsed.ok;
          output_text = parsed.output_text;
          error_text = if not parsed.ok then some (truncate_error_text parsed.error_text) else none;
        },
      )

  -- The error is the text of the `ValueError`.
  unfoldable pub parse_mcp_tool_result_payload :
      Json → Result Text (McpToolRef × McpExecutionResult)
  unfolding read_result
  parse_mcp_tool_result_payload (object fields) = elim (v.model_validate fields) [
    | err issue ↦ err (codes "MCP tool result payload is invalid: " ++ (issue ++ codes "."))
    | ok parsed ↦ read_result parsed
  ]
  parse_mcp_tool_result_payload _ = err (codes "MCP tool result payload must be a JSON object.")
