-- ===== src/Engine/Failures.antt =====
-- responses/python/vllm_responses/lm_failures.py: what a failure of the upstream is reported as,
-- and what is counted for the log. A body is JSON as Python holds it, a text or absent.
use vllm_responses.Prelude.{
  ℕ, ◌+◌, Text, ◌&&◌, Option, none, some, [], codes, take, leb, ltb, text_eq, if◌then◌else◌,
}
use vllm_responses.Prelude.Dict
use vllm_responses.Prelude.Dict.{Dict}
use vllm_responses.Json.{Json, JsonObject, object, string, end, get_field}
use vllm_responses.Events.{
  NormalizedEvent, McpMode, hosted, request_remote, function_call_started,
  code_interpreter_call_started, mcp_call_started, mcp_call_arguments_done, mcp_call_completed,
  mcp_call_failed,
}
use vllm_responses.Mcp.Results.{or_empty}
use vllm_responses.Normalizer.State.{Codec}
use vllm_responses.Normalizer.Deltas.{or_else}
use vllm_responses.Normalizer.Outcomes.{display, filled_text}

-- The exceptions of pydantic_ai that end a stream; `text` is the exception's text.
pub data ModelFailure : Type 0 where
  -- status code, body, text
  http_error : ℕ → Option Json → Text → ModelFailure
  -- body, message
  unexpected_behavior : Option Json → Text → ModelFailure

pub record FailureDetails : Type 0 where
  pub error_class : Text
  pub code : Text
  pub message : Text
  pub param : Text
  pub upstream_status_code : Option ℕ
  pub upstream_error_raw : Option Text

pub data LogLevel : Type 0 where
  warning error : LogLevel

-- `_McpCallContext`
pub record McpCallContext : Type 0 where
  pub mode : McpMode
  pub server_label : Text
  pub tool_name : Text
  pub arguments_json : Text

pub record FailureCounters : Type 0 where
  pub tool_call_parts_seen : ℕ
  pub mcp_failed_count_hosted : ℕ
  pub mcp_failed_count_request_remote : ℕ
  -- mode, server label, tool name
  pub last_failed_mcp_signature : Option (McpMode × Text × Text)
  pub mcp_call_context_by_item : Dict McpCallContext

abbrev pub new_failure_counters : FailureCounters
new_failure_counters = record {
  tool_call_parts_seen = 0;
  mcp_failed_count_hosted = 0;
  mcp_failed_count_request_remote = 0;
  last_failed_mcp_signature = none;
  mcp_call_context_by_item = [];
}

abbrev pub count_failed : McpMode → FailureCounters → FailureCounters
count_failed hosted c = record c { mcp_failed_count_hosted = c.mcp_failed_count_hosted + 1 }
count_failed request_remote c = record c {
  mcp_failed_count_request_remote = c.mcp_failed_count_request_remote + 1;
}

-- A call that failed; without its context it counts as hosted.
unfoldable pub observe_failed : Option McpCallContext → FailureCounters → FailureCounters
observe_failed none c = count_failed hosted c
observe_failed (some call) c = record (count_failed call.mode c) {
  last_failed_mcp_signature = some (call.mode, call.server_label, call.tool_name);
}

abbrev pub put_context : Text → McpCallContext → FailureCounters → FailureCounters
put_context key call c = record c {
  mcp_call_context_by_item = Dict.put c.mcp_call_context_by_item key call;
}

abbrev pub drop_context : Text → FailureCounters → FailureCounters
drop_context key c = record c {
  mcp_call_context_by_item = Dict.delete c.mcp_call_context_by_item key;
}

unfoldable pub observe_arguments :
    Option McpCallContext → Text → Text → FailureCounters → FailureCounters
observe_arguments none key arguments c = c
observe_arguments (some call) key arguments c =
    put_context key (record call { arguments_json = arguments }) c

unfoldable pub observe : NormalizedEvent → FailureCounters → FailureCounters
unfolding observe_failed observe_arguments
observe (function_call_started e) c = record c { tool_call_parts_seen = c.tool_call_parts_seen + 1 }
observe (code_interpreter_call_started key code) c = record c {
  tool_call_parts_seen = c.tool_call_parts_seen + 1;
}
observe (mcp_call_started e) c =
    put_context e.item_key
      (record {
        mode = e.mode;
        server_label = e.server_label;
        tool_name = e.name;
        arguments_json = e.initial_arguments_json;
      })
      (record c { tool_call_parts_seen = c.tool_call_parts_seen + 1 })
observe (mcp_call_arguments_done key arguments) c =
    observe_arguments (Dict.get c.mcp_call_context_by_item key) key arguments c
observe (mcp_call_completed key output) c = drop_context key c
observe (mcp_call_failed key message) c =
    observe_failed (Dict.get c.mcp_call_context_by_item key) (drop_context key c)
observe _ c = c

-- `_FAILURE_UPSTREAM_RAW_MAX_CHARS`
abbrev pub upstream_raw_max_chars : ℕ
upstream_raw_max_chars = 2048

abbrev pub http_error_class : Text
http_error_class = codes "ModelHTTPError"

unfoldable pub classify_failure_log_level : Text → Option ℕ → LogLevel
classify_failure_log_level error_class none = error
classify_failure_log_level error_class (some status) =
    if text_eq error_class http_error_class && (leb 400 status && ltb status 500)
    then warning
    else error

module _ (codec : Codec) where
  unfoldable pub extract_error_body : Option Json → JsonObject
  extract_error_body (some (object fields)) = fields
  extract_error_body (some (string text)) = elim (codec.json.loads text) [
    | some (object fields) ↦ fields
    | _ ↦ end
  ]
  extract_error_body _ = end

  -- The object under `error`, or the body itself
  unfoldable pub error_object : JsonObject → JsonObject
  error_object body = elim (get_field body (codes "error")) [
    | some (object fields) ↦ fields
    | _ ↦ body
  ]

  -- code, message, param
  unfoldable pub extract_openai_error_fields : JsonObject → Text → Text × Text × Text
  unfolding error_object display
  extract_openai_error_fields body fallback_message =
      let fields = error_object body in
      (
        or_empty (display codec (get_field fields (codes "code"))),
        or_else (filled_text (get_field fields (codes "message"))) fallback_message,
        or_empty (display codec (get_field fields (codes "param"))),
      )

  unfoldable pub upstream_error_raw : Option Json → Option Text
  unfolding display
  upstream_error_raw none = none
  upstream_error_raw (some Json.null) = none
  upstream_error_raw (some value) =
      some (take upstream_raw_max_chars (or_empty (display codec (some value))))

  unfoldable pub extract_failure_details : ModelFailure → FailureDetails
  unfolding extract_openai_error_fields extract_error_body upstream_error_raw
  extract_failure_details (http_error status body text) =
      let (code, message, param) = extract_openai_error_fields (extract_error_body body) text in
      record {
        error_class = http_error_class;
        code = code;
        message = message;
        param = param;
        upstream_status_code = some status;
        upstream_error_raw = upstream_error_raw body;
      }
  extract_failure_details (unexpected_behavior body text) =
      let (code, message, param) = extract_openai_error_fields (extract_error_body body) text in
      record {
        error_class = codes "UnexpectedModelBehavior";
        code = code;
        message = message;
        param = param;
        upstream_status_code = none;
        upstream_error_raw = upstream_error_raw body;
      }
