-- ===== src/Mcp.antt =====
-- MCP tools of responses/python/vllm_responses/tools/mcp: the types of types.py, and in the
-- children the functions of utils.py, policy.py and resolver.py. The client of the runtime and
-- the toolsets are calls of the fastmcp library.
pub mod Results
pub mod Redaction
pub mod Names
pub mod Registry
pub mod Policy
pub mod Headers
pub mod Resolver
pub mod Listing
pub mod Resolving
mod Tests
use vllm_responses.Prelude.{Text, Bool, Option}
use vllm_responses.Events.{McpMode}

pub record McpToolRef : Type 0 where
  pub server_label : Text
  pub tool_name : Text
  pub mode : McpMode

pub record McpExecutionResult : Type 0 where
  pub ok : Bool
  pub output_text : Option Text
  pub error_text : Option Text

-- The schema of a tool's input is passed on unread.
pub record McpToolInfo : Type 0 where
  pub name : Text
  pub description : Option Text
