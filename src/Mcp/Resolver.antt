-- ===== src/Mcp/Resolver.antt =====
-- The MCP servers of a request: `resolve_mcp_declarations` of tools/mcp/resolver.py. The runtime
-- and the remote toolsets are calls of other programs.
use vllm_responses.Prelude.{
  Text, Bool, true, false, not, Option, none, some, List, [], ◌∷◌, is_empty, member, strip,
  if◌then◌else◌,
}
use vllm_responses.Prelude.Dict
use vllm_responses.Prelude.Dict.{Dict}
use vllm_responses.Prelude.Result.{Result, ok, err, ◌>>=◌}
use vllm_responses.Events.{McpMode, hosted, request_remote}
use vllm_responses.Mcp.{McpToolInfo}
use vllm_responses.Mcp.Results.{redact_and_truncate_error_text}
use vllm_responses.Mcp.Policy.{
  McpError, connector_id, require_approval, authorization_without_url, headers_without_url,
  runtime_disabled, remote_disabled, unknown_server, unavailable_server, empty_tool_set,
  inventory_failed, toolset_error, Net, validate_request_remote_server_url,
  build_request_remote_headers, request_remote_secret_values,
}

pub data Approval : Type 0 where
  never other_approval : Approval

-- `OpenAIResponsesMcpTool`
pub record Declaration : Type 0 where
  pub connector_id : Option Text
  pub require_approval : Option Approval
  pub server_url : Option Text
  pub authorization : Option Text
  pub headers : Option (Dict Text)
  pub allowed_tools : Option (List Text)

-- `RequestRemoteMcpServerBinding`
pub record Binding : Type 0 where
  pub server_label : Text
  pub server_url : Text
  pub authorization : Option Text
  pub headers : Dict Text

-- The exceptions of the runtime's client, with their texts.
pub data RuntimeError : Type 0 where
  unknown : RuntimeError
  unavailable transport other : Text → RuntimeError

pub data ToolsetError : Type 0 where
  -- a `BadInputError`
  bad_input : Text → ToolsetError
  -- `str(exc)` and the name of its class
  other : Text → Text → ToolsetError

-- What other programs answer: the tools that they list.
pub record Servers : Type 0 where
  -- `none` without a client or with the runtime disabled
  pub runtime : Option (Text → Result RuntimeError (List McpToolInfo))
  pub toolset : Binding → Result ToolsetError (Dict McpToolInfo)

pub record Settings : Type 0 where
  pub request_remote_enabled : Bool
  pub url_checks_enabled : Bool

pub data Backend : Type 0 where
  managed : Text → Backend
  remote : Binding → Backend

pub record Inventory : Type 0 where
  pub backend : Backend
  pub tool_map : Dict McpToolInfo
  pub secret_values : List Text

-- `ResolvedMcpServerTools`
pub record ResolvedServer : Type 0 where
  pub mode : McpMode
  pub backend : Backend
  pub secret_values : List Text
  pub allowed_tool_infos : Dict McpToolInfo

-- `{tool.name: tool for tool in tools}`, onto `d`
unfoldable pub by_name : List McpToolInfo → Dict McpToolInfo → Dict McpToolInfo
by_name [] d = d
by_name (t ∷ ts) d = by_name ts (Dict.put d t.name t)

unfoldable pub filter_names : List Text → Dict McpToolInfo → Dict McpToolInfo
filter_names allowed [] = []
filter_names allowed ((name, info) ∷ d) =
    if member name allowed then (name, info) ∷ filter_names allowed d else filter_names allowed d

unfoldable pub select_allowed_tool_infos : Dict McpToolInfo → Option (List Text) → Dict McpToolInfo
unfolding filter_names
select_allowed_tool_infos tool_map none = tool_map
select_allowed_tool_infos tool_map (some allowed) = filter_names allowed tool_map

abbrev pub runtime_error : Text → RuntimeError → McpError
runtime_error label unknown = unknown_server label
runtime_error label (unavailable t) = unavailable_server t
runtime_error label (transport t) = inventory_failed label t
runtime_error label (RuntimeError.other t) = inventory_failed label t

abbrev pub text_or : Text → Text → Text
text_or [] default = default
text_or (c ∷ s) default = c ∷ s

abbrev pub remote_error : Text → List Text → ToolsetError → McpError
remote_error label secrets (bad_input t) = toolset_error t
remote_error label secrets (ToolsetError.other t class_name) =
    inventory_failed label
      (redact_and_truncate_error_text (some (text_or (strip t) class_name)) secrets)

abbrev pub map_error : {E F A : Type 0} → (E → F) → Result E A → Result F A
map_error f (ok a) = ok a
map_error f (err e) = err (f e)

-- `raise` under a condition
abbrev pub refuse : Bool → McpError → Result McpError (Unit {0})
refuse true e = err e
refuse false e = ok tt

abbrev pub is_given {ℓ} : {A : Type ℓ} → Option A → Bool
is_given none = false
is_given (some a) = true

abbrev pub wants_approval : Option Approval → Bool
wants_approval (some other_approval) = true
wants_approval _ = false

abbrev pub server_of : McpMode × Inventory → Dict McpToolInfo → ResolvedServer
server_of (mode, inventory) allowed = record {
  mode = mode;
  backend = inventory.backend;
  secret_values = inventory.secret_values;
  allowed_tool_infos = allowed;
}

module _ (net : Net) (servers : Servers) (settings : Settings) where
  unfoldable pub resolve_builtin_server : Text → Result McpError Inventory
  unfolding by_name
  resolve_builtin_server label = elim servers.runtime [
    | none ↦ err runtime_disabled
    | some list_tools ↦ do
      tools ← map_error (runtime_error label) (list_tools label)
      ok (record { backend = managed label; tool_map = by_name tools []; secret_values = [] })
  ]

  unfoldable pub check_url : Text → Result McpError (Unit {0})
  check_url url =
      if settings.url_checks_enabled
      then (validate_request_remote_server_url net url >>= λ host. ok tt)
      else ok tt

  unfoldable pub resolve_request_remote_server :
      Text → Declaration → Text → Result McpError Inventory
  unfolding check_url
  resolve_request_remote_server label declaration url = do
    enabled ← refuse (not settings.request_remote_enabled) remote_disabled
    checked ← check_url url
    headers ← build_request_remote_headers net declaration.authorization declaration.headers
    let binding : Binding = record {
      server_label = label;
      server_url = url;
      authorization = declaration.authorization;
      headers = headers;
    }
    let secrets = request_remote_secret_values declaration.authorization (some headers)
    tools ← map_error (remote_error label secrets) (servers.toolset binding)
    ok (record { backend = remote binding; tool_map = tools; secret_values = secrets })

  unfoldable pub inventory_of : Text → Declaration → Result McpError (McpMode × Inventory)
  unfolding resolve_builtin_server resolve_request_remote_server
  inventory_of label declaration = elim declaration.server_url [
    | none ↦ do
      a ← refuse (is_given declaration.authorization) authorization_without_url
      b ← refuse (is_given declaration.headers) headers_without_url
      inventory ← resolve_builtin_server label
      ok (hosted, inventory)
    | some url ↦ do
      inventory ← resolve_request_remote_server label declaration url
      ok (request_remote, inventory)
  ]

  -- One round of the loop.
  unfoldable pub resolve_declaration : Text → Declaration → Result McpError ResolvedServer
  unfolding inventory_of select_allowed_tool_infos
  resolve_declaration label declaration = do
    a ← refuse (is_given declaration.connector_id) connector_id
    b ← refuse (wants_approval declaration.require_approval) require_approval
    found ← inventory_of label declaration
    let allowed = select_allowed_tool_infos found.1.tool_map declaration.allowed_tools
    c ← refuse (is_empty allowed) (empty_tool_set label)
    ok (server_of found allowed)

  -- The declarations in the order of the mapping, whose labels are distinct.
  unfoldable pub resolve_mcp_declarations : Dict Declaration → Result McpError (Dict ResolvedServer)
  unfolding resolve_declaration
  resolve_mcp_declarations [] = ok []
  resolve_mcp_declarations ((label, declaration) ∷ rest) = do
    server ← resolve_declaration label declaration
    others ← resolve_mcp_declarations rest
    ok ((label, server) ∷ others)
