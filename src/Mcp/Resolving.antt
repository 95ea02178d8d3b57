-- ===== src/Mcp/Resolving.antt =====
-- What a resolved MCP server is.
use vllm_responses.Prelude.{
  ◌≡◌, refl, sym, ap, ◌∙◌, ◌⊎◌, inl, inr, Text, true, false, not, Option, none, some, List, [], ◌∷◌,
  is_empty, if◌then◌else◌, Bool-cases, Option-cases, arith,
}
use vllm_responses.Prelude.Dict
use vllm_responses.Prelude.Dict.{Dict, get-put}
use vllm_responses.Prelude.Result.{Result, ok, err, ◌>>=◌, eq_of_ok_eq_ok, eq_ok_of_bind}
use vllm_responses.Events.{McpMode, hosted, request_remote}
use vllm_responses.Mcp.{McpToolInfo}
use vllm_responses.Mcp.Policy.{
  connector_id, require_approval, empty_tool_set, authorization_without_url, headers_without_url,
  remote_disabled, Net, validate_request_remote_server_url, runtime_disabled,
  build_request_remote_headers, request_remote_secret_values,
}
use vllm_responses.Mcp.Resolver.{
  RuntimeError, managed, remote, by_name, runtime_error, remote_error, map_error, Declaration,
  Servers, Settings, Inventory, ResolvedServer, select_allowed_tool_infos, inventory_of,
  resolve_request_remote_server, check_url, resolve_builtin_server, resolve_declaration, server_of,
  resolve_mcp_declarations, refuse, is_given, wants_approval,
}
use vllm_responses.Mcp.Listing.{
  is_allowed, get-select_allowed_tool_infos, last_named, get-tools, map_error-ok, binding_of,
  refuse-ok, not-is_given,
}

module _ (net : Net) (servers : Servers) (settings : Settings) where
  -- Where the tools come from: a server of the gateway carries no credentials, and lists its tools
  -- under its label; a remote one is allowed by the settings, its url passes the checks if these are
  -- on, and its tools are those behind the url, with the headers that are built.
  pub data Sides (label : Text) (declaration : Declaration) (listed : Text → Option McpToolInfo)
      (s : ResolvedServer) : Type 0 where
    hosted_side :
        (list_tools : Text → Result RuntimeError (List McpToolInfo)) (tools : List McpToolInfo)
        → servers.runtime ≡ some list_tools
        → list_tools label ≡ ok tools
        → ((name : Text) → listed name ≡ last_named name tools)
        → s.backend ≡ managed label
        → s.secret_values ≡ []
        → declaration.server_url ≡ none
        → declaration.authorization ≡ none
        → declaration.headers ≡ none
        → s.mode ≡ hosted
        → Sides label declaration listed s
    remote_side :
        (url : Text) (headers : Dict Text) (tools : Dict McpToolInfo)
        → build_request_remote_headers net declaration.authorization declaration.headers
          ≡ ok headers
        → servers.toolset (binding_of label url declaration headers) ≡ ok tools
        → ((name : Text) → listed name ≡ Dict.get tools name)
        → s.backend ≡ remote (binding_of label url declaration headers)
        → s.secret_values ≡ request_remote_secret_values declaration.authorization (some headers)
        → declaration.server_url ≡ some url
        → settings.request_remote_enabled ≡ true
        → (settings.url_checks_enabled ≡ false)
          ⊎ ((host : Text) × (validate_request_remote_server_url net url ≡ ok host))
        → s.mode ≡ request_remote
        → Sides label declaration listed s

  pub record IsResolved (label : Text) (declaration : Declaration) (s : ResolvedServer)
      : Type 0 where
    pub no_connector : declaration.connector_id ≡ none
    pub no_approval : wants_approval declaration.require_approval ≡ false
    pub some_tool : is_empty s.allowed_tool_infos ≡ false
    pub listed : Text → Option McpToolInfo
    pub allowed :
        (name : Text)
        → Dict.get s.allowed_tool_infos name
          ≡ (if is_allowed declaration.allowed_tools name then listed name else none)
    pub side : Sides label declaration listed s

  builtin_inventory :
      (label : Text) (inventory : Inventory)
      → resolve_builtin_server net servers settings label ≡ ok inventory
      → (list_tools : Text → Result RuntimeError (List McpToolInfo)) × (tools : List McpToolInfo)
        × (servers.runtime ≡ some list_tools)
        × (list_tools label ≡ ok tools)
        × (inventory
            ≡ record { backend = managed label; tool_map = by_name tools []; secret_values = [] })
  unfolding resolve_builtin_server
  builtin_inventory label inventory h = elim (Option-cases servers.runtime) [
    | inl e ↦
        let refused : resolve_builtin_server net servers settings label ≡ err runtime_disabled =
          rw e in
        cc
    | inr (list_tools, e) ↦
        let k : (map_error (runtime_error label) (list_tools label) >>= λ tools.
        ok (record { backend = managed label; tool_map = by_name tools []; secret_values = [] }))
            ≡ ok inventory =
          ground arith in
        let (tools, l, same) =
          eq_ok_of_bind (map_error (runtime_error label) (list_tools label)) _ inventory k in
        (list_tools, tools, e, map_error-ok _ _ tools l, cc)
  ]

  hosted_inventory :
      (label : Text) (declaration : Declaration) (found : McpMode × Inventory)
      (allowed : Dict McpToolInfo)
      → declaration.server_url ≡ none
      → (refuse (is_given declaration.authorization) authorization_without_url >>= λ a.
          refuse (is_given declaration.headers) headers_without_url >>= λ b.
          resolve_builtin_server net servers settings label >>= λ inventory. ok (hosted, inventory))
        ≡ ok found
      → Sides label declaration (λ name. Dict.get found.1.tool_map name) (server_of found allowed)
  hosted_inventory label declaration (mode, inventory) allowed u h =
      let (a, ha, h1) =
        eq_ok_of_bind (refuse (is_given declaration.authorization) authorization_without_url) _
          (mode, inventory) h in
      let (b, hb, h2) =
        eq_ok_of_bind (refuse (is_given declaration.headers) headers_without_url) _
          (mode, inventory) h1 in
      let (i, hi, h3) =
        eq_ok_of_bind (resolve_builtin_server net servers settings label) _ (mode, inventory) h2 in
      let (list_tools, tools, r, l, m) = builtin_inventory label i hi in
      let same : i ≡ inventory = cc in
      let mode_same : mode ≡ hosted = cc in
      let is = sym same ∙ m in
      hosted_side list_tools tools r l
        (λ name. ap (λ (k : Inventory). Dict.get k.tool_map name) is ∙ get-tools tools name)
        (ap (λ (k : Inventory). k.backend) is) (ap (λ (k : Inventory). k.secret_values) is) u
        (not-is_given _ (refuse-ok _ _ a ha)) (not-is_given _ (refuse-ok _ _ b hb)) mode_same

  check_url-cases :
      (url : Text) (u : Unit {0})
      → check_url net servers settings url ≡ ok u
      → (settings.url_checks_enabled ≡ false)
        ⊎ ((host : Text) × (validate_request_remote_server_url net url ≡ ok host))
  unfolding check_url
  check_url-cases url u h = elim (Bool-cases settings.url_checks_enabled) [
    | inr b ↦ inl b
    | inl b ↦
        let k : (validate_request_remote_server_url net url >>= λ host. ok tt) ≡ ok u =
          ground arith in
        let (host, v, e) = eq_ok_of_bind (validate_request_remote_server_url net url) _ u k in
        inr (host, v)
  ]

  remote_inventory :
      (label : Text) (declaration : Declaration) (url : Text) (found : McpMode × Inventory)
      (allowed : Dict McpToolInfo)
      → declaration.server_url ≡ some url
      → (resolve_request_remote_server net servers settings label declaration url >>= λ inventory.
          ok (request_remote, inventory))
        ≡ ok found
      → Sides label declaration (λ name. Dict.get found.1.tool_map name) (server_of found allowed)
  unfolding resolve_request_remote_server
  remote_inventory label declaration url (mode, inventory) allowed u h =
      let (i, hi, h1) =
        eq_ok_of_bind (resolve_request_remote_server net servers settings label declaration url) _
          (mode, inventory) h in
      let (a, ha, h2) =
        eq_ok_of_bind (refuse (not settings.request_remote_enabled) remote_disabled) _ i hi in
      let (b, hb, h3) = eq_ok_of_bind (check_url net servers settings url) _ i h2 in
      let (headers, hh, h4) =
        eq_ok_of_bind
          (build_request_remote_headers net declaration.authorization declaration.headers) _ i h3 in
      let secrets = request_remote_secret_values declaration.authorization (some headers) in
      let binding = binding_of label url declaration headers in
      let (tools, ht, h5) =
        eq_ok_of_bind (map_error (remote_error label secrets) (servers.toolset binding)) _ i h4 in
      let r = refuse-ok _ _ a ha in
      let same : record { backend = remote binding; tool_map = tools; secret_values = secrets }
          ≡ inventory =
        cc in
      let mode_same : mode ≡ request_remote = cc in
      remote_side url headers tools hh (map_error-ok _ _ tools ht)
        (λ name. ap (λ (k : Inventory). Dict.get k.tool_map name) (sym same))
        (ap (λ (k : Inventory). k.backend) (sym same))
        (ap (λ (k : Inventory). k.secret_values) (sym same)) u (ground arith)
        (check_url-cases url b hb) mode_same

  inventory_side :
      (label : Text) (declaration : Declaration) (found : McpMode × Inventory)
      (allowed : Dict McpToolInfo)
      → inventory_of net servers settings label declaration ≡ ok found
      → Sides label declaration (λ name. Dict.get found.1.tool_map name) (server_of found allowed)
  unfolding inventory_of
  inventory_side label declaration found allowed h = elim (Option-cases declaration.server_url) [
    | inl u ↦ hosted_inventory label declaration found allowed u (ground arith)
    | inr (url, u) ↦ remote_inventory label declaration url found allowed u (ground arith)
  ]

  found_server :
      (label : Text) (declaration : Declaration) (found : McpMode × Inventory) (s : ResolvedServer)
      → is_given declaration.connector_id ≡ false
      → wants_approval declaration.require_approval ≡ false
      → inventory_of net servers settings label declaration ≡ ok found
      → (refuse
            (is_empty (select_allowed_tool_infos found.1.tool_map declaration.allowed_tools))
            (empty_tool_set label)
          >>= λ c. ok (
              server_of found
                (select_allowed_tool_infos found.1.tool_map declaration.allowed_tools)))
        ≡ ok s
      → IsResolved label declaration s
  found_server label declaration (mode, inventory) s a b hf h =
      let allowed = select_allowed_tool_infos inventory.tool_map declaration.allowed_tools in
      let (c, hc, e) = eq_ok_of_bind (refuse (is_empty allowed) (empty_tool_set label)) _ s h in
      rw (← eq_of_ok_eq_ok (server_of (mode, inventory) allowed) s e)
        (resolved (refuse-ok _ _ c hc))
    where
      resolved :
          is_empty (select_allowed_tool_infos inventory.tool_map declaration.allowed_tools) ≡ false
          → IsResolved label declaration (
              server_of
                (mode, inventory)
                (select_allowed_tool_infos inventory.tool_map declaration.allowed_tools))
      resolved n = record {
        no_connector = not-is_given declaration.connector_id a;
        no_approval = b;
        some_tool = n;
        listed = λ name. Dict.get inventory.tool_map name;
        allowed =
            λ name. get-select_allowed_tool_infos inventory.tool_map declaration.allowed_tools name;
        side =
            inventory_side label declaration (mode, inventory)
              (select_allowed_tool_infos inventory.tool_map declaration.allowed_tools) hf;
      }

  resolve_declaration-IsResolved :
      (label : Text) (declaration : Declaration) (s : ResolvedServer)
      → resolve_declaration net servers settings label declaration ≡ ok s
      → IsResolved label declaration s
  unfolding resolve_declaration
  resolve_declaration-IsResolved label declaration s h =
      let (a, ha, h1) =
        eq_ok_of_bind (refuse (is_given declaration.connector_id) connector_id) _ s h in
      let (b, hb, h2) =
        eq_ok_of_bind (refuse (wants_approval declaration.require_approval) require_approval) _ s
          h1 in
      let (found, hf, h3) =
        eq_ok_of_bind (inventory_of net servers settings label declaration) _ s h2 in
      found_server label declaration found s (refuse-ok _ _ a ha) (refuse-ok _ _ b hb) hf h3

  -- The servers, label by label in the order of the declarations.
  abbrev pub AreResolved : Dict Declaration → Dict ResolvedServer → Type 0
  AreResolved [] [] = Unit {0}
  AreResolved ((label, declaration) ∷ ds) ((label', s) ∷ ss) =
      (label ≡ label') × IsResolved label declaration s × AreResolved ds ss
  AreResolved [] (s ∷ ss) = ⊥
  AreResolved (d ∷ ds) [] = ⊥

  -- When the declarations of a request are resolved, there is one server for each of them, in
  -- order and under its label. It has some tool, and its backend is that of the label or of the
  -- declared url with the headers built for it, whose secrets it holds. Under each name it has the
  -- tool that this backend lists there (the last one of the name, where a hosted server lists
  -- several) if the declaration allows the name, and else none. No declaration had a connector or
  -- wanted approval. A hosted server was declared without url, authorization and headers; a remote
  -- one is allowed by the settings, and its url passed the checks if these are on.
  pub resolve_mcp_declarations-AreResolved :
      (declarations : Dict Declaration) (resolved : Dict ResolvedServer)
      → resolve_mcp_declarations net servers settings declarations ≡ ok resolved
      → AreResolved declarations resolved
  unfolding resolve_mcp_declarations
  resolve_mcp_declarations-AreResolved [] resolved h = rw (← eq_of_ok_eq_ok [] resolved h) tt
  resolve_mcp_declarations-AreResolved ((label, declaration) ∷ ds) resolved h =
      let (s, hs, h1) =
        eq_ok_of_bind (resolve_declaration net servers settings label declaration) _ resolved h in
      let (ss, hss, h2) =
        eq_ok_of_bind (resolve_mcp_declarations net servers settings ds) _ resolved h1 in
      rw (← eq_of_ok_eq_ok ((label, s) ∷ ss) resolved h2) (
        refl,
        resolve_declaration-IsResolved label declaration s hs,
        resolve_mcp_declarations-AreResolved ds ss hss,
      )
