-- ===== src/Mcp/Tests.antt =====
-- MCP declarations, names and texts, and the theorems at them.
use vllm_responses.Prelude.{
  ◌≡◌, refl, ◌⊎◌, Text, true, false, ◌||◌, ◌++◌, Option, none, some, List, [], ◌∷◌, codes, take,
  text_eq, member, if◌then◌else◌,
}
use vllm_responses.Prelude.Dict
use vllm_responses.Prelude.Dict.{Dict}
use vllm_responses.Prelude.Result.{ok}
use vllm_responses.Events.{hosted}
use vllm_responses.Mcp.{McpToolRef}
use vllm_responses.Mcp.Results.{redact_and_truncate_error_text, default_error_text, error_max_chars}
use vllm_responses.Mcp.Redaction.{contains, contains-redact_and_truncate_error_text}
use vllm_responses.Mcp.Names.{
  build_internal_mcp_tool_name, all_name_chars, sanitize_internal_tool_name, IsName,
  build_internal_mcp_tool_name-IsName,
}
use vllm_responses.Mcp.Registry.{register_all, AreNamed, register_all-AreNamed}
use vllm_responses.Mcp.Policy.{
  Net, build_request_remote_headers, is_authorization, headers_or_empty,
  request_remote_secret_values, texts_of, values_of,
}
use vllm_responses.Mcp.Headers.{
  get-build_request_remote_headers, IsLongestFirst, member-request_remote_secret_values,
}
use vllm_responses.Mcp.Resolver.{
  Declaration, Servers, Settings, ResolvedServer, Backend, resolve_mcp_declarations,
}
use vllm_responses.Mcp.Resolving.{AreResolved, resolve_mcp_declarations-AreResolved}

contains-redact_and_truncate_error_text_example :
    let shown =
      redact_and_truncate_error_text (some (codes "bad key s3cret!")) (codes "s3cret" ∷ []) in
    (shown ≡ take error_max_chars default_error_text) ⊎ (contains (codes "s3cret") shown ≡ false)
contains-redact_and_truncate_error_text_example =
    contains-redact_and_truncate_error_text (some (codes "bad key s3cret!")) (codes "s3cret" ∷ [])
      (codes "s3cret") refl refl refl

abbrev net : Net
net = record {
  urlsplit = λ url. ok (codes "https", some (codes "mcp.example.com"));
  is_ip_address = λ host. false;
  lower = λ t. if text_eq t (codes "AUTHORIZATION") then codes "authorization" else t;
}

abbrev shouted : Option (Dict Text)
shouted = some ((codes "AUTHORIZATION", codes "old") ∷ (codes "x", codes "1") ∷ [])

get-build_request_remote_headers_example :
    (built : Dict Text) × (build_request_remote_headers net (some (codes "tok")) shouted ≡ ok built)
    × (Dict.get built (codes "AUTHORIZATION") ≡ (
        if text_eq (codes "Authorization") (codes "AUTHORIZATION")
        then some (codes "Bearer " ++ codes "tok")
        else if is_authorization net (codes "AUTHORIZATION")
        then none
        else Dict.get (headers_or_empty shouted) (codes "AUTHORIZATION")))
get-build_request_remote_headers_example =
    get-build_request_remote_headers net (codes "tok") shouted (codes "AUTHORIZATION")

member-request_remote_secret_values_example :
    IsLongestFirst (request_remote_secret_values (some (codes "tok")) shouted)
    × (member (codes "old") (request_remote_secret_values (some (codes "tok")) shouted) ≡ (
        member (codes "old") (texts_of (some (codes "tok")))
        || member (codes "old") (values_of (headers_or_empty shouted))))
member-request_remote_secret_values_example =
    member-request_remote_secret_values (some (codes "tok")) shouted (codes "old") refl

abbrev sha1 : Text → Text
sha1 t = codes "0123456789abcdef"

digest_chars : (t : Text) → all_name_chars (sha1 t) ≡ true
digest_chars t = refl

-- Two tools whose plain names are the same.
abbrev refs : List McpToolRef
refs =
    record { server_label = codes "a"; tool_name = codes "x.y"; mode = hosted }
    ∷ record { server_label = codes "a"; tool_name = codes "x/y"; mode = hosted }
    ∷ []

abbrev names : List Text
names = codes "mcp__a__x_y" ∷ codes "mcp__a__x_y__0123456789" ∷ []

abbrev name_map : Dict McpToolRef
name_map =
    (
      codes "mcp__a__x_y",
      record { server_label = codes "a"; tool_name = codes "x.y"; mode = hosted },
    )
    ∷ (
      codes "mcp__a__x_y__0123456789",
      record { server_label = codes "a"; tool_name = codes "x/y"; mode = hosted },
    )
    ∷ []

registered : register_all sha1 refs [] ≡ ok (names, name_map)
unfolding register_all Dict.put Dict.get sanitize_internal_tool_name
registered = refl

register_all-AreNamed_example : AreNamed refs names name_map
register_all-AreNamed_example =
    register_all-AreNamed sha1 digest_chars refs name_map names registered

abbrev servers : Servers
servers = record {
  runtime = some (λ label. ok (
      record { name = codes "fetch"; description = none }
      ∷ record { name = codes "raw"; description = none }
      ∷ []));
  toolset = λ binding. ok [];
}

abbrev settings : Settings
settings = record { request_remote_enabled = false; url_checks_enabled = true }

abbrev declarations : Dict Declaration
declarations =
    (
      codes "web",
      record {
        connector_id = none;
        require_approval = none;
        server_url = none;
        authorization = none;
        headers = none;
        allowed_tools = some (codes "fetch" ∷ []);
      },
    )
    ∷ []

abbrev resolved : Dict ResolvedServer
resolved =
    (
      codes "web",
      record {
        mode = hosted;
        backend = Backend.managed (codes "web");
        secret_values = [];
        allowed_tool_infos =
            (codes "fetch", record { name = codes "fetch"; description = none }) ∷ [];
      },
    )
    ∷ []

resolves : resolve_mcp_declarations net servers settings declarations ≡ ok resolved
unfolding resolve_mcp_declarations Dict.put
resolves = refl

resolve_mcp_declarations-AreResolved_example :
    AreResolved net servers settings declarations resolved
resolve_mcp_declarations-AreResolved_example =
    resolve_mcp_declarations-AreResolved net servers settings declarations resolved resolves

abbrev plain_ref : McpToolRef
plain_ref = record { server_label = codes "a"; tool_name = codes "x.y"; mode = hosted }

named : build_internal_mcp_tool_name sha1 plain_ref [] ≡ ok (codes "mcp__a__x_y")
unfolding build_internal_mcp_tool_name sanitize_internal_tool_name Dict.get
named = refl

build_internal_mcp_tool_name-IsName_example : IsName plain_ref [] (codes "mcp__a__x_y")
build_internal_mcp_tool_name-IsName_example =
    build_internal_mcp_tool_name-IsName sha1 digest_chars plain_ref [] (codes "mcp__a__x_y") named
