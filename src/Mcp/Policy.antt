-- ===== src/Mcp/Policy.antt =====
-- What a request may declare about a remote MCP server: tools/mcp/policy.py.
use vllm_responses.Prelude.{
  Text, Bool, not, ◌&&◌, ◌||◌, ◌==◌, ltb, Option, none, some, List, [], ◌∷◌, ◌++◌, length, codes,
  is_empty, text_eq, member, last_n, if◌then◌else◌,
}
use vllm_responses.Prelude.Dict
use vllm_responses.Prelude.Dict.{Dict}
use vllm_responses.Prelude.Result.{Result, ok, err}

pub data McpError : Type 0 where
  invalid_url : Text → McpError
  not_https no_host localhost ip_literal duplicate_authorization : McpError
  connector_id require_approval authorization_without_url headers_without_url : McpError
  runtime_disabled remote_disabled : McpError
  unknown_server unavailable_server empty_tool_set : Text → McpError
  -- label and error text
  inventory_failed : Text → Text → McpError
  -- a `BadInputError` of a toolset, passed on
  toolset_error : Text → McpError

-- What the code takes from the standard library: `urlsplit` (scheme and hostname, or the text of a
-- `ValueError`), `ipaddress.ip_address` (whether it accepts) and `str.lower`.
pub record Net : Type 0 where
  pub urlsplit : Text → Result Text (Text × Option Text)
  pub is_ip_address : Text → Bool
  pub lower : Text → Text

-- `host.rstrip(".")`
unfoldable pub rstrip_dots : Text → Text
rstrip_dots [] = []
rstrip_dots (c ∷ s) = let r = rstrip_dots s in if is_empty r && c == b'.' then [] else c ∷ r

abbrev pub ends_with : Text → Text → Bool
ends_with suffix text = text_eq (last_n (length suffix) text) suffix

abbrev pub dedupe : List Text → List Text
dedupe [] = []
dedupe (t ∷ ts) = if member t ts then dedupe ts else t ∷ dedupe ts

-- Longest first.
unfoldable pub insert_longest : Text → List Text → List Text
insert_longest t [] = t ∷ []
insert_longest t (u ∷ us) =
    if ltb (length t) (length u) then u ∷ insert_longest t us else t ∷ u ∷ us

unfoldable pub sort_longest : List Text → List Text
unfolding insert_longest
sort_longest [] = []
sort_longest (t ∷ ts) = insert_longest t (sort_longest ts)

abbrev pub non_empty : List Text → List Text
non_empty [] = []
non_empty (t ∷ ts) = if is_empty t then non_empty ts else t ∷ non_empty ts

abbrev pub values_of : Dict Text → List Text
values_of [] = []
values_of ((k, v) ∷ d) = v ∷ values_of d

abbrev pub headers_or_empty : Option (Dict Text) → Dict Text
headers_or_empty none = []
headers_or_empty (some d) = d

abbrev pub texts_of : Option Text → List Text
texts_of none = []
texts_of (some t) = t ∷ []

-- The set is taken in the order of last occurrence; texts of one length stay in that order.
unfoldable pub request_remote_secret_values : Option Text → Option (Dict Text) → List Text
unfolding sort_longest
request_remote_secret_values authorization headers =
    sort_longest
      (dedupe (non_empty (texts_of authorization ++ values_of (headers_or_empty headers))))

module _ (net : Net) where
  -- The checks of a host name in lower case, without dots at its end.
  check_host : Text → Result McpError Text
  check_host host =
      if text_eq host (codes "localhost") || ends_with (codes ".localhost") host
      then err localhost
      else if net.is_ip_address host
      then err ip_literal
      else ok host

  check_parsed : Text × Option Text → Result McpError Text
  unfolding check_host rstrip_dots
  check_parsed (scheme, hostname) =
      if not (text_eq (net.lower scheme) (codes "https")) then err not_https else elim hostname [
        | none ↦ err no_host
        | some host ↦
            if is_empty host then err no_host else check_host (rstrip_dots (net.lower host))
      ]

  unfoldable pub validate_request_remote_server_url : Text → Result McpError Text
  unfolding check_parsed
  validate_request_remote_server_url server_url = elim (net.urlsplit server_url) [
    | err message ↦ err (invalid_url message)
    | ok parsed ↦ check_parsed parsed
  ]

  abbrev pub is_authorization : Text → Bool
  is_authorization key = text_eq (net.lower key) (codes "authorization")

  abbrev pub authorization_keys : Dict Text → List Text
  authorization_keys [] = []
  authorization_keys ((k, v) ∷ d) =
      if is_authorization k then k ∷ authorization_keys d else authorization_keys d

  unfoldable pub delete_all : List Text → Dict Text → Dict Text
  delete_all [] d = d
  delete_all (k ∷ ks) d = delete_all ks (Dict.delete d k)

  unfoldable pub build_request_remote_headers :
      Option Text → Option (Dict Text) → Result McpError (Dict Text)
  unfolding delete_all
  build_request_remote_headers none request_headers =
      let source = headers_or_empty request_headers in
      if ltb 1 (length (authorization_keys source)) then err duplicate_authorization else ok source
  build_request_remote_headers (some authorization) request_headers =
      let source = headers_or_empty request_headers in
      ok (
        Dict.put (delete_all (authorization_keys source) source) (codes "Authorization")
          (codes "Bearer " ++ authorization))
