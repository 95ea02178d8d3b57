-- ===== src/Mcp/Listing.antt =====
-- Looking up tools by name: among those that are listed, and those that are allowed.
use vllm_responses.Prelude.{
  ◌≡◌, refl, Text, Bool, true, false, Option, none, some, List, [], ◌∷◌, member, text_eq,
  eq_of_text_eq, if◌then◌else◌, arith,
}
use vllm_responses.Prelude.Dict
use vllm_responses.Prelude.Dict.{Dict, get-put}
use vllm_responses.Prelude.Result.{Result, ok, err}
use vllm_responses.Mcp.{McpToolInfo}
use vllm_responses.Mcp.Policy.{McpError}
use vllm_responses.Mcp.Resolver.{
  Binding, by_name, map_error, Declaration, select_allowed_tool_infos, filter_names, refuse,
  is_given,
}

abbrev pub is_allowed : Option (List Text) → Text → Bool
is_allowed none name = true
is_allowed (some names) name = member name names

pub get-filter_names :
    (names : List Text) (d : Dict McpToolInfo) (name : Text)
    → Dict.get (filter_names names d) name ≡ (if member name names then Dict.get d name else none)
unfolding filter_names Dict.get
get-filter_names names [] name = ground arith
get-filter_names names ((k, v) ∷ d) name =
    ground (arith, get-filter_names names d name, eq_of_text_eq k name)

pub get-select_allowed_tool_infos :
    (d : Dict McpToolInfo) (names : Option (List Text)) (name : Text)
    → Dict.get (select_allowed_tool_infos d names) name
      ≡ (if is_allowed names name then Dict.get d name else none)
unfolding select_allowed_tool_infos
get-select_allowed_tool_infos d none name = refl
get-select_allowed_tool_infos d (some names) name = get-filter_names names d name

pub refuse-ok : (b : Bool) (e : McpError) (u : Unit {0}) → refuse b e ≡ ok u → b ≡ false
refuse-ok true e u h = cc
refuse-ok false e u h = refl

pub not-is_given {ℓ} : {A : Type ℓ} (o : Option A) → is_given o ≡ false → o ≡ none
not-is_given none h = refl
not-is_given (some a) h = cc

-- The last of the tools with this name
abbrev pub last_named : Text → List McpToolInfo → Option McpToolInfo
last_named name [] = none
last_named name (t ∷ ts) = elim (last_named name ts) [
  | none ↦ if text_eq t.name name then some t else none
  | some u ↦ some u
]

pub get-by_name :
    (tools : List McpToolInfo) (d : Dict McpToolInfo) (name : Text)
    → Dict.get (by_name tools d) name
      ≡ elim (last_named name tools) [ none ↦ Dict.get d name | some t ↦ some t ]
unfolding by_name
get-by_name [] d name = refl
get-by_name (t ∷ ts) d name =
    ground (arith, get-by_name ts (Dict.put d t.name t) name, get-put d t.name name t)

pub get-tools :
    (tools : List McpToolInfo) (name : Text)
    → Dict.get (by_name tools []) name ≡ last_named name tools
unfolding Dict.get
get-tools tools name = ground (arith, get-by_name tools [] name)

pub map_error-ok :
    {E F A : Type 0} (f : E → F) (r : Result E A) (a : A) → map_error f r ≡ ok a → r ≡ ok a
map_error-ok f (ok b) a h = cc
map_error-ok f (err e) a h = cc

abbrev pub binding_of : Text → Text → Declaration → Dict Text → Binding
binding_of label url declaration headers = record {
  server_label = label;
  server_url = url;
  authorization = declaration.authorization;
  headers = headers;
}
