-- ===== src/Mcp/Registry.antt =====
-- The registry of the names of MCP tools: `register_internal_mcp_tool_name` of
-- tools/mcp/assembly.py, over the map that the normalizer later reads names back with.
use vllm_responses.Prelude.{
  ◌≡◌, refl, sym, ◌∙◌, inl, inr, Text, true, Option, none, some, List, [], ◌∷◌, text_eq,
  text_eq_refl, eq_of_text_eq, if◌then◌else◌, Bool-cases, Option-cases, arith,
}
use vllm_responses.Prelude.Dict
use vllm_responses.Prelude.Dict.{Dict, get-put, get-put_self}
use vllm_responses.Prelude.Result.{Result, ok, err, Result-cases}
use vllm_responses.Mcp.{McpToolRef}
use vllm_responses.Mcp.Names.{
  ref_eq, ref_eq-eq, build_internal_mcp_tool_name, build_internal_mcp_tool_name-IsName,
  all_name_chars, IsName,
}

-- `{ref: name for name, ref in map.items()}.get(ref)`: of several names the last one.
unfoldable pub name_of_ref : Dict McpToolRef → McpToolRef → Option Text
unfolding ref_eq
name_of_ref [] ref = none
name_of_ref ((name, r) ∷ d) ref = elim (name_of_ref d ref) [
  | some later ↦ some later
  | none ↦ if ref_eq r ref then some name else none
]

-- `register_internal_mcp_tool_name` of tools/mcp/assembly.py: the name, and the map with it.
unfoldable pub register_internal_mcp_tool_name :
    (Text → Text) → McpToolRef → Dict McpToolRef → Result (Unit {0}) (Text × Dict McpToolRef)
unfolding name_of_ref build_internal_mcp_tool_name
register_internal_mcp_tool_name sha1 ref map = elim (name_of_ref map ref) [
  | some name ↦ ok (name, map)
  | none ↦ elim (build_internal_mcp_tool_name sha1 ref map) [
    | err e ↦ err e
    | ok name ↦ ok (name, Dict.put map name ref)
  ]
]

-- The names of a list of tools, registered one after another.
unfoldable pub register_all :
    (Text → Text)
    → List McpToolRef
    → Dict McpToolRef
    → Result (Unit {0}) (List Text × Dict McpToolRef)
unfolding register_internal_mcp_tool_name
register_all sha1 [] map = ok ([], map)
register_all sha1 (ref ∷ refs) map = elim (register_internal_mcp_tool_name sha1 ref map) [
  | err e ↦ err e
  | ok (name, map') ↦ elim (register_all sha1 refs map') [
    | err e ↦ err e
    | ok (names, map'') ↦ ok (name ∷ names, map'')
  ]
]

-- No name stands twice.
abbrev pub IsUnique : Dict McpToolRef → Type 0
IsUnique [] = Unit {0}
IsUnique ((name, ref) ∷ d) = (Dict.get d name ≡ none) × IsUnique d

put-IsUnique :
    (d : Dict McpToolRef) (name : Text) (ref : McpToolRef)
    → IsUnique d
    → IsUnique (Dict.put d name ref)
unfolding Dict.put Dict.get
put-IsUnique [] name ref u = (refl, tt)
put-IsUnique ((k, v) ∷ d) name ref (n, u) = elim (Bool-cases (text_eq k name)) [
  | inl b ↦ let e = eq_of_text_eq k name b in rw (b, Dict.put) (rw (← e) n, u)
  | inr b ↦
      rw (b, Dict.put)
        (
          get-put d name k ref ∙ ground (arith, eq_of_text_eq name k, text_eq_refl k),
          put-IsUnique d name ref u,
        )
]

get-name_of_ref :
    (d : Dict McpToolRef) (ref : McpToolRef) (name : Text)
    → IsUnique d
    → name_of_ref d ref ≡ some name
    → Dict.get d name ≡ some ref
unfolding name_of_ref Dict.get
get-name_of_ref [] ref name u h = cc
get-name_of_ref ((k, v) ∷ d) ref name (n, u) h = elim (Option-cases (name_of_ref d ref)) [
  | inr (later, e) ↦
      let q : later ≡ name = ground arith in
      let g = get-name_of_ref d ref later u e in ground (arith, eq_of_text_eq k name)
  | inl e ↦ ground (arith, ref_eq-eq v ref, text_eq_refl k)
]

-- Each tool stands under the name that it got.
abbrev pub AreNamed : List McpToolRef → List Text → Dict McpToolRef → Type 0
AreNamed [] [] map = Unit {0}
AreNamed (ref ∷ refs) (name ∷ names) map = (Dict.get map name ≡ some ref) × AreNamed refs names map
AreNamed [] (name ∷ names) map = ⊥
AreNamed (ref ∷ refs) [] map = ⊥

-- A registration gives the tool its name, and takes none away.
record Registered (map : Dict McpToolRef) (ref : McpToolRef) (name : Text) (map' : Dict McpToolRef)
    : Type 0 where
  named : Dict.get map' name ≡ some ref
  unique : IsUnique map'
  kept : (k : Text) (r : McpToolRef) → Dict.get map k ≡ some r → Dict.get map' k ≡ some r

module _ (sha1 : Text → Text) (hex : (t : Text) → all_name_chars (sha1 t) ≡ true) where
  put-Registered :
      (map : Dict McpToolRef) (ref : McpToolRef) (name : Text)
      → IsUnique map
      → IsName ref map name
      → Registered map ref name (Dict.put map name ref)
  put-Registered map ref name u n = record {
    named = get-put_self map name ref;
    unique = put-IsUnique map name ref u;
    kept = λ k r h. elim (Bool-cases (text_eq name k)) [
      | inr b ↦ get-put map name k ref ∙ rw b h
      | inl b ↦
          let e = eq_of_text_eq name k b in
          let g : Dict.get map name ≡ some r = rw e h in
          elim n.free [ inl f ↦ cc | inr f ↦ get-put map name k ref ∙ rw b (sym f ∙ g) ]
    ];
  }

  register-Registered :
      (map map' : Dict McpToolRef) (ref : McpToolRef) (name : Text)
      → IsUnique map
      → register_internal_mcp_tool_name sha1 ref map ≡ ok (name, map')
      → Registered map ref name map'
  unfolding register_internal_mcp_tool_name
  register-Registered map map' ref name u h = elim (Option-cases (name_of_ref map ref)) [
    | inr (old, e) ↦
        let d : register_internal_mcp_tool_name sha1 ref map ≡ ok (old, map) =
          rw (e, register_internal_mcp_tool_name) in
        let n : old ≡ name = cc in
        let m : map ≡ map' = cc in
        rw (← m, ← n)
          (record { named = get-name_of_ref map ref old u e; unique = u; kept = λ k r g. g })
    | inl e ↦ elim (Result-cases (build_internal_mcp_tool_name sha1 ref map)) [
      | inl (x, b) ↦
          let d : register_internal_mcp_tool_name sha1 ref map ≡ err x =
            rw (e, register_internal_mcp_tool_name, b) in
          cc
      | inr (new, b) ↦
          let d : register_internal_mcp_tool_name sha1 ref map ≡ ok (new, Dict.put map new ref) =
            rw (e, register_internal_mcp_tool_name, b) in
          let n : new ≡ name = cc in
          let m : Dict.put map new ref ≡ map' = cc in
          rw (← m, ← n)
            (put-Registered map ref new u
              (build_internal_mcp_tool_name-IsName sha1 hex ref map new b))
    ]
  ]

  AreNamed-kept :
      (map map' : Dict McpToolRef) (refs : List McpToolRef) (names : List Text)
      → ((k : Text) (r : McpToolRef) → Dict.get map k ≡ some r → Dict.get map' k ≡ some r)
      → AreNamed refs names map
      → AreNamed refs names map'
  AreNamed-kept map map' [] [] k h = tt
  AreNamed-kept map map' [] (name ∷ names) k h = h
  AreNamed-kept map map' (ref ∷ refs) [] k h = h
  AreNamed-kept map map' (ref ∷ refs) (name ∷ names) k (h, hs) =
      (k name ref h, AreNamed-kept map map' refs names k hs)

  register_all_keeps :
      (refs : List McpToolRef) (map map' : Dict McpToolRef) (names : List Text)
      → IsUnique map
      → register_all sha1 refs map ≡ ok (names, map')
      → AreNamed refs names map'
        × ((k : Text) (r : McpToolRef) → Dict.get map k ≡ some r → Dict.get map' k ≡ some r)
  unfolding register_all
  register_all_keeps [] map map' names u h =
      let n : [] ≡ names = cc in let m : map ≡ map' = cc in rw (← m, ← n) (tt, λ k r g. g)
  register_all_keeps (ref ∷ refs) map map' names u h =
      elim (Result-cases (register_internal_mcp_tool_name sha1 ref map)) [
        | inl (x, e) ↦
            let d : register_all sha1 (ref ∷ refs) map ≡ err x = rw (e, register_all) in cc
        | inr ((name, map1), e) ↦ elim (Result-cases (register_all sha1 refs map1)) [
          | inl (x, f) ↦
              let d : register_all sha1 (ref ∷ refs) map ≡ err x = rw (e, register_all) (rw f) in cc
          | inr ((rest, map2), f) ↦
              let d : register_all sha1 (ref ∷ refs) map ≡ ok (name ∷ rest, map2) =
                rw (e, register_all) (rw f) in
              let n : name ∷ rest ≡ names = cc in
              let m : map2 ≡ map' = cc in
              let g = register-Registered map map1 ref name u e in
              let (ns, k) = register_all_keeps refs map1 map2 rest g.unique f in
              rw (← m, ← n) ((k name ref g.named, ns), λ key r q. k key r (g.kept key r q))
        ]
      ]

  -- When the tools of a request are registered from an empty map and no name collides, looking up
  -- the name that a tool got gives back that tool: the names of different tools differ, and a name
  -- that is given later takes none away; for a digest of hexadecimal digits.
  pub register_all-AreNamed :
      (refs : List McpToolRef) (map : Dict McpToolRef) (names : List Text)
      → register_all sha1 refs [] ≡ ok (names, map)
      → AreNamed refs names map
  register_all-AreNamed refs map names h = (register_all_keeps refs [] map names tt h).0
