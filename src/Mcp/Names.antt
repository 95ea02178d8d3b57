-- ===== src/Mcp/Names.antt =====
-- The names under which the model sees MCP tools: `sanitize_internal_tool_name` and
-- `build_internal_mcp_tool_name` of tools/mcp/utils.py.
use vllm_responses.Prelude.{
  ℕ, zero, suc, ◌-◌, ◌≤◌, ◌≡◌, refl, sym, ◌∙◌, ◌⊎◌, inl, inr, Text, Bool, true, false, ◌&&◌, ◌||◌,
  ◌==◌, leb, Option, none, some, [], ◌∷◌, ◌++◌, take, length, codes, text_eq, eq_of_text_eq,
  if◌then◌else◌, Bool-cases, arith, length-append, length-take-le_count,
}
use vllm_responses.Prelude.Dict
use vllm_responses.Prelude.Dict.{Dict}
use vllm_responses.Prelude.Result.{Result, ok, err}
use vllm_responses.Events.{McpMode, hosted, request_remote}
use vllm_responses.Mcp.{McpToolRef}

-- `HOSTED_MCP_MAX_TOOL_NAME_LEN`
abbrev pub max_tool_name_len : ℕ
max_tool_name_len = 64

-- `[a-zA-Z0-9_-]`
abbrev pub is_name_char : ℕ → Bool
is_name_char c =
    leb b'a' c && leb c b'z'
    || (leb b'A' c && leb c b'Z' || (leb b'0' c && leb c b'9' || (c == b'_' || c == b'-')))

-- `_SANITIZE_RE.sub("_", name)`
unfoldable pub sanitized : Text → Text
sanitized [] = []
sanitized (c ∷ s) = (if is_name_char c then c else b'_') ∷ sanitized s

unfoldable pub sanitize_internal_tool_name : Text → Text
unfolding sanitized
sanitize_internal_tool_name name = take max_tool_name_len (sanitized name)

abbrev pub mode_text : McpMode → Text
mode_text hosted = codes "hosted"
mode_text request_remote = codes "request_remote"

abbrev pub mode_eq : McpMode → McpMode → Bool
mode_eq hosted hosted = true
mode_eq request_remote request_remote = true
mode_eq _ _ = false

unfoldable pub ref_eq : McpToolRef → McpToolRef → Bool
ref_eq a b =
    text_eq a.server_label b.server_label
    && (text_eq a.tool_name b.tool_name && mode_eq a.mode b.mode)

-- `existing is None or existing == ref`
unfoldable pub is_free : McpToolRef → Option McpToolRef → Bool
unfolding ref_eq
is_free ref none = true
is_free ref (some existing) = ref_eq existing ref

abbrev pub full_name : McpToolRef → Text
full_name ref = codes "mcp__" ++ (ref.server_label ++ (codes "__" ++ ref.tool_name))

abbrev pub base_name : McpToolRef → Text
base_name ref = sanitize_internal_tool_name (full_name ref)

-- `sha1` is the hexadecimal digest of hashlib.
module _ (sha1 : Text → Text) where
  abbrev pub hash_suffix : McpToolRef → Text
  hash_suffix ref =
      codes "__"
      ++ take 10 (
          sha1 (
            mode_text ref.mode
            ++ (codes ":" ++ (ref.server_label ++ (codes ":" ++ ref.tool_name)))))

  -- The name with the hash in its place.
  hashed_name : McpToolRef → Dict McpToolRef → Result (Unit {0}) Text
  unfolding is_free
  hashed_name ref existing_map =
      let suffix = hash_suffix ref in
      let candidate = take (max_tool_name_len - length suffix) (base_name ref) ++ suffix in
      if is_free ref (Dict.get existing_map candidate) then ok candidate else err tt

  -- The error is the `ValueError` of a collision.
  unfoldable pub build_internal_mcp_tool_name :
      McpToolRef → Dict McpToolRef → Result (Unit {0}) Text
  unfolding hashed_name is_free
  build_internal_mcp_tool_name ref existing_map =
      let name = base_name ref in
      if leb (length name) max_tool_name_len && is_free ref (Dict.get existing_map name)
      then ok name
      else hashed_name ref existing_map

-- `[a-zA-Z0-9_-]*`
abbrev pub all_name_chars : Text → Bool
all_name_chars [] = true
all_name_chars (c ∷ s) = is_name_char c && all_name_chars s

all_name_chars-append :
    (s t : Text)
    → all_name_chars s ≡ true
    → all_name_chars t ≡ true
    → all_name_chars (s ++ t) ≡ true
all_name_chars-append [] t h k = k
all_name_chars-append (c ∷ s) t h k = ground (arith, all_name_chars-append s t)

all_name_chars-take :
    (n : ℕ) (s : Text) → all_name_chars s ≡ true → all_name_chars (take n s) ≡ true
all_name_chars-take zero s h = refl
all_name_chars-take (suc n) [] h = refl
all_name_chars-take (suc n) (c ∷ s) h = ground (arith, all_name_chars-take n s)

all_name_chars-sanitized : (s : Text) → all_name_chars (sanitized s) ≡ true
unfolding sanitized
all_name_chars-sanitized [] = refl
all_name_chars-sanitized (c ∷ s) = ground (arith, all_name_chars-sanitized s)

base_name-chars : (ref : McpToolRef) → all_name_chars (base_name ref) ≡ true
unfolding sanitize_internal_tool_name
base_name-chars ref =
    all_name_chars-take max_tool_name_len (sanitized (full_name ref))
      (all_name_chars-sanitized (full_name ref))

length-base_name : (ref : McpToolRef) → length (base_name ref) ≤ max_tool_name_len
unfolding sanitize_internal_tool_name
length-base_name ref = length-take-le_count max_tool_name_len (sanitized (full_name ref))

mode_eq-eq : (m n : McpMode) → mode_eq m n ≡ true → m ≡ n
mode_eq-eq hosted hosted h = refl
mode_eq-eq hosted request_remote h = cc
mode_eq-eq request_remote hosted h = cc
mode_eq-eq request_remote request_remote h = refl

pub ref_eq-eq : (a b : McpToolRef) → ref_eq a b ≡ true → a ≡ b
unfolding ref_eq
ref_eq-eq a b h = ground (
  arith,
  eq_of_text_eq a.server_label b.server_label,
  eq_of_text_eq a.tool_name b.tool_name,
  mode_eq-eq a.mode b.mode,
)

is_free-cases :
    (ref : McpToolRef) (o : Option McpToolRef) → is_free ref o ≡ true → (o ≡ none) ⊎ (o ≡ some ref)
unfolding is_free
is_free-cases ref none h = inl refl
is_free-cases ref (some existing) h = inr (ground (arith, ref_eq-eq existing ref))

-- What the name of a tool has to be: short, of plain characters, and not that of another tool.
pub record IsName (ref : McpToolRef) (existing_map : Dict McpToolRef) (name : Text) : Type 0 where
  pub short : length name ≤ max_tool_name_len
  pub chars : all_name_chars name ≡ true
  pub free : (Dict.get existing_map name ≡ none) ⊎ (Dict.get existing_map name ≡ some ref)

module _ (sha1 : Text → Text) (hex : (t : Text) → all_name_chars (sha1 t) ≡ true) where
  abbrev hashed_text : McpToolRef → Text
  hashed_text ref =
      mode_text ref.mode ++ (codes ":" ++ (ref.server_label ++ (codes ":" ++ ref.tool_name)))

  length-hash_suffix : (ref : McpToolRef) → length (hash_suffix sha1 ref) ≤ 12
  length-hash_suffix ref = omega (arith, length-take-le_count 10 (sha1 (hashed_text ref)))

  abbrev candidate : McpToolRef → Text
  candidate ref =
      take (max_tool_name_len - length (hash_suffix sha1 ref)) (base_name ref)
      ++ hash_suffix sha1 ref

  length-candidate : (ref : McpToolRef) → length (candidate ref) ≤ max_tool_name_len
  length-candidate ref = omega (
    arith,
    length-hash_suffix ref,
    length-append (take (max_tool_name_len - length (hash_suffix sha1 ref)) (base_name ref))
        (hash_suffix sha1 ref),
    length-take-le_count (max_tool_name_len - length (hash_suffix sha1 ref)) (base_name ref),
  )

  candidate-chars : (ref : McpToolRef) → all_name_chars (candidate ref) ≡ true
  candidate-chars ref =
      all_name_chars-append
        (take (max_tool_name_len - length (hash_suffix sha1 ref)) (base_name ref))
        (hash_suffix sha1 ref)
        (all_name_chars-take (max_tool_name_len - length (hash_suffix sha1 ref)) (base_name ref)
          (base_name-chars ref))
        (all_name_chars-take 10 (sha1 (hashed_text ref)) (hex (hashed_text ref)))

  candidate-IsName :
      (ref : McpToolRef) (existing_map : Dict McpToolRef)
      → is_free ref (Dict.get existing_map (candidate ref)) ≡ true
      → IsName ref existing_map (candidate ref)
  candidate-IsName ref existing_map b = record {
    short = length-candidate ref;
    chars = candidate-chars ref;
    free = is_free-cases ref _ b;
  }

  base_name-IsName :
      (ref : McpToolRef) (existing_map : Dict McpToolRef)
      → is_free ref (Dict.get existing_map (base_name ref)) ≡ true
      → IsName ref existing_map (base_name ref)
  base_name-IsName ref existing_map b = record {
    short = length-base_name ref;
    chars = base_name-chars ref;
    free = is_free-cases ref _ b;
  }

  hashed_name-IsName :
      (ref : McpToolRef) (existing_map : Dict McpToolRef) (name : Text)
      → hashed_name sha1 ref existing_map ≡ ok name
      → IsName ref existing_map name
  unfolding hashed_name
  hashed_name-IsName ref existing_map name h =
      elim (Bool-cases (is_free ref (Dict.get existing_map (candidate ref)))) [
        | inr b ↦ let d : hashed_name sha1 ref existing_map ≡ err tt = rw b in cc
        | inl b ↦
            let d : hashed_name sha1 ref existing_map ≡ ok (candidate ref) = rw b in
            let e : candidate ref ≡ name = cc in rw (← e) (candidate-IsName ref existing_map b)
      ]

  -- A name built for a tool has at most 64 characters, all of them letters, digits, `_` or `-`, and
  -- it is not the name of another tool; for a digest of hexadecimal digits.
  pub build_internal_mcp_tool_name-IsName :
      (ref : McpToolRef) (existing_map : Dict McpToolRef) (name : Text)
      → build_internal_mcp_tool_name sha1 ref existing_map ≡ ok name
      → IsName ref existing_map name
  unfolding build_internal_mcp_tool_name
  build_internal_mcp_tool_name-IsName ref existing_map name h =
      let g =
        leb (length (base_name ref)) max_tool_name_len
        && is_free ref (Dict.get existing_map (base_name ref)) in
      elim (Bool-cases g) [
        | inl b ↦
            let d : build_internal_mcp_tool_name sha1 ref existing_map ≡ ok (base_name ref) =
              rw b in
            let e : base_name ref ≡ name = cc in
            let f : is_free ref (Dict.get existing_map (base_name ref)) ≡ true = ground arith in
            rw (← e) (base_name-IsName ref existing_map f)
        | inr b ↦
            let d : build_internal_mcp_tool_name sha1 ref existing_map
                ≡ hashed_name sha1 ref existing_map =
              rw b in
            hashed_name-IsName ref existing_map name (sym d ∙ h)
      ]
