-- ===== src/Normalizer/Held.antt =====
-- What the normalizer holds between two events of a well-formed stream.
use vllm_responses.Prelude.{
  ℕ, ◌==◌, Text, ◌≡◌, refl, ◌∙◌, ◌⊎◌, inl, inr, Bool, true, false, Option, none, some, List, [],
  ◌∷◌, member, text_eq, text_eq_refl, eq_of_text_eq, if◌then◌else◌, Bool-cases, arith,
}
use vllm_responses.Prelude.Dict
use vllm_responses.Prelude.Dict.{Dict, get-put, get-put_cases}
use vllm_responses.Prelude.Result.{ok, err}
use vllm_responses.Events.Scopes.{scoped, opened_after, with_key}
use vllm_responses.CodeArgs.{CodeJsonArgsExtractor}
use vllm_responses.CodeArgs.Total.{IsSound}
use vllm_responses.Normalizer.State.{
  Normalizer, NormalizerError, PartKind, Handled, stuck_extractor, get_index, put_index, set_kind,
  put_extractor,
}
use vllm_responses.Normalizer.Starts.{item_key_of, put_call}
use vllm_responses.Normalizer.Shapes.{
  Shape, Shapes, text_shape, thinking_shape, tool_shape, other_shape,
}

abbrev pub IsOpen : List Text → Text → Type 0
IsOpen opened key = member key opened ≡ true

abbrev pub HeldPart : Dict PartKind → List Text → Text → Shape → Type 0
HeldPart kinds opened key text_shape =
    (Dict.get kinds key ≡ some PartKind.text_tool_call_probe) ⊎ IsOpen opened key
HeldPart kinds opened key thinking_shape = IsOpen opened key
HeldPart kinds opened key tool_shape = IsOpen opened key
HeldPart kinds opened key other_shape = Unit {0}

-- Calls belong to open items; parts have their key, and are held back or open; extractors return.
pub record Held (n : Normalizer) (shapes : Shapes) (opened : List Text) : Type 0 where
  pub calls :
      (call_id key : Text)
      → Dict.get n.tool_call_id_to_item_key call_id ≡ some key
      → IsOpen opened key
  pub parts :
      (i : ℕ) (s : Shape)
      → get_index shapes i ≡ some s
      → (get_index n.index_to_item_key i ≡ some (item_key_of i))
        × HeldPart n.item_kind opened (item_key_of i) s
  pub extractors :
      (key : Text) (e : CodeJsonArgsExtractor)
      → Dict.get n.code_arg_extractors key ≡ some e
      → IsSound e

abbrev pub is_stuck : NormalizerError → Bool
is_stuck stuck_extractor = true
is_stuck _ = false

-- What a handler gives: events that are scoped, and a state that is held again.
abbrev pub Safe : Shapes → List Text → Handled → Type 0
Safe shapes opened (n, ok out) =
    (scoped opened out ≡ true) × Held n shapes (opened_after opened out)
Safe shapes opened (n, err e) = is_stuck e ≡ false

pub member-with_key :
    (opened : List Text) (o : Option Text) (key : Text)
    → IsOpen opened key
    → IsOpen (with_key o opened) key
member-with_key opened none key h = h
member-with_key opened (some k) key h = ground arith

pub member_refl : (key : Text) (opened : List Text) → IsOpen (key ∷ opened) key
member_refl key opened = rw (text_eq_refl key)

held_part-mono :
    (kinds : Dict PartKind) (opened : List Text) (o : Option Text) (key : Text) (s : Shape)
    → HeldPart kinds opened key s
    → HeldPart kinds (with_key o opened) key s
held_part-mono kinds opened o key text_shape (inl h) = inl h
held_part-mono kinds opened o key text_shape (inr h) = inr (member-with_key opened o key h)
held_part-mono kinds opened o key thinking_shape h = member-with_key opened o key h
held_part-mono kinds opened o key tool_shape h = member-with_key opened o key h
held_part-mono kinds opened o key other_shape h = h

pub Held-with_key :
    (n : Normalizer) (shapes : Shapes) (opened : List Text) (o : Option Text)
    → Held n shapes opened
    → Held n shapes (with_key o opened)
Held-with_key n shapes opened o held = record {
  calls = λ c k e. member-with_key opened o k (held.calls c k e);
  parts = λ i s e. (
    (held.parts i s e).0,
    held_part-mono n.item_kind opened o (item_key_of i) s (held.parts i s e).1,
  );
  extractors = held.extractors;
}

get_index-put_index :
    {V : Type 0} (d : List (ℕ × V)) (i j : ℕ) (v : V)
    → get_index (put_index d i v) j ≡ (if i == j then some v else get_index d j)
unfolding get_index put_index
get_index-put_index [] i j v = refl
get_index-put_index ((k, w) ∷ d) i j v = ground (arith, get_index-put_index d i j v)

get_index-put_cases :
    {V : Type 0} (d : List (ℕ × V)) (i j : ℕ) (v w : V)
    → get_index (put_index d i v) j ≡ some w
    → ((j ≡ i) × (w ≡ v)) ⊎ (((i == j) ≡ false) × (get_index d j ≡ some w))
get_index-put_cases d i j v w h = elim (Bool-cases (i == j)) [
  | inl e ↦ inl (ground arith, ground (arith, get_index-put_index d i j v))
  | inr e ↦ inr (e, ground (arith, get_index-put_index d i j v))
]

get_index-put_self :
    {V : Type 0} (d : List (ℕ × V)) (i : ℕ) (v : V) → get_index (put_index d i v) i ≡ some v
get_index-put_self d i v = ground (arith, get_index-put_index d i i v)

get_index-put_other :
    {V : Type 0} (d : List (ℕ × V)) (i j : ℕ) (v : V)
    → (i == j) ≡ false
    → get_index (put_index d i v) j ≡ get_index d j
get_index-put_other d i j v h = ground (arith, get_index-put_index d i j v)

-- A part begins.
pub Held-put_index :
    (n : Normalizer) (shapes : Shapes) (opened : List Text) (i : ℕ) (s : Shape)
    → Held n shapes opened
    → HeldPart n.item_kind opened (item_key_of i) s
    → Held
        (record n { index_to_item_key = put_index n.index_to_item_key i (item_key_of i) })
        (put_index shapes i s)
        opened
Held-put_index n shapes opened i s held part = record {
  calls = held.calls;
  parts = λ j t e. elim (get_index-put_cases shapes i j s t e) [
    | inl (j_eq, t_eq) ↦
        rw (j_eq, t_eq) (get_index-put_self n.index_to_item_key i (item_key_of i), part)
    | inr (ne, old) ↦ (
      get_index-put_other n.index_to_item_key i j (item_key_of i) ne ∙ (held.parts j t old).0,
      (held.parts j t old).1,
    )
  ];
  extractors = held.extractors;
}

held_part-set_kind :
    (kinds : Dict PartKind) (opened : List Text) (key : Text) (k : PartKind)
    → (k ≡ PartKind.text_tool_call_probe) ⊎ IsOpen opened key
    → (j : Text) (s : Shape) → HeldPart kinds opened j s
    → HeldPart (Dict.put kinds key k) opened j s
held_part-set_kind kinds opened key k h j text_shape (inr p) = inr p
held_part-set_kind kinds opened key k h j text_shape (inl p) = elim (Bool-cases (text_eq key j)) [
  | inr e ↦ inl (get-put kinds key j k ∙ rw (e, p))
  | inl e ↦ elim h [
    | inl q ↦ inl (get-put kinds key j k ∙ rw (e, q))
    | inr o ↦ inr (rw (← eq_of_text_eq key j e) o)
  ]
]
held_part-set_kind kinds opened key k h j thinking_shape p = p
held_part-set_kind kinds opened key k h j tool_shape p = p
held_part-set_kind kinds opened key k h j other_shape p = p

-- The kind of an item is noted: it is held back or open.
pub Held-set_kind :
    (n : Normalizer) (shapes : Shapes) (opened : List Text) (key : Text) (k : PartKind)
    → (k ≡ PartKind.text_tool_call_probe) ⊎ IsOpen opened key
    → Held n shapes opened
    → Held (set_kind key k n) shapes opened
Held-set_kind n shapes opened key k h held = record {
  calls = held.calls;
  parts = λ i s e. (
    (held.parts i s e).0,
    held_part-set_kind n.item_kind opened key k h (item_key_of i) s (held.parts i s e).1,
  );
  extractors = held.extractors;
}

-- A call is noted for an open item.
pub Held-put_call :
    (n : Normalizer) (shapes : Shapes) (opened : List Text) (call_id key : Text)
    → IsOpen opened key
    → Held n shapes opened
    → Held (put_call call_id key n) shapes opened
Held-put_call n shapes opened call_id key h held = record {
  calls = λ c k e. elim (get-put_cases n.tool_call_id_to_item_key call_id c key k e) [
    | inl (c_eq, k_eq) ↦ rw k_eq h
    | inr (ne, old) ↦ held.calls c k old
  ];
  parts = held.parts;
  extractors = held.extractors;
}

-- An extractor is kept for an item.
pub Held-put_extractor :
    (n : Normalizer) (shapes : Shapes) (opened : List Text) (key : Text)
    (extractor : CodeJsonArgsExtractor)
    → IsSound extractor
    → Held n shapes opened
    → Held (put_extractor key extractor n) shapes opened
Held-put_extractor n shapes opened key extractor h held = record {
  calls = held.calls;
  parts = held.parts;
  extractors = λ j e found. elim (get-put_cases n.code_arg_extractors key j extractor e found) [
    | inl (j_eq, e_eq) ↦ rw e_eq h
    | inr (ne, old) ↦ held.extractors j e old
  ];
}
