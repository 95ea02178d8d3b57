-- ===== src/Normalizer/Shapes.antt =====
-- Streams of parts as pydantic_ai sends them.
use vllm_responses.Prelude.{
  ℕ, Text, ◌≡◌, refl, ap, Bool, true, false, ◌&&◌, ◌||◌, Option, none, some, List, [], ◌∷◌, text_eq,
}
use vllm_responses.Normalizer.State.{
  Config, Part, PartDelta, AgentEvent, text_part, thinking_part, tool_call_part, other_part,
  text_delta, thinking_delta, tool_call_delta, part_start, part_delta, part_end, get_index,
  put_index,
}
use vllm_responses.Normalizer.Starts.{web_search_tool}

pub data Shape : Type 0 where
  text_shape thinking_shape tool_shape other_shape : Shape

abbrev pub shape_of : Part → Shape
shape_of (text_part content) = text_shape
shape_of (thinking_part content details) = thinking_shape
shape_of (tool_call_part part) = tool_shape
shape_of other_part = other_shape

abbrev pub shape_of_delta : PartDelta → Shape
shape_of_delta (text_delta content) = text_shape
shape_of_delta (thinking_delta content details) = thinking_shape
shape_of_delta (tool_call_delta delta) = tool_shape

abbrev pub shape_eq : Shape → Shape → Bool
shape_eq text_shape text_shape = true
shape_eq thinking_shape thinking_shape = true
shape_eq tool_shape tool_shape = true
shape_eq other_shape other_shape = true
shape_eq _ _ = false

abbrev pub is_shape : Option Shape → Shape → Bool
is_shape none t = false
is_shape (some s) t = shape_eq s t

abbrev pub Shapes : Type 0
Shapes = List (ℕ × Shape)

-- A delta or an end belongs to a part of the same sort that began at its index.
unfoldable pub fits : Shapes → AgentEvent → Bool
unfolding get_index
fits shapes (part_delta i delta) = is_shape (get_index shapes i) (shape_of_delta delta)
fits shapes (part_end i part) = is_shape (get_index shapes i) (shape_of part)
fits shapes _ = true

unfoldable pub shapes_after : Shapes → AgentEvent → Shapes
unfolding put_index
shapes_after shapes (part_start i part) = put_index shapes i (shape_of part)
shapes_after shapes _ = shapes

unfoldable pub well_formed : Shapes → List AgentEvent → Bool
unfolding fits shapes_after
well_formed shapes [] = true
well_formed shapes (e ∷ es) = fits shapes e && well_formed (shapes_after shapes e) es

-- The only builtin tools are the search tool and the code interpreter.
abbrev pub is_known_tool : Config → Text → Bool
is_known_tool config name =
    text_eq web_search_tool name || text_eq config.code_interpreter_tool_name name

abbrev pub all_known : Config → List Text → Bool
all_known config [] = true
all_known config (name ∷ names) = is_known_tool config name && all_known config names

eq_of_shape_eq : (s t : Shape) → shape_eq s t ≡ true → s ≡ t
eq_of_shape_eq text_shape text_shape h = refl
eq_of_shape_eq thinking_shape thinking_shape h = refl
eq_of_shape_eq tool_shape tool_shape h = refl
eq_of_shape_eq other_shape other_shape h = refl
eq_of_shape_eq _ _ h = cc

pub eq_of_is_shape : (o : Option Shape) (t : Shape) → is_shape o t ≡ true → o ≡ some t
eq_of_is_shape none t h = cc
eq_of_is_shape (some s) t h = ap some (eq_of_shape_eq s t h)
