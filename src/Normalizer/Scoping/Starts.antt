-- ===== src/Normalizer/Scoping/Starts.antt =====
-- Parts that begin.
use vllm_responses.Prelude.{
  ℕ, Text, ◌≡◌, refl, inl, inr, true, false, ◌||◌, Option, none, some, List, [], ◌∷◌, codes, concat,
  is_empty, member, text_eq, eq_of_text_eq, text_eq_refl, Bool-cases, arith, if◌then◌else◌,
}
use vllm_responses.Prelude.Dict
use vllm_responses.CodeArgs.{new_extractor}
use vllm_responses.Events.{
  NormalizedEvent, message_started, message_delta, reasoning_started, reasoning_delta,
  mcp_call_started, mcp_call_arguments_delta, web_search_call_started, custom_tool_call_started,
  code_interpreter_call_started, function_call_started, function_call_arguments_delta,
}
use vllm_responses.Events.Scopes.{opens, follows}
use vllm_responses.Mcp.{McpToolRef}
use vllm_responses.Normalizer.State.{
  Normalizer, Config, Part, ToolCallPart, PartKind, text_part, thinking_part, tool_call_part,
  other_part, yields, put_index, set_kind, unless_empty, put_extractor, feed_extractor,
}
use vllm_responses.Normalizer.Reasoning.{extract_raw_reasoning_content}
use vllm_responses.Normalizer.Starts.{
  put_buffer, put_raw, put_call, unless_blank, web_search_tool, item_key_of, start_text,
  start_thinking, start_thinking_as, start_tool_as, start_mcp, start_code_interpreter,
  start_builtin, started_function, start_function, start_tool_call, start_part, on_part_start,
}
use vllm_responses.Normalizer.Shapes.{
  Shapes, all_known, is_known_tool, shape_of, Shape, text_shape, thinking_shape, tool_shape,
  other_shape,
}
use vllm_responses.Normalizer.Held.{
  Held, Safe, IsOpen, member_refl, Held-with_key, Held-set_kind, Held-put_extractor, Held-put_call,
  Held-put_index, HeldPart,
}
use vllm_responses.Normalizer.Scoping.{
  nothing_yielded, yielded_first, yielded_started, feed_extractor-Safe,
}

known_of_member :
    (config : Config) (names : List Text) (name : Text)
    → all_known config names ≡ true
    → member name names ≡ true
    → is_known_tool config name ≡ true
known_of_member config [] name h m = ground arith
known_of_member config (u ∷ us) name h m = elim (Bool-cases (text_eq u name)) [
  | inl e ↦ rw (← eq_of_text_eq u name e) (ground arith)
  | inr e ↦ known_of_member config us name (ground arith) (ground arith)
]

abbrev begin : ℕ → Normalizer → Normalizer
begin i n = record n { index_to_item_key = put_index n.index_to_item_key i (item_key_of i) }

open_part :
    (kinds : Dict.Dict PartKind) (opened : List Text) (key : Text) (s : Shape)
    → IsOpen opened key
    → HeldPart kinds opened key s
open_part kinds opened key text_shape h = inr h
open_part kinds opened key thinking_shape h = h
open_part kinds opened key tool_shape h = h
open_part kinds opened key other_shape h = tt

module _ (config : Config) (shapes : Shapes) (opened : List Text) (i : ℕ) where
  abbrev here : Text
  here = item_key_of i

  -- The part opens its item.
  opened_as :
      (n : Normalizer) (s : Shape) (k : PartKind)
      → Held n shapes opened
      → Held (set_kind here k (begin i n)) (put_index shapes i s) (here ∷ opened)
  opened_as n s k held =
      let h = member_refl here opened in
      Held-put_index (set_kind here k n) shapes (here ∷ opened) i s
        (Held-set_kind n shapes (here ∷ opened) here k (inr h)
          (Held-with_key n shapes opened (some here) held))
        (open_part (Dict.put n.item_kind here k) (here ∷ opened) here s h)

  -- The part's item is opened with this event, and goes on unless the text is empty.
  opens_with :
      (n : Normalizer) (s : Shape) (k : PartKind) (event next : NormalizedEvent) (t : Text)
      → opens event ≡ some here
      → follows event ≡ none
      → follows next ≡ some here
      → Held n shapes opened
      → Safe
          (put_index shapes i s)
          opened
          (yields (set_kind here k (begin i n)) (event ∷ unless_empty t next))
  opens_with n s k event next t e f g held =
      yielded_started (put_index shapes i s) opened (set_kind here k (begin i n)) event next t
        (rw f) (rw (e, g) (member_refl here opened)) (rw e (opened_as n s k held))

  -- The text is held back.
  probe_begun :
      (n : Normalizer) (content : Text)
      → Held n shapes opened
      → Held
          (put_buffer here
            (unless_blank content)
            (set_kind here PartKind.text_tool_call_probe (begin i n)))
          (put_index shapes i text_shape)
          opened
  probe_begun n content held =
      let k = PartKind.text_tool_call_probe in
      let held' =
        Held-put_index (set_kind here k n) shapes opened i text_shape
          (Held-set_kind n shapes opened here k (inl refl) held)
          (inl (Dict.get-put_self n.item_kind here k)) in
      record { calls = held'.calls; parts = held'.parts; extractors = held'.extractors }

  start_text-Safe :
      (content : Text) (n : Normalizer)
      → Held n shapes opened
      → Safe (put_index shapes i text_shape) opened (start_text config here content (begin i n))
  unfolding start_text
  start_text-Safe content n held = elim (Bool-cases (is_empty config.text_tool_call_probe_names)) [
    | inl e ↦ rw e (
        opens_with n text_shape PartKind.message (message_started here) (message_delta here content)
          content refl refl refl held)
    | inr e ↦ rw e (
        nothing_yielded (put_index shapes i text_shape) opened
          (put_buffer here (unless_blank content)
            (set_kind here PartKind.text_tool_call_probe (begin i n)))
          (probe_begun n content held))
  ]

  start_thinking_as-Safe :
      (raw : Option (List Text)) (content : Text) (n : Normalizer)
      → Held n shapes opened
      → Safe
          (put_index shapes i thinking_shape)
          opened
          (start_thinking_as config raw here content (begin i n))
  unfolding start_thinking_as
  start_thinking_as-Safe none content n held =
      opens_with n thinking_shape PartKind.reasoning (reasoning_started here)
        (reasoning_delta here content) content refl refl refl held
  start_thinking_as-Safe (some raw) content n held =
      opens_with (put_raw here raw n) thinking_shape PartKind.reasoning (reasoning_started here)
        (reasoning_delta here (concat raw)) (concat raw) refl refl refl
        (record { calls = held.calls; parts = held.parts; extractors = held.extractors })

  -- The call of the part is noted, and the part opens its item.
  called_as :
      (n : Normalizer) (k : PartKind) (call_id : Text)
      → Held n shapes opened
      → Held
          (set_kind here k (put_call call_id here (begin i n)))
          (put_index shapes i tool_shape)
          (here ∷ opened)
  called_as n k call_id held =
      Held-put_call (set_kind here k (begin i n)) (put_index shapes i tool_shape) (here ∷ opened)
        call_id here (member_refl here opened) (opened_as n tool_shape k held)

  calls_with :
      (n : Normalizer) (k : PartKind) (call_id : Text) (event next : NormalizedEvent) (t : Text)
      → opens event ≡ some here
      → follows event ≡ none
      → follows next ≡ some here
      → Held n shapes opened
      → Safe (put_index shapes i tool_shape) opened (
          yields
            (set_kind here k (put_call call_id here (begin i n)))
            (event ∷ unless_empty t next))
  calls_with n k call_id event next t e f g held =
      yielded_started (put_index shapes i tool_shape) opened
        (set_kind here k (put_call call_id here (begin i n))) event next t (rw f)
        (rw (e, g) (member_refl here opened)) (rw e (called_as n k call_id held))

  start_code_interpreter-Safe :
      (arguments call_id : Text) (n : Normalizer)
      → Held n shapes opened
      → Safe
          (put_index shapes i tool_shape)
          opened
          (start_code_interpreter config here arguments (put_call call_id here (begin i n)))
  unfolding start_code_interpreter
  start_code_interpreter-Safe arguments call_id n held =
      let extractor = new_extractor (codes "code") in
      let sound = inr (record { outside = refl; live = refl; exclusive = inl refl }) in
      let k = PartKind.code_interpreter_call in
      let n1 = put_extractor here extractor (set_kind here k (put_call call_id here (begin i n))) in
      let held' =
        Held-put_extractor (set_kind here k (put_call call_id here (begin i n)))
          (put_index shapes i tool_shape) (here ∷ opened) here extractor sound
          (called_as n k call_id held) in
      yielded_first (put_index shapes i tool_shape) opened
        (code_interpreter_call_started here (some []))
        (if is_empty arguments || text_eq arguments (codes "{}")
          then yields n1 []
          else feed_extractor here extractor arguments n1)
        refl
        (elim (Bool-cases (is_empty arguments || text_eq arguments (codes "{}"))) [
          | inl e ↦ rw e (nothing_yielded (put_index shapes i tool_shape) (here ∷ opened) n1 held')
          | inr e ↦ rw e (
              feed_extractor-Safe (put_index shapes i tool_shape) (here ∷ opened) here extractor
                arguments n1 sound (member_refl here opened) held')
        ])

  -- A known builtin tool that is not the search tool is the code interpreter.
  known_tool_cases :
      (name : Text)
      → is_known_tool config name ≡ true
      → text_eq name web_search_tool ≡ false
      → text_eq name config.code_interpreter_tool_name ≡ true
  known_tool_cases name known e = ground (
    arith,
    known,
    eq_of_text_eq web_search_tool name,
    eq_of_text_eq config.code_interpreter_tool_name name,
    text_eq_refl name,
  )

  start_builtin-Safe :
      (part : ToolCallPart) (n : Normalizer)
      → is_known_tool config part.tool_name ≡ true
      → Held n shapes opened
      → Safe
          (put_index shapes i tool_shape)
          opened
          (start_builtin config here part (put_call part.tool_call_id here (begin i n)))
  unfolding start_builtin
  start_builtin-Safe part n known held =
      elim (Bool-cases (text_eq part.tool_name web_search_tool)) [
        | inl e ↦ rw e (
            calls_with n PartKind.web_search_call part.tool_call_id (web_search_call_started here)
              (message_delta here []) [] refl refl refl held)
        | inr e ↦
            rw (e, known_tool_cases part.tool_name known e)
              (start_code_interpreter-Safe part.args_as_json_str part.tool_call_id n held)
      ]

  start_function-Safe :
      (part : ToolCallPart) (n : Normalizer)
      → Held n shapes opened
      → Safe
          (put_index shapes i tool_shape)
          opened
          (start_function config here part (put_call part.tool_call_id here (begin i n)))
  unfolding start_function started_function
  start_function-Safe part n held =
      elim (Bool-cases (member part.tool_name config.codex_custom_tool_names)) [
        | inl e ↦ rw e (
            calls_with n PartKind.custom_tool_call part.tool_call_id
              (custom_tool_call_started
                (record { item_key = here; call_id = part.tool_call_id; name = part.tool_name }))
              (message_delta here []) [] refl refl refl held)
        | inr e ↦ rw e (
            calls_with n PartKind.function_call part.tool_call_id
              (function_call_started
                (started_function config here part.tool_call_id part.tool_name))
              (function_call_arguments_delta here part.args_as_json_str) part.args_as_json_str refl
              refl refl held)
      ]

  start_tool_as-Safe :
      (ref : Option McpToolRef) (part : ToolCallPart) (n : Normalizer)
      → all_known config config.builtin_tool_names ≡ true
      → Held n shapes opened
      → Safe
          (put_index shapes i tool_shape)
          opened
          (start_tool_as config ref here part (put_call part.tool_call_id here (begin i n)))
  unfolding start_tool_as start_mcp
  start_tool_as-Safe (some ref) part n known held =
      calls_with n PartKind.mcp_call part.tool_call_id
        (mcp_call_started (record {
          item_key = here;
          server_label = ref.server_label;
          name = ref.tool_name;
          initial_arguments_json = [];
          mode = ref.mode;
        }))
        (mcp_call_arguments_delta here part.args_as_json_str) part.args_as_json_str refl refl refl
        held
  start_tool_as-Safe none part n known held =
      elim (Bool-cases (member part.tool_name config.builtin_tool_names)) [
        | inl e ↦ rw e (
            start_builtin-Safe part n
              (known_of_member config config.builtin_tool_names part.tool_name known e) held)
        | inr e ↦ rw e (start_function-Safe part n held)
      ]

  pub on_part_start-Safe :
      (part : Part) (n : Normalizer)
      → all_known config config.builtin_tool_names ≡ true
      → Held n shapes opened
      → Safe (put_index shapes i (shape_of part)) opened (on_part_start config i part n)
  unfolding on_part_start start_part start_thinking start_tool_call
  on_part_start-Safe (text_part content) n known held = start_text-Safe content n held
  on_part_start-Safe (thinking_part content details) n known held =
      start_thinking_as-Safe (extract_raw_reasoning_content details) content n held
  on_part_start-Safe (tool_call_part part) n known held =
      start_tool_as-Safe (Dict.get config.mcp_tool_name_map part.tool_name) part n known held
  on_part_start-Safe other_part n known held =
      nothing_yielded (put_index shapes i other_shape) opened (begin i n)
        (Held-put_index n shapes opened i other_shape held tt)
