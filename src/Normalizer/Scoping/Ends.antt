-- ===== src/Normalizer/Scoping/Ends.antt =====
-- Parts that are whole.
use vllm_responses.Prelude.{
  ℕ, Text, ◌≡◌, refl, inl, inr, true, Option, none, some, List, [], ◌∷◌, member, codes, Bool-cases,
  Option-cases,
}
use vllm_responses.Prelude.Dict
use vllm_responses.Json.{Json, JsonObject, string, get_field}
use vllm_responses.Events.{
  NormalizedEvent, message_started, message_delta, message_done, reasoning_done,
  custom_tool_call_started, custom_tool_call_done, function_call_started, function_call_done,
  mcp_call_arguments_done, code_interpreter_call_code_done, code_text, no_text,
}
use vllm_responses.Events.Scopes.{opens, follows}
use vllm_responses.Normalizer.State.{
  Normalizer, Config, Codec, Part, ToolCallPart, PartKind, text_part, thinking_part, tool_call_part,
  other_part, yields, get_index, set_kind,
}
use vllm_responses.Normalizer.TextCalls.{
  ParsedTextToolCall, parse_text_tool_call, custom_tool_input_from_arguments,
}
use vllm_responses.Normalizer.Starts.{item_key_of, put_call, started_function}
use vllm_responses.Normalizer.Deltas.{or_else}
use vllm_responses.Normalizer.Ends.{
  drop_buffer, drop_raw, buffered_or, raw_or, recovered_call_id, flush_message, recover_call,
  end_probe_as, end_probe, end_text_as, end_text, end_thinking, end_code_as, end_code, end_call,
  end_part, on_part_end,
}
use vllm_responses.Normalizer.Shapes.{Shapes, text_shape, shape_of, is_shape, eq_of_is_shape}
use vllm_responses.Normalizer.Held.{
  Held, HeldPart, Safe, IsOpen, member_refl, Held-with_key, Held-set_kind, Held-put_call,
}
use vllm_responses.Normalizer.Scoping.{nothing_yielded, yielded_first, yielded_follow}
use vllm_responses.Normalizer.Scoping.Deltas.{opened_text}

module _ (config : Config) (codec : Codec) (shapes : Shapes) (opened : List Text) where
  -- The item of the part is opened, of this kind.
  opened_now :
      (key : Text) (k : PartKind) (n : Normalizer)
      → Held n shapes opened
      → Held (set_kind key k n) shapes (key ∷ opened)
  opened_now key k n held =
      Held-set_kind n shapes (key ∷ opened) key k (inr (member_refl key opened))
        (Held-with_key n shapes opened (some key) held)

  flush_message-Safe :
      (key text : Text) (n : Normalizer)
      → Held n shapes opened
      → Safe shapes opened (flush_message config codec key text n)
  flush_message-Safe key [] n held =
      let n1 = set_kind key PartKind.message n in
      yielded_first shapes opened (message_started key) (yields n1 (message_done key [] ∷ [])) refl
        (yielded_follow shapes (key ∷ opened) n1 (message_done key []) (member_refl key opened)
          (opened_now key PartKind.message n held))
  flush_message-Safe key (c ∷ s) n held =
      let n1 = set_kind key PartKind.message n in
      let o = member_refl key opened in
      yielded_first shapes opened (message_started key)
        (yields n1 (message_delta key (c ∷ s) ∷ message_done key (c ∷ s) ∷ [])) refl
        (yielded_first shapes (key ∷ opened) (message_delta key (c ∷ s))
          (yields n1 (message_done key (c ∷ s) ∷ [])) o
          (yielded_follow shapes (key ∷ opened) n1 (message_done key (c ∷ s)) o
            (opened_now key PartKind.message n held)))

  -- A call that is recovered from the text: it is opened and is done.
  recovered :
      (key call_id : Text) (k : PartKind) (n : Normalizer) (event next : NormalizedEvent)
      → opens event ≡ some key
      → follows event ≡ none
      → follows next ≡ some key
      → Held n shapes opened
      → Safe shapes opened (yields (set_kind key k (put_call call_id key n)) (event ∷ next ∷ []))
  recovered key call_id k n event next e f g held =
      let o = member_refl key opened in
      let n1 = set_kind key k (put_call call_id key n) in
      yielded_first shapes opened event (yields n1 (next ∷ [])) (rw f) (
        rw e (
          yielded_follow shapes (key ∷ opened) n1 next (rw g o) (
            Held-put_call (set_kind key k n) shapes (key ∷ opened) call_id key o
              (opened_now key k n held))))

  recover_call-Safe :
      (key : Text) (parsed : ParsedTextToolCall) (n : Normalizer)
      → Held n shapes opened
      → Safe shapes opened (recover_call config codec key parsed n)
  unfolding recover_call started_function
  recover_call-Safe key parsed n held =
      let call_id = recovered_call_id key in
      elim (Bool-cases (member parsed.name config.codex_custom_tool_names)) [
        | inl e ↦ rw e (
            recovered key call_id PartKind.custom_tool_call n
              (custom_tool_call_started
                (record { item_key = key; call_id = call_id; name = parsed.name }))
              (custom_tool_call_done key
                (custom_tool_input_from_arguments codec.json parsed.arguments_json))
              refl refl refl held)
        | inr e ↦ rw e (
            recovered key call_id PartKind.function_call n
              (function_call_started (started_function config key call_id parsed.name))
              (function_call_done key parsed.arguments_json) refl refl refl held)
      ]

  end_probe_as-Safe :
      (parsed : Option ParsedTextToolCall) (key text : Text) (n : Normalizer)
      → Held n shapes opened
      → Safe shapes opened (end_probe_as config codec parsed key text n)
  unfolding end_probe_as
  end_probe_as-Safe none key text n held = flush_message-Safe key text n held
  end_probe_as-Safe (some parsed) key text n held = recover_call-Safe key parsed n held

  drop_buffer-Held :
      (key : Text) (n : Normalizer) → Held n shapes opened → Held (drop_buffer key n) shapes opened
  drop_buffer-Held key n held = record {
    calls = held.calls;
    parts = held.parts;
    extractors = held.extractors;
  }

  end_text_as-Safe :
      (k : Option PartKind) (key content : Text) (n : Normalizer)
      → Dict.get n.item_kind key ≡ k
      → HeldPart n.item_kind opened key text_shape
      → Held n shapes opened
      → Safe shapes opened (end_text_as config codec k key content n)
  unfolding end_text_as end_probe
  end_text_as-Safe (some PartKind.text_tool_call_probe) key content n e part held =
      let text = buffered_or (Dict.get n.text_part_buffers key) content in
      end_probe_as-Safe
        (parse_text_tool_call codec.json text config.text_tool_call_probe_names
          config.named_function_tool_choice)
        key text (drop_buffer key n) (drop_buffer-Held key n held)
  end_text_as-Safe k key content n e part held =
      yielded_follow shapes opened n (message_done key content)
        (opened_text shapes opened n.item_kind key k e refl part) held

  end_thinking-Safe :
      (key content : Text) (n : Normalizer)
      → IsOpen opened key
      → Held n shapes opened
      → Safe shapes opened (end_thinking config codec key content n)
  unfolding end_thinking
  end_thinking-Safe key content n o held =
      yielded_follow shapes opened (drop_raw key n)
        (reasoning_done key (raw_or (Dict.get n.reasoning_raw_content key) content)) o
        (record { calls = held.calls; parts = held.parts; extractors = held.extractors })

  end_code_as-Safe :
      (key : Text) (value : Option Json) (n : Normalizer)
      → IsOpen opened key
      → Held n shapes opened
      → Safe shapes opened (end_code_as config codec key value n)
  unfolding end_code_as
  end_code_as-Safe key none n o held =
      yielded_follow shapes opened n (code_interpreter_call_code_done key none) o held
  end_code_as-Safe key (some Json.null) n o held =
      yielded_follow shapes opened n (code_interpreter_call_code_done key none) o held
  end_code_as-Safe key (some (string code)) n o held =
      yielded_follow shapes opened n (code_interpreter_call_code_done key (some (code_text code))) o
        held
  end_code_as-Safe key (some _) n o held =
      yielded_follow shapes opened n (code_interpreter_call_code_done key (some no_text)) o held

  end_code-Safe :
      (key : Text) (fields : Option JsonObject) (n : Normalizer)
      → IsOpen opened key
      → Held n shapes opened
      → Safe shapes opened (end_code config codec key fields n)
  unfolding end_code
  end_code-Safe key none n o held = refl
  end_code-Safe key (some fields) n o held =
      end_code_as-Safe key (get_field fields (codes "code")) n o held

  end_call-Safe :
      (key : Text) (k : Option PartKind) (part : ToolCallPart) (n : Normalizer)
      → IsOpen opened key
      → Held n shapes opened
      → Safe shapes opened (end_call config codec key k part n)
  unfolding end_call
  end_call-Safe key (some PartKind.code_interpreter_call) part n o held =
      end_code-Safe key part.args_as_dict n o held
  end_call-Safe key (some PartKind.web_search_call) part n o held =
      nothing_yielded shapes opened n held
  end_call-Safe key (some PartKind.mcp_call) part n o held =
      yielded_follow shapes opened n (mcp_call_arguments_done key part.args_as_json_str) o held
  end_call-Safe key (some PartKind.custom_tool_call) part n o held =
      yielded_follow shapes opened n
        (custom_tool_call_done key
          (custom_tool_input_from_arguments codec.json part.args_as_json_str))
        o held
  end_call-Safe key _ part n o held =
      yielded_follow shapes opened n (function_call_done key part.args_as_json_str) o held

  called-IsOpen :
      (key call_id : Text) (n : Normalizer)
      → IsOpen opened key
      → Held n shapes opened
      → IsOpen opened (or_else (Dict.get n.tool_call_id_to_item_key call_id) key)
  called-IsOpen key call_id n o held =
      elim (Option-cases (Dict.get n.tool_call_id_to_item_key call_id)) [
        | inl e ↦ rw e o
        | inr (k, e) ↦ rw e (held.calls call_id k e)
      ]

  end_part-Safe :
      (key : Text) (part : Part) (n : Normalizer)
      → HeldPart n.item_kind opened key (shape_of part)
      → Held n shapes opened
      → Safe shapes opened (end_part config codec key part n)
  unfolding end_part end_text
  end_part-Safe key (text_part content) n p held =
      end_text_as-Safe (Dict.get n.item_kind key) key content n refl p held
  end_part-Safe key (thinking_part content details) n p held =
      end_thinking-Safe key content n p held
  end_part-Safe key (tool_call_part part) n p held =
      let call_key = or_else (Dict.get n.tool_call_id_to_item_key part.tool_call_id) key in
      end_call-Safe call_key (Dict.get n.item_kind call_key) part n
        (called-IsOpen key part.tool_call_id n p held) held
  end_part-Safe key other_part n p held = nothing_yielded shapes opened n held

  pub on_part_end-Safe :
      (i : ℕ) (part : Part) (n : Normalizer)
      → is_shape (get_index shapes i) (shape_of part) ≡ true
      → Held n shapes opened
      → Safe shapes opened (on_part_end config codec i part n)
  unfolding on_part_end
  on_part_end-Safe i part n fit held =
      let s = shape_of part in
      let (index, p) = held.parts i s (eq_of_is_shape (get_index shapes i) s fit) in
      rw index (end_part-Safe (item_key_of i) part n p held)
