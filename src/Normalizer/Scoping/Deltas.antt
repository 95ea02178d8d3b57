-- ===== src/Normalizer/Scoping/Deltas.antt =====
-- Parts that go on.
use vllm_responses.Prelude.{
  ℕ, Text, ◌≡◌, refl, sym, ap, ◌∙◌, inl, inr, Bool, true, false, Option, none, some, List, [], ◌∷◌,
  codes, Option-cases,
}
use vllm_responses.Prelude.Dict
use vllm_responses.CodeArgs.{new_extractor}
use vllm_responses.CodeArgs.Total.{IsSound}
use vllm_responses.Events.{
  message_delta, reasoning_delta, mcp_call_arguments_delta, function_call_arguments_delta,
}
use vllm_responses.Normalizer.State.{
  Normalizer, Codec, PartDelta, ArgsDelta, PartKind, text_delta, thinking_delta, tool_call_delta,
  get_index,
}
use vllm_responses.Normalizer.Reasoning.{
  apply_reasoning_provider_details_delta, diff_raw_reasoning_text,
}
use vllm_responses.Normalizer.Starts.{put_raw, item_key_of}
use vllm_responses.Normalizer.Deltas.{
  or_else, buffer_text, text_delta_as, on_text_delta, thinking_delta_as, on_thinking_delta,
  tool_item_key, raw_args, on_args_delta, args_delta_for, on_tool_call_delta, delta_of, delta_at,
  on_part_delta,
}
use vllm_responses.Normalizer.Shapes.{Shapes, text_shape, shape_of_delta, is_shape, eq_of_is_shape}
use vllm_responses.Normalizer.Held.{Held, HeldPart, Safe, IsOpen}
use vllm_responses.Normalizer.Scoping.{
  nothing_yielded, yielded_follow, yielded_text, feed_extractor-Safe,
}

abbrev pub is_probe : Option PartKind → Bool
is_probe (some PartKind.text_tool_call_probe) = true
is_probe _ = false

module _ (shapes : Shapes) (opened : List Text) where
  buffer_text-Held :
      (key delta : Text) (n : Normalizer)
      → Held n shapes opened
      → Held (buffer_text key delta n) shapes opened
  unfolding buffer_text
  buffer_text-Held key [] n held = held
  buffer_text-Held key (c ∷ s) n held = record {
    calls = held.calls;
    parts = held.parts;
    extractors = held.extractors;
  }

  -- A text whose kind is not that of a probe belongs to an open item.
  pub opened_text :
      (kinds : Dict.Dict PartKind) (key : Text) (k : Option PartKind)
      → Dict.get kinds key ≡ k
      → is_probe k ≡ false
      → HeldPart kinds opened key text_shape
      → IsOpen opened key
  opened_text kinds key k e not_probe (inr o) = o
  opened_text kinds key k e not_probe (inl p) = let probe = ap is_probe (sym e ∙ p) in cc

  text_delta_as-Safe :
      (k : Option PartKind) (key delta : Text) (n : Normalizer)
      → Dict.get n.item_kind key ≡ k
      → HeldPart n.item_kind opened key text_shape
      → Held n shapes opened
      → Safe shapes opened (text_delta_as k key delta n)
  unfolding text_delta_as
  text_delta_as-Safe (some PartKind.text_tool_call_probe) key delta n e part held =
      nothing_yielded shapes opened (buffer_text key delta n) (buffer_text-Held key delta n held)
  text_delta_as-Safe k key delta n e part held =
      yielded_text shapes opened n delta (message_delta key delta)
        (opened_text n.item_kind key k e refl part) held

  thinking_delta_as-Safe :
      (raw : Option (List Text)) (key : Text) (content : Option Text) (n : Normalizer)
      → IsOpen opened key
      → Held n shapes opened
      → Safe shapes opened (thinking_delta_as raw key content n)
  unfolding thinking_delta_as
  thinking_delta_as-Safe (some raw) key content n o held =
      let delta = diff_raw_reasoning_text (or_else (Dict.get n.reasoning_raw_content key) []) raw in
      yielded_text shapes opened (put_raw key raw n) delta (reasoning_delta key delta) o
        (record { calls = held.calls; parts = held.parts; extractors = held.extractors })
  thinking_delta_as-Safe none key content n o held =
      let delta = or_else content [] in
      yielded_text shapes opened n delta (reasoning_delta key delta) o held

  tool_item_key-IsOpen :
      (key : Text) (call_id : Option Text) (n : Normalizer)
      → IsOpen opened key
      → Held n shapes opened
      → IsOpen opened (tool_item_key key call_id n)
  unfolding tool_item_key
  tool_item_key-IsOpen key none n o held = o
  tool_item_key-IsOpen key (some call_id) n o held =
      elim (Option-cases (Dict.get n.tool_call_id_to_item_key call_id)) [
        | inl e ↦ rw e o
        | inr (k, e) ↦ rw e (held.calls call_id k e)
      ]

  kept_extractor-IsSound :
      (key : Text) (n : Normalizer)
      → Held n shapes opened
      → IsSound (or_else (Dict.get n.code_arg_extractors key) (new_extractor (codes "code")))
  kept_extractor-IsSound key n held = elim (Option-cases (Dict.get n.code_arg_extractors key)) [
    | inl e ↦ rw e (inr (record { outside = refl; live = refl; exclusive = inl refl }))
    | inr (extractor, e) ↦ rw e (held.extractors key extractor e)
  ]

  on_args_delta-Safe :
      (codec : Codec) (key : Text) (k : Option PartKind) (delta : ArgsDelta) (n : Normalizer)
      → IsOpen opened key
      → Held n shapes opened
      → Safe shapes opened (on_args_delta codec key k delta n)
  unfolding on_args_delta
  on_args_delta-Safe codec key (some PartKind.code_interpreter_call) delta n o held =
      feed_extractor-Safe shapes opened key
        (or_else (Dict.get n.code_arg_extractors key) (new_extractor (codes "code")))
        (raw_args codec delta) n (kept_extractor-IsSound key n held) o held
  on_args_delta-Safe codec key (some PartKind.mcp_call) delta n o held =
      yielded_follow shapes opened n (mcp_call_arguments_delta key (raw_args codec delta)) o held
  on_args_delta-Safe codec key (some PartKind.web_search_call) delta n o held =
      nothing_yielded shapes opened n held
  on_args_delta-Safe codec key (some PartKind.custom_tool_call) delta n o held =
      nothing_yielded shapes opened n held
  on_args_delta-Safe codec key _ delta n o held =
      yielded_follow shapes opened n (function_call_arguments_delta key (raw_args codec delta)) o
        held

  args_delta_for-Safe :
      (codec : Codec) (key : Text) (delta : Option ArgsDelta) (n : Normalizer)
      → IsOpen opened key
      → Held n shapes opened
      → Safe shapes opened (args_delta_for codec key delta n)
  unfolding args_delta_for
  args_delta_for-Safe codec key none n o held = nothing_yielded shapes opened n held
  args_delta_for-Safe codec key (some args) n o held =
      on_args_delta-Safe codec key (Dict.get n.item_kind key) args n o held

  delta_of-Safe :
      (codec : Codec) (key : Text) (delta : PartDelta) (n : Normalizer)
      → HeldPart n.item_kind opened key (shape_of_delta delta)
      → Held n shapes opened
      → Safe shapes opened (delta_of codec key delta n)
  unfolding delta_of on_text_delta on_thinking_delta on_tool_call_delta
  delta_of-Safe codec key (text_delta content) n part held =
      text_delta_as-Safe (Dict.get n.item_kind key) key content n refl part held
  delta_of-Safe codec key (thinking_delta content details) n part held =
      thinking_delta_as-Safe
        (apply_reasoning_provider_details_delta (Dict.get n.reasoning_raw_content key) details) key
        content n part held
  delta_of-Safe codec key (tool_call_delta delta) n part held =
      args_delta_for-Safe codec (tool_item_key key delta.tool_call_id n) delta.args_delta n
        (tool_item_key-IsOpen key delta.tool_call_id n part held) held

  pub on_part_delta-Safe :
      (codec : Codec) (i : ℕ) (delta : PartDelta) (n : Normalizer)
      → is_shape (get_index shapes i) (shape_of_delta delta) ≡ true
      → Held n shapes opened
      → Safe shapes opened (on_part_delta codec i delta n)
  unfolding on_part_delta delta_at
  on_part_delta-Safe codec i delta n fit held =
      let s = shape_of_delta delta in
      let (index, part) = held.parts i s (eq_of_is_shape (get_index shapes i) s fit) in
      rw (index, delta_at) (delta_of-Safe codec (item_key_of i) delta n part held)
