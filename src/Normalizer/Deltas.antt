-- ===== src/Normalizer/Deltas.antt =====
-- `_on_part_delta`: a part of the model's response goes on.
use vllm_responses.Prelude.{ℕ, Text, Option, none, some, List, [], ◌∷◌, ◌++◌, codes}
use vllm_responses.Prelude.Dict
use vllm_responses.CodeArgs.{new_extractor}
use vllm_responses.Events.{
  message_delta, reasoning_delta, mcp_call_arguments_delta, function_call_arguments_delta,
}
use vllm_responses.Normalizer.State.{
  Normalizer, Codec, PartDelta, DetailsDelta, ArgsDelta, ToolCallPartDelta, PartKind, Handled,
  text_delta, thinking_delta, tool_call_delta, fragment, arguments, yields, get_index, unless_empty,
  feed_extractor,
}
use vllm_responses.Normalizer.Reasoning.{
  apply_reasoning_provider_details_delta, diff_raw_reasoning_text,
}
use vllm_responses.Normalizer.Starts.{put_buffer, put_raw}

-- `d.get(key, default)`
abbrev pub or_else {ℓ} : {A : Type ℓ} → Option A → A → A
or_else none default = default
or_else (some a) default = a

-- `setdefault(item_key, []).append(delta)`, unless the delta is empty
unfoldable pub buffer_text : Text → Text → Normalizer → Normalizer
buffer_text key [] n = n
buffer_text key (c ∷ s) n =
    put_buffer key (or_else (Dict.get n.text_part_buffers key) [] ++ (c ∷ s) ∷ []) n

unfoldable pub text_delta_as : Option PartKind → Text → Text → Normalizer → Handled
unfolding buffer_text
text_delta_as (some PartKind.text_tool_call_probe) key delta n = yields (buffer_text key delta n) []
text_delta_as _ key delta n = yields n (unless_empty delta (message_delta key delta))

unfoldable pub on_text_delta : Text → Text → Normalizer → Handled
unfolding text_delta_as
on_text_delta key delta n = text_delta_as (Dict.get n.item_kind key) key delta n

-- The updated raw reasoning, if there is one, before the content
unfoldable pub thinking_delta_as : Option (List Text) → Text → Option Text → Normalizer → Handled
unfolding diff_raw_reasoning_text
thinking_delta_as (some raw) key content n =
    let previous = or_else (Dict.get n.reasoning_raw_content key) [] in
    let delta = diff_raw_reasoning_text previous raw in
    yields (put_raw key raw n) (unless_empty delta (reasoning_delta key delta))
thinking_delta_as none key content n =
    let delta = or_else content [] in yields n (unless_empty delta (reasoning_delta key delta))

unfoldable pub on_thinking_delta : Text → Option Text → Option DetailsDelta → Normalizer → Handled
unfolding apply_reasoning_provider_details_delta thinking_delta_as
on_thinking_delta key content details n =
    let existing = Dict.get n.reasoning_raw_content key in
    thinking_delta_as (apply_reasoning_provider_details_delta existing details) key content n

-- The item of the call id, else the item of the part
unfoldable pub tool_item_key : Text → Option Text → Normalizer → Text
tool_item_key key none n = key
tool_item_key key (some call_id) n = or_else (Dict.get n.tool_call_id_to_item_key call_id) key

module _ (codec : Codec) where
  -- `args_delta if isinstance(args_delta, str) else _json_dumps(args_delta)`
  unfoldable pub raw_args : ArgsDelta → Text
  raw_args (fragment text) = text
  raw_args (arguments fields) = codec.json.dumps fields

  unfoldable pub on_args_delta : Text → Option PartKind → ArgsDelta → Normalizer → Handled
  unfolding raw_args feed_extractor
  on_args_delta key (some PartKind.code_interpreter_call) delta n =
      feed_extractor key
        (or_else (Dict.get n.code_arg_extractors key) (new_extractor (codes "code")))
        (raw_args delta) n
  on_args_delta key (some PartKind.mcp_call) delta n =
      yields n (mcp_call_arguments_delta key (raw_args delta) ∷ [])
  on_args_delta key (some PartKind.web_search_call) delta n = yields n []
  on_args_delta key (some PartKind.custom_tool_call) delta n = yields n []
  on_args_delta key _ delta n = yields n (function_call_arguments_delta key (raw_args delta) ∷ [])

  -- Without arguments nothing is yielded, whatever the kind.
  unfoldable pub args_delta_for : Text → Option ArgsDelta → Normalizer → Handled
  unfolding on_args_delta
  args_delta_for key none n = yields n []
  args_delta_for key (some args) n = on_args_delta key (Dict.get n.item_kind key) args n

  unfoldable pub on_tool_call_delta : Text → ToolCallPartDelta → Normalizer → Handled
  unfolding tool_item_key args_delta_for
  on_tool_call_delta part_key delta n =
      args_delta_for (tool_item_key part_key delta.tool_call_id n) delta.args_delta n

  unfoldable pub delta_of : Text → PartDelta → Normalizer → Handled
  unfolding on_text_delta on_thinking_delta on_tool_call_delta
  delta_of key (text_delta content) n = on_text_delta key content n
  delta_of key (thinking_delta content details) n = on_thinking_delta key content details n
  delta_of key (tool_call_delta delta) n = on_tool_call_delta key delta n

  -- A delta of a part that never began is passed over.
  unfoldable pub delta_at : Option Text → PartDelta → Normalizer → Handled
  unfolding delta_of
  delta_at none delta n = yields n []
  delta_at (some key) delta n = delta_of key delta n

  unfoldable pub on_part_delta : ℕ → PartDelta → Normalizer → Handled
  unfolding delta_at
  on_part_delta index delta n = delta_at (get_index n.index_to_item_key index) delta n
