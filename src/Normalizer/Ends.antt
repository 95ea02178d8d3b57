-- ===== src/Normalizer/Ends.antt =====
-- `_on_part_end`: a part of the model's response is whole.
use vllm_responses.Prelude.{
  ℕ, Text, Option, none, some, List, [], ◌∷◌, ◌++◌, codes, concat, member, if◌then◌else◌,
}
use vllm_responses.Prelude.Dict
use vllm_responses.Prelude.Result.{err}
use vllm_responses.Json.{Json, JsonObject, string, get_field}
use vllm_responses.Events.{
  message_started, message_delta, message_done, reasoning_done, custom_tool_call_started,
  custom_tool_call_done, function_call_started, function_call_done, mcp_call_arguments_done,
  code_interpreter_call_code_done, code_text, no_text,
}
use vllm_responses.Mcp.Results.{replace}
use vllm_responses.Normalizer.State.{
  Normalizer, Config, Codec, Part, ToolCallPart, PartKind, Handled, text_part, thinking_part,
  tool_call_part, other_part, invalid_arguments, yields, get_index, set_kind, unless_empty,
}
use vllm_responses.Normalizer.TextCalls.{
  ParsedTextToolCall, parse_text_tool_call, custom_tool_input_from_arguments,
}
use vllm_responses.Normalizer.Starts.{item_key_of, put_call, started_function}
use vllm_responses.Normalizer.Deltas.{or_else}

abbrev pub drop_buffer : Text → Normalizer → Normalizer
drop_buffer key n = record n { text_part_buffers = Dict.delete n.text_part_buffers key }

abbrev pub drop_raw : Text → Normalizer → Normalizer
drop_raw key n = record n { reasoning_raw_content = Dict.delete n.reasoning_raw_content key }

-- `"".join(buffered) if buffered else part.content`
abbrev pub buffered_or : Option (List Text) → Text → Text
buffered_or none content = content
buffered_or (some []) content = content
buffered_or (some (t ∷ ts)) content = concat (t ∷ ts)

abbrev pub raw_or : Option (List Text) → Text → Text
raw_or none content = content
raw_or (some raw) content = concat raw

-- `f"call_{item_key.replace(':', '_')}"`
abbrev pub recovered_call_id : Text → Text
recovered_call_id key = codes "call_" ++ replace (codes ":") (codes "_") key

module _ (config : Config) (codec : Codec) where
  -- The text was no tool call: the message that was held back.
  abbrev pub flush_message : Text → Text → Normalizer → Handled
  flush_message key text n = yields (set_kind key PartKind.message n) (
      message_started key ∷ unless_empty text (message_delta key text)
      ++ message_done key text ∷ [])

  unfoldable pub recover_call : Text → ParsedTextToolCall → Normalizer → Handled
  unfolding custom_tool_input_from_arguments started_function
  recover_call key parsed n =
      let call_id = recovered_call_id key in
      let n1 = put_call call_id key n in
      if member parsed.name config.codex_custom_tool_names
      then yields (set_kind key PartKind.custom_tool_call n1) (
          custom_tool_call_started
            (record { item_key = key; call_id = call_id; name = parsed.name })
          ∷ custom_tool_call_done key
              (custom_tool_input_from_arguments codec.json parsed.arguments_json)
          ∷ [])
      else yields (set_kind key PartKind.function_call n1) (
          function_call_started (started_function config key call_id parsed.name)
          ∷ function_call_done key parsed.arguments_json
          ∷ [])

  unfoldable pub end_probe_as : Option ParsedTextToolCall → Text → Text → Normalizer → Handled
  unfolding recover_call
  end_probe_as none key text n = flush_message key text n
  end_probe_as (some parsed) key text n = recover_call key parsed n

  unfoldable pub end_probe : Text → Text → Normalizer → Handled
  unfolding parse_text_tool_call end_probe_as
  end_probe key content n =
      let text = buffered_or (Dict.get n.text_part_buffers key) content in
      end_probe_as
        (parse_text_tool_call codec.json text config.text_tool_call_probe_names
          config.named_function_tool_choice)
        key text (drop_buffer key n)

  unfoldable pub end_text_as : Option PartKind → Text → Text → Normalizer → Handled
  unfolding end_probe
  end_text_as (some PartKind.text_tool_call_probe) key content n = end_probe key content n
  end_text_as _ key content n = yields n (message_done key content ∷ [])

  unfoldable pub end_text : Text → Text → Normalizer → Handled
  unfolding end_text_as
  end_text key content n = end_text_as (Dict.get n.item_kind key) key content n

  unfoldable pub end_thinking : Text → Text → Normalizer → Handled
  end_thinking key content n =
      yields (drop_raw key n)
        (reasoning_done key (raw_or (Dict.get n.reasoning_raw_content key) content) ∷ [])

  -- The code is handed on whatever it is: the composer's event validates it.
  unfoldable pub end_code_as : Text → Option Json → Normalizer → Handled
  end_code_as key none n = yields n (code_interpreter_call_code_done key none ∷ [])
  end_code_as key (some Json.null) n = yields n (code_interpreter_call_code_done key none ∷ [])
  end_code_as key (some (string code)) n =
      yields n (code_interpreter_call_code_done key (some (code_text code)) ∷ [])
  end_code_as key (some _) n = yields n (code_interpreter_call_code_done key (some no_text) ∷ [])

  -- `part.args_as_dict().get("code")`
  unfoldable pub end_code : Text → Option JsonObject → Normalizer → Handled
  unfolding end_code_as
  end_code key none n = (n, err invalid_arguments)
  end_code key (some fields) n = end_code_as key (get_field fields (codes "code")) n

  unfoldable pub end_call : Text → Option PartKind → ToolCallPart → Normalizer → Handled
  unfolding end_code custom_tool_input_from_arguments
  end_call key (some PartKind.code_interpreter_call) part n = end_code key part.args_as_dict n
  end_call key (some PartKind.web_search_call) part n = yields n []
  end_call key (some PartKind.mcp_call) part n =
      yields n (mcp_call_arguments_done key part.args_as_json_str ∷ [])
  end_call key (some PartKind.custom_tool_call) part n = yields n (
      custom_tool_call_done key (custom_tool_input_from_arguments codec.json part.args_as_json_str)
      ∷ [])
  end_call key _ part n = yields n (function_call_done key part.args_as_json_str ∷ [])

  unfoldable pub end_part : Text → Part → Normalizer → Handled
  unfolding end_text end_thinking end_call
  end_part key (text_part content) n = end_text key content n
  end_part key (thinking_part content details) n = end_thinking key content n
  end_part part_key (tool_call_part part) n =
      let key = or_else (Dict.get n.tool_call_id_to_item_key part.tool_call_id) part_key in
      end_call key (Dict.get n.item_kind key) part n
  end_part key other_part n = yields n []

  unfoldable pub on_part_end : ℕ → Part → Normalizer → Handled
  unfolding end_part
  on_part_end index part n =
      end_part (or_else (get_index n.index_to_item_key index) (item_key_of index)) part n
