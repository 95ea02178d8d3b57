-- ===== src/Stream.antt =====
-- The stream events of responses/python/vllm_responses/types/openai.py. An event holds its
-- objects as they are when it is yielded.
use vllm_responses.Prelude.{ℕ, Text, Option, none, List, [], ◌∷◌}
use vllm_responses.Items.{ResponsesResponse, Output, OutputTextContent}

pub data LifecycleType : Type 0 where
  response_created response_in_progress response_completed response_incomplete : LifecycleType

pub data ItemEventType : Type 0 where
  output_item_added output_item_done : ItemEventType

pub data PartEventType : Type 0 where
  content_part_added content_part_done : PartEventType

pub data TextEventType : Type 0 where
  output_text_delta output_text_done : TextEventType
  reasoning_text_delta reasoning_text_done reasoning_delta reasoning_done : TextEventType
  function_call_arguments_delta function_call_arguments_done : TextEventType
  code_call_in_progress code_call_interpreting code_call_completed : TextEventType
  code_call_code_delta code_call_code_done : TextEventType
  web_search_in_progress web_search_searching web_search_completed : TextEventType
  mcp_call_in_progress mcp_call_completed mcp_call_failed : TextEventType
  mcp_call_arguments_delta mcp_call_arguments_done : TextEventType

-- `OpenAIResponsesStreamText`; `content_index` is 0 in all of them.
pub record StreamText : Type 0 where
  pub kind : TextEventType
  pub item_id : Text
  pub sequence_number : ℕ
  pub output_index : ℕ
  pub delta : Option Text
  pub text : Option Text
  pub arguments : Option Text
  pub code : Option Text
  pub output : Option Text

abbrev pub stream_text : TextEventType → Text → ℕ → ℕ → StreamText
stream_text kind id index number = record {
  kind = kind;
  item_id = id;
  sequence_number = number;
  output_index = index;
  delta = none;
  text = none;
  arguments = none;
  code = none;
  output = none;
}

pub data StreamEvent : Type 0 where
  -- type, sequence number, response
  lifecycle : LifecycleType → ℕ → ResponsesResponse → StreamEvent
  -- type, sequence number, output index, item
  output_item : ItemEventType → ℕ → ℕ → Output → StreamEvent
  -- type, item id, sequence number, output index, part
  content_part : PartEventType → Text → ℕ → ℕ → OutputTextContent → StreamEvent
  text_event : StreamText → StreamEvent

unfoldable pub sequence_number : StreamEvent → ℕ
sequence_number (lifecycle t n r) = n
sequence_number (output_item t n i o) = n
sequence_number (content_part t id n i p) = n
sequence_number (text_event e) = e.sequence_number

-- The output indices of the items that the events announce, in order.
unfoldable pub added_indices : List StreamEvent → List ℕ
added_indices [] = []
added_indices (output_item output_item_added n i o ∷ es) = i ∷ added_indices es
added_indices (_ ∷ es) = added_indices es

-- The finished items, in order.
unfoldable pub done_items : List StreamEvent → List Output
done_items [] = []
done_items (output_item output_item_done n i o ∷ es) = o ∷ done_items es
done_items (_ ∷ es) = done_items es
