-- ===== src/Composer/Reasoning.antt =====
-- The reasoning handlers of `ResponseComposer`: all segments go to one reasoning item, which is
-- put into the output when it starts and changed there when a segment is done.
use vllm_responses.Prelude.{
  ℕ, Text, Bool, true, false, Option, none, some, List, [], ◌∷◌, ◌++◌, codes, is_empty, length,
  text_eq, if◌then◌else◌,
}
use vllm_responses.Prelude.Dict
use vllm_responses.Prelude.Result.{ok}
use vllm_responses.Items.{ReasoningItem, Output}
use vllm_responses.Stream.{
  stream_text, TextEventType, output_item, output_item_added, output_item_done, text_event,
  reasoning_text_delta, reasoning_text_done,
}
use vllm_responses.Composer.State.{
  Environment, ReasoningEventFormat, openai, openresponses, Action, ItemState, ItemKind,
  new_item_state, missing_reasoning_state, ◌>>=◌, ◌>>◌, pure, from_option, gets, emit,
  alloc_output_index, uuid7_str, touch, append_output,
}

unfoldable pub reasoning_delta_event_type : ReasoningEventFormat → TextEventType
reasoning_delta_event_type openresponses = TextEventType.reasoning_delta
reasoning_delta_event_type openai = reasoning_text_delta

unfoldable pub reasoning_done_event_type : ReasoningEventFormat → TextEventType
reasoning_done_event_type openresponses = TextEventType.reasoning_done
reasoning_done_event_type openai = reasoning_text_done

-- `self._items[key] = self._reasoning_state`
unfoldable pub share_place : Text → ℕ → Action (Unit {0})
share_place key place s = record {
  state = record s { items = Dict.put s.items key place };
  events = [];
  result = ok tt;
}

-- The new state, under its key and as the reasoning state.
unfoldable pub store_reasoning : Text → ItemState → Action (Unit {0})
store_reasoning key st s = record {
  state = record s {
    states = s.states ++ st ∷ [];
    items = Dict.put s.items key (length s.states);
    reasoning_state = some (length s.states);
  };
  events = [];
  result = ok tt;
}

unfoldable pub set_reasoning_item : ReasoningItem → Action (Unit {0})
set_reasoning_item item s = record {
  state = record s { reasoning_item = some item };
  events = [];
  result = ok tt;
}

unfoldable pub create_reasoning : Environment → Text → Action (Unit {0})
unfolding uuid7_str alloc_output_index set_reasoning_item append_output store_reasoning emit
create_reasoning env key = do
  id ← uuid7_str env (codes "rs_")
  index ← alloc_output_index
  let item : ReasoningItem = record { id = id; summary = []; content = [] }
  set_reasoning_item item
  append_output (Output.reasoning item)
  store_reasoning key (new_item_state id index ItemKind.reasoning)
  emit (λ n. output_item output_item_added n index (Output.reasoning item))

unfoldable pub share_reasoning : Text → Action (Unit {0})
unfolding gets from_option share_place
share_reasoning key = do
  shared ← gets (λ s. s.reasoning_state)
  place ← from_option missing_reasoning_state shared
  share_place key place

unfoldable pub start_reasoning_at : Environment → Text → Option ReasoningItem → Action (Unit {0})
unfolding create_reasoning share_reasoning
start_reasoning_at env key none = create_reasoning env key
start_reasoning_at env key (some item) = share_reasoning key

unfoldable pub start_reasoning : Environment → Text → Action (Unit {0})
unfolding start_reasoning_at
start_reasoning env key s = start_reasoning_at env key s.reasoning_item s

unfoldable pub reasoning_delta : Text → Text → Action (Unit {0})
unfolding touch emit gets
reasoning_delta key delta = do
  st ← touch key (λ st. record st { reasoning = st.reasoning ++ delta })
  format ← gets (λ s. s.reasoning_event_format)
  emit (λ n.
      text_event
        (record (stream_text (reasoning_delta_event_type format) st.item_id st.output_index n) {
          delta = some delta;
        }))

-- `item.summary = []`, and the text appended if there is any.
unfoldable pub add_reasoning_text : Text → ReasoningItem → ReasoningItem
add_reasoning_text text item = record item {
  summary = [];
  content = if is_empty text then item.content else item.content ++ record { text = text } ∷ [];
}

-- The loop over the output items, up to the first reasoning item of that id.
unfoldable pub finish_reasoning : Text → Text → List Output → List Output × Option ReasoningItem
unfolding add_reasoning_text
finish_reasoning id text [] = ([], none)
finish_reasoning id text (Output.reasoning item ∷ rest) =
    let (rest', found) = finish_reasoning id text rest in
    if text_eq item.id id
    then (
      Output.reasoning (add_reasoning_text text item) ∷ rest,
      some (add_reasoning_text text item),
    )
    else (Output.reasoning item ∷ rest', found)
finish_reasoning id text (o ∷ rest) =
    let (rest', found) = finish_reasoning id text rest in (o ∷ rest', found)

-- The object that is changed in the output is the one that `_reasoning_item` names.
abbrev pub changed_item : Option ReasoningItem → Option ReasoningItem → Option ReasoningItem
changed_item none found = none
changed_item (some item) none = some item
changed_item (some item) (some changed) = some changed

unfoldable pub change_reasoning_item : Text → Text → Action (Option ReasoningItem)
change_reasoning_item id text s =
    let (outputs, found) = finish_reasoning id text s.output_items in
    record {
      state = record s {
        output_items = outputs;
        reasoning_item = changed_item s.reasoning_item found;
      };
      events = [];
      result = ok found;
    }

unfoldable pub mark_reasoning_done : Action (Unit {0})
mark_reasoning_done s = record {
  state = record s { reasoning_item_done_emitted = true };
  events = [];
  result = ok tt;
}

unfoldable pub emit_reasoning_done : ItemState → Option ReasoningItem → Bool → Action (Unit {0})
unfolding pure mark_reasoning_done emit
emit_reasoning_done st (some item) false = do
  mark_reasoning_done
  emit (λ n. output_item output_item_done n st.output_index (Output.reasoning item))
emit_reasoning_done st _ _ = pure tt

unfoldable pub reasoning_done : Text → Text → Action (Unit {0})
unfolding touch emit gets change_reasoning_item emit_reasoning_done
reasoning_done key text = do
  st ← touch key (λ st. record st { reasoning = text })
  format ← gets (λ s. s.reasoning_event_format)
  emit (λ n.
      text_event
        (record (stream_text (reasoning_done_event_type format) st.item_id st.output_index n) {
          text = some text;
        }))
  found ← change_reasoning_item st.item_id text
  emitted ← gets (λ s. s.reasoning_item_done_emitted)
  emit_reasoning_done st found emitted
