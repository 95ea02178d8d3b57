-- ===== src/Composer/WebSearch.antt =====
-- The web search handlers of `ResponseComposer`.
use vllm_responses.Prelude.{
  Text, Bool, ◌&&◌, not, Option, none, some, List, [], ◌∷◌, codes, is_empty, if◌then◌else◌,
}
use vllm_responses.Prelude.Dict.{Dict}
use vllm_responses.Events
use vllm_responses.Events.{WebSearchCallCompleted, WebSearchActionType}
use vllm_responses.Items.{Output, WebSearchAction, WebSearchSource, in_progress, completed}
use vllm_responses.Stream.{
  stream_text, output_item, output_item_added, output_item_done, text_event, web_search_in_progress,
  web_search_searching, web_search_completed,
}
use vllm_responses.Composer.State.{
  Environment, Action, ItemKind, new_item_state, ◌>>=◌, ◌>>◌, gets, from_option, validation_error,
  emit, alloc_output_index, uuid7_str, store_item, touch, append_output, or_empty,
}
use vllm_responses.Composer.CodeInterpreter.{or_none}

unfoldable pub start_web_search_call : Environment → Text → Action (Unit {0})
unfolding uuid7_str alloc_output_index store_item emit
start_web_search_call env key = do
  id ← uuid7_str env (codes "ws_")
  index ← alloc_output_index
  store_item key (new_item_state id index ItemKind.web_search_call)
  emit (λ n.
      output_item output_item_added n index
        (Output.web_search_call (record { action = none; id = id; status = in_progress })))
  emit (λ n. text_event (stream_text web_search_in_progress id index n))

unfoldable pub web_search_searching_handler : Text → Action (Unit {0})
unfolding touch emit
web_search_searching_handler key = do
  st ← touch key (λ st. st)
  emit (λ n. text_event (stream_text web_search_searching st.item_id st.output_index n))

-- The list of validated sources; the first that does not validate raises.
unfoldable pub validate_all :
    (Dict Text → Option WebSearchSource) → List (Dict Text) → Option (List WebSearchSource)
validate_all validate [] = some []
validate_all validate (d ∷ ds) = elim (validate d) [
  | none ↦ none
  | some source ↦ elim (validate_all validate ds) [
    | none ↦ none
    | some sources ↦ some (source ∷ sources)
  ]
]

-- The sources of the action: left out unless they are asked for and there are some.
unfoldable pub action_sources :
    Environment → Bool → List (Dict Text) → Option (Option (List WebSearchSource))
unfolding validate_all
action_sources env included sources =
    if included && not (is_empty sources)
    then elim (validate_all env.validate_source sources) [
      | none ↦ none
      | some validated ↦ some (some validated)
    ]
    else some none

unfoldable pub item_action :
    Environment → Bool → WebSearchActionType → WebSearchCallCompleted → Option WebSearchAction
unfolding action_sources
item_action env included Events.search event = elim (action_sources env included event.sources) [
  | none ↦ none
  | some sources ↦
      some (WebSearchAction.search (or_empty event.query) (or_none event.queries) sources)
]
item_action env included Events.open_page event = some (WebSearchAction.open_page event.url)
item_action env included Events.find_in_page event =
    some (WebSearchAction.find_in_page event.url (or_empty event.pattern_text))

unfoldable pub web_search_completed_handler :
    Environment → WebSearchCallCompleted → Action (Unit {0})
unfolding touch emit gets from_option append_output
web_search_completed_handler env event = do
  st ← touch event.item_key (λ st. record st {
    web_search_action_type = some event.action_type;
    web_search_query = event.query;
    web_search_queries = event.queries;
    web_search_sources = event.sources;
    web_search_url = event.url;
    web_search_pattern = event.pattern_text;
  })
  emit (λ n. text_event (stream_text web_search_completed st.item_id st.output_index n))
  included ← gets (λ s. s.include_web_search_action_sources)
  action ← from_option validation_error (item_action env included event.action_type event)
  let item =
      Output.web_search_call (record { action = some action; id = st.item_id; status = completed })
  emit (λ n. output_item output_item_done n st.output_index item)
  append_output item
