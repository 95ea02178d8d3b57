-- ===== src/Normalizer/Scoping/Outcomes.antt =====
-- Tools that are called, and their results.
use vllm_responses.Prelude.{
  Text, ◌≡◌, refl, ap, inl, inr, Option, none, some, List, [], ◌∷◌, text_eq, Bool-cases,
  Option-cases,
}
use vllm_responses.Prelude.Dict
use vllm_responses.Prelude.Result.{Result, ok, err}
use vllm_responses.Json.{Json, object}
use vllm_responses.Events.{
  NormalizedEvent, code_interpreter_call_completed, code_interpreter_call_interpreting,
  web_search_call_searching,
}
use vllm_responses.Events.Scopes.{follows}
use vllm_responses.Mcp.{McpToolRef, McpExecutionResult}
use vllm_responses.Mcp.Results.{parse_mcp_tool_result_payload}
use vllm_responses.Normalizer.State.{
  Normalizer, Config, Codec, PartKind, ToolResult, WebSearchActionPublic, tool_return, retry_prompt,
  yields,
}
use vllm_responses.Normalizer.Starts.{web_search_tool}
use vllm_responses.Normalizer.Outcomes.{
  event_for, completed_search, result_raw_text, result_tool_name, is_tool,
  parse_code_interpreter_tool_output, search_result_as, output_as, mcp_result_as,
  on_web_search_tool_result, is_expected, mcp_outcome, mcp_tool_result, on_tool_result,
  tool_result_as, tool_result_for, on_function_tool_result, on_function_tool_call,
}
use vllm_responses.Normalizer.Shapes.{Shapes}
use vllm_responses.Normalizer.Held.{Held, Safe, IsOpen}
use vllm_responses.Normalizer.Scoping.{nothing_yielded, yielded_follow}

completed_search-follows :
    (key : Text) (action : WebSearchActionPublic) → follows (completed_search key action) ≡ some key
completed_search-follows key (WebSearchActionPublic.search query queries sources) = refl
completed_search-follows key (WebSearchActionPublic.open_page url) = refl
completed_search-follows key (WebSearchActionPublic.find_in_page url pattern_text) = refl

module _ (codec : Codec) (config : Config) where
  output_as-item_key :
      (key raw : Text) (value : Option Json) → (output_as codec key raw value).item_key ≡ key
  unfolding output_as
  output_as-item_key key raw none = refl
  output_as-item_key key raw (some (object fields)) = refl
  output_as-item_key key raw (some _) = refl

  output_key :
      (key : Text) (raw : Option Text)
      → (parse_code_interpreter_tool_output codec key raw).item_key ≡ key
  unfolding parse_code_interpreter_tool_output
  output_key key none = refl
  output_key key (some []) = refl
  output_key key (some (c ∷ s)) = output_as-item_key key (c ∷ s) (codec.json.loads (c ∷ s))

  mcp_outcome-follows :
      (key tool_name : Text) (ref : McpToolRef) (result : McpExecutionResult)
      → follows (mcp_outcome codec config key tool_name ref result) ≡ some key
  unfolding mcp_outcome
  mcp_outcome-follows key tool_name ref result =
      elim (Bool-cases (is_expected codec config tool_name ref)) [
        | inl e ↦ elim (Bool-cases result.ok) [ inl r ↦ rw (e, r) refl | inr r ↦ rw (e, r) refl ]
        | inr e ↦ rw e refl
      ]

  mcp_result_as-follows :
      (key tool_name : Text) (r : Result Text (McpToolRef × McpExecutionResult))
      → follows (mcp_result_as codec config key tool_name r) ≡ some key
  unfolding mcp_result_as
  mcp_result_as-follows key tool_name (err message) = refl
  mcp_result_as-follows key tool_name (ok (ref, result)) =
      mcp_outcome-follows key tool_name ref result

  mcp_tool_result-follows :
      (key : Text) (result : ToolResult)
      → follows (mcp_tool_result codec config key result) ≡ some key
  unfolding mcp_tool_result
  mcp_tool_result-follows key (retry_prompt tool_name) = refl
  mcp_tool_result-follows key (tool_return part) =
      mcp_result_as-follows key part.tool_name
        (parse_mcp_tool_result_payload codec.results part.content)

  module _ (shapes : Shapes) (opened : List Text) where
    follow_as :
        (n : Normalizer) (event : NormalizedEvent) (key : Text)
        → follows event ≡ some key
        → IsOpen opened key
        → Held n shapes opened
        → Safe shapes opened (yields n (event ∷ []))
    follow_as n event key f o held = yielded_follow shapes opened n event (rw f o) held

    search_result_as-Safe :
        (key : Text) (action : Option WebSearchActionPublic) (n : Normalizer)
        → IsOpen opened key
        → Held n shapes opened
        → Safe shapes opened (search_result_as codec key action n)
    unfolding search_result_as
    search_result_as-Safe key none n o held = refl
    search_result_as-Safe key (some action) n o held =
        follow_as n (completed_search key action) key (completed_search-follows key action) o held

    on_web_search_tool_result-Safe :
        (key : Text) (result : ToolResult) (n : Normalizer)
        → IsOpen opened key
        → Held n shapes opened
        → Safe shapes opened (on_web_search_tool_result codec key result n)
    unfolding on_web_search_tool_result
    on_web_search_tool_result-Safe key (retry_prompt tool_name) n o held =
        nothing_yielded shapes opened n held
    on_web_search_tool_result-Safe key (tool_return part) n o held =
        search_result_as-Safe key (codec.parse_web_search part.model_response_str) n o held

    on_tool_result-Safe :
        (key : Text) (result : ToolResult) (n : Normalizer)
        → IsOpen opened key
        → Held n shapes opened
        → Safe shapes opened (on_tool_result codec config key result n)
    unfolding on_tool_result
    on_tool_result-Safe key result n o held =
        let name = result_tool_name result in
        elim (Bool-cases (is_tool name web_search_tool)) [
          | inl e ↦ rw e (on_web_search_tool_result-Safe key result n o held)
          | inr e ↦ elim (Bool-cases (is_tool name config.code_interpreter_tool_name)) [
            | inl f ↦
                rw (e, f)
                  (follow_as n
                    (code_interpreter_call_completed
                      (parse_code_interpreter_tool_output codec key (result_raw_text result)))
                    key (ap some (output_key key (result_raw_text result))) o held)
            | inr f ↦ rw (e, f) (nothing_yielded shapes opened n held)
          ]
        ]

    tool_result_as-Safe :
        (key : Text) (k : Option PartKind) (result : ToolResult) (n : Normalizer)
        → IsOpen opened key
        → Held n shapes opened
        → Safe shapes opened (tool_result_as codec config key k result n)
    unfolding tool_result_as
    tool_result_as-Safe key (some PartKind.mcp_call) result n o held =
        follow_as n (mcp_tool_result codec config key result) key
          (mcp_tool_result-follows key result) o held
    tool_result_as-Safe key _ result n o held = on_tool_result-Safe key result n o held

    pub on_function_tool_result-Safe :
        (call_id : Text) (result : ToolResult) (n : Normalizer)
        → Held n shapes opened
        → Safe shapes opened (on_function_tool_result codec config call_id result n)
    unfolding on_function_tool_result tool_result_for
    on_function_tool_result-Safe call_id result n held =
        elim (Option-cases (Dict.get n.tool_call_id_to_item_key call_id)) [
          | inl e ↦ rw (e, tool_result_for) (nothing_yielded shapes opened n held)
          | inr (key, e) ↦
              rw (e, tool_result_for)
                (tool_result_as-Safe key (Dict.get n.item_kind key) result n
                  (held.calls call_id key e) held)
        ]

    event_for-Safe :
        (key : Option Text) (event : Text → NormalizedEvent) (n : Normalizer)
        → ((k : Text) → follows (event k) ≡ some k)
        → ((k : Text) → key ≡ some k → IsOpen opened k)
        → Held n shapes opened
        → Safe shapes opened (yields n (event_for key event))
    event_for-Safe none event n f o held = nothing_yielded shapes opened n held
    event_for-Safe (some []) event n f o held = nothing_yielded shapes opened n held
    event_for-Safe (some (c ∷ s)) event n f o held =
        follow_as n (event (c ∷ s)) (c ∷ s) (f (c ∷ s)) (o (c ∷ s) refl) held

    pub on_function_tool_call-Safe :
        (tool_name call_id : Text) (n : Normalizer)
        → Held n shapes opened
        → Safe shapes opened (on_function_tool_call config tool_name call_id n)
    unfolding on_function_tool_call
    on_function_tool_call-Safe tool_name call_id n held =
        let key = Dict.get n.tool_call_id_to_item_key call_id in
        elim (Bool-cases (text_eq tool_name config.code_interpreter_tool_name)) [
          | inl e ↦ rw e (
              event_for-Safe key code_interpreter_call_interpreting n (λ k. refl)
                (held.calls call_id) held)
          | inr e ↦ elim (Bool-cases (text_eq tool_name web_search_tool)) [
            | inl f ↦
                rw (e, f)
                  (event_for-Safe key web_search_call_searching n (λ k. refl) (held.calls call_id)
                    held)
            | inr f ↦ rw (e, f) (nothing_yielded shapes opened n held)
          ]
        ]
