-- ===== src/Store/Table.antt =====
-- The table of responses with the cache in front of it: `get` and `put_completed` of
-- `DBResponseStore`. A row is kept as the `StoredResponse` that `get` makes of it. A cache entry
-- does not expire here: `get` is the same without it.
use vllm_responses.Prelude.{
  Text, Bool, true, false, ◌&&◌, not, Option, none, some, if◌then◌else◌, is_empty,
}
use vllm_responses.Prelude.Dict
use vllm_responses.Prelude.Dict.{Dict}
use vllm_responses.Prelude.Result.{Result, ok, err, ◌>>=◌}
use vllm_responses.Items.{Status, completed, incomplete}
use vllm_responses.Store.{
  ResponsesRequest, Response, StoredResponsePayload, StoredResponse, StoreError, already_exists,
  Pydantic, Database,
}
use vllm_responses.Store.Instructions.{
  normalize_input, strip_request_instruction_messages, sanitize_effective_tools_for_storage,
  or_else,
}

-- `_PERSISTABLE_RESPONSE_STATUSES`
unfoldable pub is_persistable : Option Status → Bool
is_persistable (some completed) = true
is_persistable (some incomplete) = true
is_persistable _ = false

module _ {State : Type 0} where
  -- `_cache_get`, with the exceptions that `get` passes over
  unfoldable pub cache_get : Database State → Text → Option (StoredResponse State)
  cache_get db id = if db.cache_enabled && db.working then Dict.get db.cache id else none

  -- `_cache_set`, with the exceptions that its callers pass over
  unfoldable pub cache_set : Database State → StoredResponse State → Database State
  cache_set db stored =
      if db.cache_enabled && db.working
      then record db { cache = Dict.put db.cache stored.response_id stored }
      else db

  unfoldable pub get : Database State → Text → Database State × Option (StoredResponse State)
  unfolding cache_get cache_set
  get db id = elim (cache_get db id) [
    | some stored ↦ (db, some stored)
    | none ↦ elim (Dict.get db.rows id) [
      | none ↦ (db, none)
      | some stored ↦ (cache_set db stored, some stored)
    ]
  ]

  -- The row with its primary key, and the cache behind it.
  unfoldable pub insert :
      Database State → StoredResponse State → Database State × Result StoreError (Unit {0})
  unfolding cache_set
  insert db stored = elim (Dict.get db.rows stored.response_id) [
    | some old ↦ (db, err (already_exists stored.response_id))
    | none ↦
        (cache_set (record db { rows = Dict.put db.rows stored.response_id stored }) stored, ok tt)
  ]

module _ {Item State : Type 0} (pydantic : Pydantic Item State) where
  unfoldable pub payload_of :
      ResponsesRequest Item → Response Item → Result StoreError (StoredResponsePayload Item)
  unfolding normalize_input strip_request_instruction_messages
  payload_of hydrated response = do
    stripped ← strip_request_instruction_messages (normalize_input hydrated.input)
    ok (record {
      hydrated_input = stripped.0;
      response = response;
      effective_tools = sanitize_effective_tools_for_storage hydrated.tools;
      effective_tool_choice = hydrated.tool_choice;
      effective_instructions = hydrated.instructions;
      effective_system_instruction = or_else hydrated.effective_system_instruction stripped.1;
    })

  unfoldable pub stored_of :
      ResponsesRequest Item → Response Item → StoredResponsePayload Item → StoredResponse State
  stored_of request response payload = record {
    response_id = response.id;
    previous_response_id = response.previous_response_id;
    model = response.model;
    store = request.store;
    state = pydantic.model_dump payload;
  }

  unfoldable pub put_completed :
      Database State
      → ResponsesRequest Item
      → ResponsesRequest Item
      → Response Item
      → Database State × Result StoreError (Unit {0})
  unfolding is_persistable insert payload_of stored_of
  put_completed db request hydrated response =
      if not (is_persistable response.status)
      then (db, ok tt)
      else if is_empty response.id
      then (db, ok tt)
      else if not request.store
      then (db, ok tt)
      else elim (payload_of hydrated response) [
        | err e ↦ (db, err e)
        | ok payload ↦ insert db (stored_of request response payload)
      ]
