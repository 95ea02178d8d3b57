-- ===== src/Store/Puts.antt =====
-- `put_completed` stores a payload under the response's id.
use vllm_responses.Prelude.{true, false, ◌≡◌, inl, inr, some, is_empty, Bool-cases}
use vllm_responses.Prelude.Dict
use vllm_responses.Prelude.Dict.{Dict, get-put, get-put_self}
use vllm_responses.Prelude.Result.{ok, err, Result-cases}
use vllm_responses.Store.{ResponsesRequest, Response, StoredResponsePayload, Pydantic, Database}
use vllm_responses.Store.Table.{insert, put_completed, payload_of, stored_of, is_persistable}
use vllm_responses.Store.Caching.{Agrees, insert-Agrees, insert-row}

module _ {Item State : Type 0} (pydantic : Pydantic Item State) where
  put_completed-insert :
      (db : Database State) (request hydrated : ResponsesRequest Item) (response : Response Item)
      → is_persistable response.status ≡ true
      → is_empty response.id ≡ false
      → request.store ≡ true
      → put_completed pydantic db request hydrated response
        ≡ elim (payload_of pydantic hydrated response) [
          | err e ↦ (db, err e)
          | ok payload ↦ insert db (stored_of pydantic request response payload)
        ]
  unfolding put_completed
  put_completed-insert db request hydrated response a b c = rw (a, b, c)

  -- What has been put is the row of its id, with the payload.
  pub put_completed-row :
      (db : Database State) (request hydrated : ResponsesRequest Item) (response : Response Item)
      → is_persistable response.status ≡ true
      → is_empty response.id ≡ false
      → request.store ≡ true
      → (put_completed pydantic db request hydrated response).1 ≡ ok tt
      → (payload : StoredResponsePayload Item) × (payload_of pydantic hydrated response
          ≡ ok payload)
        × (Dict.get (put_completed pydantic db request hydrated response).0.rows response.id
            ≡ some (stored_of pydantic request response payload))
  unfolding stored_of
  put_completed-row db request hydrated response a b c h =
      let e = put_completed-insert db request hydrated response a b c in
      elim (Result-cases (payload_of pydantic hydrated response)) [
        | inl (x, p) ↦
            let d : put_completed pydantic db request hydrated response ≡ (db, err x) = rw (e, p) in
            let q : err x ≡ ok tt = cc in cc
        | inr (payload, p) ↦
            let s = stored_of pydantic request response payload in
            let d : put_completed pydantic db request hydrated response ≡ insert db s = rw (e, p) in
            let k : (insert db s).1 ≡ ok tt = cc in (payload, p, cc (insert-row db s k))
      ]

  accepted-Agrees :
      (db : Database State) (request hydrated : ResponsesRequest Item) (response : Response Item)
      → Agrees db
      → is_persistable response.status ≡ true
      → is_empty response.id ≡ false
      → request.store ≡ true
      → Agrees (put_completed pydantic db request hydrated response).0
  accepted-Agrees db request hydrated response v a b c =
      let e = put_completed-insert db request hydrated response a b c in
      elim (Result-cases (payload_of pydantic hydrated response)) [
        | inl (x, p) ↦ rw (e, p) v
        | inr (payload, p) ↦
            rw (e, p) (insert-Agrees db (stored_of pydantic request response payload) v)
      ]

  pub put_completed-Agrees :
      (db : Database State) (request hydrated : ResponsesRequest Item) (response : Response Item)
      → Agrees db
      → Agrees (put_completed pydantic db request hydrated response).0
  unfolding put_completed
  put_completed-Agrees db request hydrated response v =
      elim (Bool-cases (is_persistable response.status)) [
        | inr a ↦ rw (a, put_completed) v
        | inl a ↦ elim (Bool-cases (is_empty response.id)) [
          | inl b ↦ rw (a, b, put_completed) v
          | inr b ↦ elim (Bool-cases request.store) [
            | inr c ↦ rw (a, b, c, put_completed) v
            | inl c ↦ accepted-Agrees db request hydrated response v a b c
          ]
        ]
      ]
