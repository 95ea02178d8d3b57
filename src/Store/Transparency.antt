-- ===== src/Store/Transparency.antt =====
-- The store with its cache against the store without one, over sequences of its operations.
use vllm_responses.Prelude.{
  Text, Bool, false, ◌≡◌, sym, ◌∙◌, inl, inr, none, some, List, [], ◌∷◌, is_empty, Option-cases,
  Bool-cases,
}
use vllm_responses.Prelude.Dict
use vllm_responses.Prelude.Dict.{Dict, get-put, get-put_self}
use vllm_responses.Store.{ResponsesRequest, Response, Pydantic, Database}
use vllm_responses.Store.Table.{get, put_completed}
use vllm_responses.Store.Rehydrate.{rehydrate_request, rehydrate_from}
use vllm_responses.Store.Caching.{Agrees, get-row, get-Agrees}
use vllm_responses.Store.Puts.{put_completed-Agrees}

pub data Operation (Item : Type 0) : Type 0 where
  put : ResponsesRequest Item → ResponsesRequest Item → Response Item → Operation Item
  rehydrate : ResponsesRequest Item → Operation Item
  -- The cache's server stops or comes back.
  switch : Bool → Operation Item

module _ {Item State : Type 0} (pydantic : Pydantic Item State) where
  abbrev pub operate : Database State → Operation Item → Database State
  operate db (put request hydrated response) =
      (put_completed pydantic db request hydrated response).0
  operate db (rehydrate request) = (rehydrate_request pydantic db request).0
  operate db (switch b) = record db { working = b }

  abbrev pub operate_all : Database State → List (Operation Item) → Database State
  operate_all db [] = db
  operate_all db (o ∷ os) = operate_all (operate db o) os

  rehydrate_from-state :
      (db : Database State) (id : Text) (request : ResponsesRequest Item)
      → (rehydrate_from pydantic db id request).0 ≡ (get db id).0
  unfolding rehydrate_from
  rehydrate_from-state db id request = elim (Option-cases (get db id).1) [
    | inl h ↦ rw (h, rehydrate_from)
    | inr (t, h) ↦ rw (h, rehydrate_from)
  ]

  rehydrate_request-Agrees :
      (db : Database State) (request : ResponsesRequest Item)
      → Agrees db
      → Agrees (rehydrate_request pydantic db request).0
  unfolding rehydrate_request
  rehydrate_request-Agrees db request v = elim (Option-cases request.previous_response_id) [
    | inl h ↦ rw (h, rehydrate_request) v
    | inr (id, h) ↦ elim (Bool-cases (is_empty id)) [
      | inl b ↦ rw (h, rehydrate_request, b) v
      | inr b ↦
          rw (h, rehydrate_request, b, rehydrate_from-state db id request) (get-Agrees db id v)
    ]
  ]

  operate-Agrees : (db : Database State) (o : Operation Item) → Agrees db → Agrees (operate db o)
  operate-Agrees db (put request hydrated response) v =
      put_completed-Agrees pydantic db request hydrated response v
  operate-Agrees db (rehydrate request) v = rehydrate_request-Agrees db request v
  operate-Agrees db (switch b) v = record { keyed = v.keyed; cached = v.cached }

  operate_all-Agrees :
      (db : Database State) (os : List (Operation Item)) → Agrees db → Agrees (operate_all db os)
  operate_all-Agrees db [] v = v
  operate_all-Agrees db (o ∷ os) v = operate_all-Agrees (operate db o) os (operate-Agrees db o v)

  rehydrate_from-rows :
      (db db' : Database State) (id : Text) (request : ResponsesRequest Item)
      → (get db id).1 ≡ (get db' id).1
      → (rehydrate_from pydantic db id request).1 ≡ (rehydrate_from pydantic db' id request).1
  unfolding rehydrate_from
  rehydrate_from-rows db db' id request e = elim (Option-cases (get db id).1) [
    | inl h ↦ let h' : (get db' id).1 ≡ none = cc in rw (h, h', rehydrate_from)
    | inr (t, h) ↦ let h' : (get db' id).1 ≡ some t = cc in rw (h, h', rehydrate_from)
  ]

  without_cache-Agrees :
      (db : Database State) → Agrees db → Agrees (record db { cache_enabled = false })
  without_cache-Agrees db v = record { keyed = v.keyed; cached = v.cached }

  rehydrate_request-cache :
      (db : Database State) (request : ResponsesRequest Item)
      → Agrees db
      → (rehydrate_request pydantic db request).1
        ≡ (rehydrate_request pydantic (record db { cache_enabled = false }) request).1
  unfolding rehydrate_request
  rehydrate_request-cache db request v =
      let bare = record db { cache_enabled = false } in
      elim (Option-cases request.previous_response_id) [
        | inl h ↦ rw (h, rehydrate_request)
        | inr (id, h) ↦ elim (Bool-cases (is_empty id)) [
          | inl b ↦ rw (h, rehydrate_request, b)
          | inr b ↦
              let e = get-row db id v ∙ sym (get-row bare id (without_cache-Agrees db v)) in
              rw (h, rehydrate_request, b) (rehydrate_from-rows db bare id request e)
        ]
      ]

  -- After any sequence of puts and rehydrations on a new database, while the cache's server comes
  -- and goes, a request is rehydrated as it is from the rows alone, without a cache.
  pub operate_all-rehydrate_request :
      (enabled working : Bool) (os : List (Operation Item)) (request : ResponsesRequest Item)
      → let db =
          operate_all
            (record { rows = []; cache_enabled = enabled; cache = []; working = working })
            os in
        (rehydrate_request pydantic db request).1
        ≡ (rehydrate_request pydantic (record db { cache_enabled = false }) request).1
  unfolding Dict.get
  operate_all-rehydrate_request enabled working os request =
      let db =
        operate_all (record { rows = []; cache_enabled = enabled; cache = []; working = working })
          os in
      let v =
        operate_all-Agrees
          (record { rows = []; cache_enabled = enabled; cache = []; working = working }) os
          (record { keyed = λ id s e. cc; cached = λ id s e. cc }) in
      rehydrate_request-cache db request v
