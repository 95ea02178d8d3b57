-- ===== src/Store/Caching.antt =====
-- The cache and the rows: the cache holds nothing but rows, so that `get` gives the row.
use vllm_responses.Prelude.{
  Text, ◌&&◌, ◌≡◌, ap, ◌∙◌, inl, inr, none, some, Option-cases, Bool-cases, text_eq, eq_of_text_eq,
  arith,
}
use vllm_responses.Prelude.Dict
use vllm_responses.Prelude.Dict.{Dict, get-put, get-put_self}
use vllm_responses.Prelude.Result.{ok}
use vllm_responses.Store.{StoredResponse, Database}
use vllm_responses.Store.Table.{get, cache_get, cache_set, insert}

module _ {State : Type 0} where
  -- The rows stand under their ids, and the cache holds nothing but rows.
  pub record Agrees (db : Database State) : Type 0 where
    pub keyed :
        (id : Text) (s : StoredResponse State) → Dict.get db.rows id ≡ some s → s.response_id ≡ id
    pub cached :
        (id : Text) (s : StoredResponse State)
        → Dict.get db.cache id ≡ some s
        → Dict.get db.rows id ≡ some s

  pub cache_set-Agrees :
      (db : Database State) (s : StoredResponse State)
      → Agrees db
      → Dict.get db.rows s.response_id ≡ some s
      → Agrees (cache_set db s)
  unfolding cache_set
  cache_set-Agrees db s v e = elim (Bool-cases (db.cache_enabled && db.working)) [
    | inl b ↦ rw b (record {
      keyed = v.keyed;
      cached = λ id t h. elim (Bool-cases (text_eq s.response_id id)) [
        | inl q ↦
            let i = eq_of_text_eq s.response_id id q in
            let c : some s ≡ some t = cc (get-put db.cache s.response_id id s, q, h) in cc
        | inr q ↦ v.cached id t (cc (get-put db.cache s.response_id id s, q, h))
      ];
    })
    | inr b ↦ rw b v
  ]

  cache_get-row :
      (db : Database State) (id : Text) (t : StoredResponse State)
      → Agrees db
      → cache_get db id ≡ some t
      → Dict.get db.rows id ≡ some t
  unfolding cache_get
  cache_get-row db id t v h = elim (Bool-cases (db.cache_enabled && db.working)) [
    | inl b ↦ v.cached id t (ground arith)
    | inr b ↦ ground arith
  ]

  pub get-row : (db : Database State) (id : Text) → Agrees db → (get db id).1 ≡ Dict.get db.rows id
  unfolding get
  get-row db id v = elim (Option-cases (cache_get db id)) [
    | inr (t, c) ↦ let r = cache_get-row db id t v c in ground arith
    | inl c ↦ elim (Option-cases (Dict.get db.rows id)) [
      | inl r ↦ ground arith
      | inr (t, r) ↦ ground arith
    ]
  ]

  pub get-Agrees : (db : Database State) (id : Text) → Agrees db → Agrees (get db id).0
  unfolding get
  get-Agrees db id v = elim (Option-cases (cache_get db id)) [
    | inr (t, c) ↦ rw (c, get) v
    | inl c ↦ elim (Option-cases (Dict.get db.rows id)) [
      | inl r ↦ rw (c, get, r) v
      | inr (t, r) ↦
          rw (c, get, r) (cache_set-Agrees db t v (ap (Dict.get db.rows) (v.keyed id t r) ∙ r))
    ]
  ]

  -- A new row at the end.
  put-Agrees :
      (db : Database State) (s : StoredResponse State)
      → Agrees db
      → Dict.get db.rows s.response_id ≡ none
      → Agrees (record db { rows = Dict.put db.rows s.response_id s })
  put-Agrees db s v h = record {
    keyed = λ id t e. elim (Bool-cases (text_eq s.response_id id)) [
      | inl q ↦
          let i = eq_of_text_eq s.response_id id q in
          let c : some s ≡ some t = cc (get-put db.rows s.response_id id s, q, e) in cc
      | inr q ↦ v.keyed id t (cc (get-put db.rows s.response_id id s, q, e))
    ];
    cached = λ id t e.
        let r = v.cached id t e in
        elim (Bool-cases (text_eq s.response_id id)) [
          | inl q ↦ let i = eq_of_text_eq s.response_id id q in cc
          | inr q ↦ cc (get-put db.rows s.response_id id s, q, r)
        ];
  }

  pub insert-Agrees :
      (db : Database State) (s : StoredResponse State) → Agrees db → Agrees (insert db s).0
  unfolding insert
  insert-Agrees db s v = elim (Option-cases (Dict.get db.rows s.response_id)) [
    | inr (old, h) ↦ rw (h, insert) v
    | inl h ↦
        rw (h, insert)
          (cache_set-Agrees (record db { rows = Dict.put db.rows s.response_id s }) s
            (put-Agrees db s v h) (get-put_self db.rows s.response_id s))
  ]

  cache_set-rows :
      (db : Database State) (s : StoredResponse State) → (cache_set db s).rows ≡ db.rows
  unfolding cache_set
  cache_set-rows db s = ground arith

  pub insert-row :
      (db : Database State) (s : StoredResponse State)
      → (insert db s).1 ≡ ok tt
      → Dict.get (insert db s).0.rows s.response_id ≡ some s
  unfolding insert
  insert-row db s h = elim (Option-cases (Dict.get db.rows s.response_id)) [
    | inr (old, e) ↦ ground arith
    | inl e ↦ rw (e, insert, cache_set-rows, get-put_self db.rows s.response_id s)
  ]
