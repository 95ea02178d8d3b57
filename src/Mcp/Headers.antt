-- ===== src/Mcp/Headers.antt =====
-- The headers of a remote server, and the secrets among them.
use vllm_responses.Prelude.{
  ◌≡◌, ◌≤◌, refl, ◌∙◌, inl, inr, Text, true, false, ◌||◌, Option, none, some, List, [], ◌∷◌, ◌++◌,
  length, codes, is_empty, text_eq, text_eq_refl, eq_of_text_eq, member, if◌then◌else◌, Bool-cases,
  arith,
}
use vllm_responses.Prelude.Dict
use vllm_responses.Prelude.Dict.{Dict, get-put, get-delete}
use vllm_responses.Prelude.Result.{ok}
use vllm_responses.Mcp.Policy.{
  Net, build_request_remote_headers, delete_all, is_authorization, authorization_keys,
  headers_or_empty, request_remote_secret_values, sort_longest, insert_longest, dedupe, non_empty,
  texts_of, values_of,
}

module _ (net : Net) where
  get-delete_all :
      (ks : List Text) (d : Dict Text) (j : Text)
      → Dict.get (delete_all net ks d) j ≡ (if member j ks then none else Dict.get d j)
  unfolding delete_all
  get-delete_all [] d j = refl
  get-delete_all (k ∷ ks) d j =
      ground (arith, get-delete_all ks (Dict.delete d k) j, get-delete d k j)

  -- A key that is in the headers is among the authorization keys if it is one.
  member-authorization_keys :
      (d : Dict Text) (j : Text)
      → is_authorization net j ≡ false
      → member j (authorization_keys net d) ≡ false
  member-authorization_keys [] j h = refl
  member-authorization_keys ((k, v) ∷ d) j h =
      ground (arith, member-authorization_keys d j, eq_of_text_eq k j)

  authorization_keys_all :
      (d : Dict Text) (j : Text)
      → is_authorization net j ≡ true
      → member j (authorization_keys net d) ≡ false
      → Dict.get d j ≡ none
  unfolding Dict.get
  authorization_keys_all [] j h m = refl
  authorization_keys_all ((k, v) ∷ d) j h m =
      ground (arith, authorization_keys_all d j, eq_of_text_eq k j)

  get-others :
      (d : Dict Text) (key : Text)
      → Dict.get (delete_all net (authorization_keys net d) d) key
        ≡ (if is_authorization net key then none else Dict.get d key)
  get-others d key = elim (Bool-cases (is_authorization net key)) [
    | inr b ↦
        get-delete_all (authorization_keys net d) d key
        ∙ rw (b, member-authorization_keys d key b) refl
    | inl b ↦ elim (Bool-cases (member key (authorization_keys net d))) [
      | inl m ↦ get-delete_all (authorization_keys net d) d key ∙ rw (b, m) refl
      | inr m ↦
          get-delete_all (authorization_keys net d) d key
          ∙ rw (b, m) (authorization_keys_all d key b m)
    ]
  ]

  -- With an `authorization` the headers have exactly one authorization header, `Authorization`,
  -- with the bearer token, in whatever case the request had spelt its own; every other header is
  -- as the request has it.
  pub get-build_request_remote_headers :
      (authorization : Text) (headers : Option (Dict Text)) (key : Text)
      → (built : Dict Text) × (build_request_remote_headers net (some authorization) headers
          ≡ ok built)
        × (Dict.get built key ≡ (
            if text_eq (codes "Authorization") key
            then some (codes "Bearer " ++ authorization)
            else if is_authorization net key
            then none
            else Dict.get (headers_or_empty headers) key))
  unfolding build_request_remote_headers
  get-build_request_remote_headers authorization headers key =
      let source = headers_or_empty headers in
      let rest = delete_all net (authorization_keys net source) source in
      (
        Dict.put rest (codes "Authorization") (codes "Bearer " ++ authorization),
        refl,
        get-put rest (codes "Authorization") key (codes "Bearer " ++ authorization)
            ∙ rw (get-others source key) refl,
      )

member-insert_longest :
    (v t : Text) (ts : List Text) → member v (insert_longest t ts) ≡ (text_eq t v || member v ts)
unfolding insert_longest
member-insert_longest v t [] = refl
member-insert_longest v t (u ∷ us) = ground (arith, member-insert_longest v t us)

member-sort_longest : (v : Text) (ts : List Text) → member v (sort_longest ts) ≡ member v ts
unfolding sort_longest
member-sort_longest v [] = refl
member-sort_longest v (t ∷ ts) =
    member-insert_longest v t (sort_longest ts) ∙ rw (member-sort_longest v ts)

member-dedupe : (v : Text) (ts : List Text) → member v (dedupe ts) ≡ member v ts
member-dedupe v [] = refl
member-dedupe v (t ∷ ts) = ground (arith, member-dedupe v ts, eq_of_text_eq t v)

member-non_empty :
    (v : Text) (ts : List Text) → is_empty v ≡ false → member v (non_empty ts) ≡ member v ts
member-non_empty v [] n = refl
member-non_empty v (t ∷ ts) n = ground (arith, member-non_empty v ts, eq_of_text_eq t v)

member-append : (v : Text) (ts us : List Text) → member v (ts ++ us) ≡ (member v ts || member v us)
member-append v [] us = refl
member-append v (t ∷ ts) us = ground (arith, member-append v ts us)

pub member-values_of :
    (d : Dict Text) (k v : Text) → Dict.get d k ≡ some v → member v (values_of d) ≡ true
unfolding Dict.get
member-values_of [] k v h = cc
member-values_of ((j, w) ∷ d) k v h = ground (arith, member-values_of d k v, text_eq_refl v)

-- Longest first.
abbrev pub IsLongestFirst : List Text → Type 0
IsLongestFirst [] = Unit {0}
IsLongestFirst (t ∷ []) = Unit {0}
IsLongestFirst (t ∷ u ∷ us) = (length u ≤ length t) × IsLongestFirst (u ∷ us)

insert_longest-IsLongestFirst :
    (t : Text) (us : List Text) → IsLongestFirst us → IsLongestFirst (insert_longest t us)
unfolding insert_longest
insert_longest-IsLongestFirst t [] h = tt
insert_longest-IsLongestFirst t (u ∷ []) h = ground arith
insert_longest-IsLongestFirst t (u ∷ w ∷ ws) (l, h) =
    ground (arith, insert_longest-IsLongestFirst t (w ∷ ws))

sort_longest-IsLongestFirst : (ts : List Text) → IsLongestFirst (sort_longest ts)
unfolding sort_longest
sort_longest-IsLongestFirst [] = tt
sort_longest-IsLongestFirst (t ∷ ts) =
    insert_longest-IsLongestFirst t (sort_longest ts) (sort_longest-IsLongestFirst ts)

-- The secrets are longest first, and a text that is not empty is among them exactly if it is the
-- authorization or a header's value.
pub member-request_remote_secret_values :
    (authorization : Option Text) (headers : Option (Dict Text)) (v : Text)
    → is_empty v ≡ false
    → let secrets = request_remote_secret_values authorization headers in
      IsLongestFirst secrets
      × (member v secrets
          ≡ (member v (texts_of authorization) || member v (values_of (headers_or_empty headers))))
unfolding request_remote_secret_values
member-request_remote_secret_values authorization headers v n =
    let all = texts_of authorization ++ values_of (headers_or_empty headers) in
    (
      sort_longest-IsLongestFirst (dedupe (non_empty all)),
      member-sort_longest v (dedupe (non_empty all))
          ∙ member-dedupe v (non_empty all)
          ∙ member-non_empty v all n
          ∙ member-append v (texts_of authorization) (values_of (headers_or_empty headers)),
    )
