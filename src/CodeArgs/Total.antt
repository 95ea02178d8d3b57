-- ===== src/CodeArgs/Total.antt =====
-- `feed` returns on every fragment, in every state that fragments lead to.
use vllm_responses.Prelude.{
  ℕ, ◌+◌, Text, ◌≡◌, refl, ◌⊎◌, inl, inr, true, false, Option, none, some, List, [], ◌∷◌, ◌++◌,
  length, arith,
}
use vllm_responses.CodeArgs.{
  CodeJsonArgsExtractor, new_extractor, enter_value, find_value_start, rounds, trim, feed, feed_all,
}
use vllm_responses.CodeArgs.Decoder.{IsReading}
use vllm_responses.CodeArgs.Feeds.{
  rounds-decode, feed-rounds, feed_all-cons, feed-nil, feed_all-nil, feed-decode, trim_reading,
  enter_value-eq,
}
use vllm_responses.CodeArgs.Search.{find_value_start_ends, Searched}

-- An extractor that still looks for its value.
pub record IsWaiting (e : CodeJsonArgsExtractor) : Type 0 where
  pub outside : e.in_value ≡ false
  pub live : e.done ≡ false
  pub exclusive : (e.unicode_remaining ≡ 0) ⊎ (e.escape ≡ false)

abbrev pub IsSound : CodeJsonArgsExtractor → Type 0
IsSound e = IsReading e ⊎ IsWaiting e

abbrev pub Returns : Option (CodeJsonArgsExtractor × Text) → Type 0
Returns r = (e' : CodeJsonArgsExtractor) × (out : Text) × (r ≡ some (e', out)) × IsSound e'

trim-IsWaiting : (e : CodeJsonArgsExtractor) → IsWaiting e → IsWaiting (trim e)
unfolding trim
trim-IsWaiting e h = ground arith

pub enter_value-none :
    (e e' : CodeJsonArgsExtractor)
    → e.in_value ≡ false
    → find_value_start (length e.buf + 2) e ≡ some (e', none)
    → enter_value e ≡ some (e', false)
unfolding enter_value
enter_value-none e e' v h = rw (h, enter_value) (rw v)

pub rounds_wait :
    (e e' : CodeJsonArgsExtractor)
    → e.done ≡ false
    → enter_value e ≡ some (e', false)
    → rounds 3 e ≡ some (e', [])
unfolding rounds
rounds_wait e e' d h = rw (d, h, rounds)

kept_fields :
    (e e' : CodeJsonArgsExtractor)
    → IsWaiting e
    → e' ≡ record e { search_from = e'.search_from }
    → IsWaiting e' × (e'.buf ≡ e.buf)
kept_fields e e' w k = ground arith

settle :
    (e : CodeJsonArgsExtractor) (c : ℕ) (cs : Text)
    → IsWaiting (record e { buf = e.buf ++ (c ∷ cs) })
    → (e' : CodeJsonArgsExtractor) (o : Option ℕ)
    → find_value_start (length (e.buf ++ (c ∷ cs)) + 2) (record e { buf = e.buf ++ (c ∷ cs) })
      ≡ some (e', o)
    → Searched (record e { buf = e.buf ++ (c ∷ cs) }) (e', o)
    → Returns (feed e (c ∷ cs))
settle e c cs w e' none s k =
    let e1 = record e { buf = e.buf ++ (c ∷ cs) } in
    (
      trim e',
      [],
      feed-rounds e c cs w.live (rounds_wait e1 e' w.live (enter_value-none e1 e' w.outside s)),
      inr (trim-IsWaiting e' (kept_fields e1 e' w k.kept).0),
    )
settle e c cs w e' (some p) s k =
    let e1 = record e { buf = e.buf ++ (c ∷ cs) } in
    let (w', b) = kept_fields e1 e' w k.kept in
    let (e2, r, h, m) =
      rounds-decode e1 (record e' { in_value = true; pos = p }) w.live
        (enter_value-eq e1 {e' = e'} {start = p} w.outside s) w'.live refl (rw b k.within)
        w'.exclusive in
    (trim e2, _, feed-rounds e c cs w.live r, inl (rw (trim_reading e2 h) h))

-- Whatever the fragment, `feed` returns, and leaves an extractor that is sound again.
pub feed-Returns : (e : CodeJsonArgsExtractor) (chunk : Text) → IsSound e → Returns (feed e chunk)
feed-Returns e [] h = (e, [], feed-nil e, h)
feed-Returns e (c ∷ cs) (inl h) = let (e', r, k, m) = feed-decode e (c ∷ cs) h in (e', _, r, inl k)
feed-Returns e (c ∷ cs) (inr w) =
    let e1 = record e { buf = e.buf ++ (c ∷ cs) } in
    let (r, s, k) = find_value_start_ends (length e1.buf + 2) e1 (omega arith) (omega arith) in
    settle e c cs (record { outside = w.outside; live = w.live; exclusive = w.exclusive }) r.0 r.1 s
      k

feed_all-Returns :
    (e : CodeJsonArgsExtractor) (chunks : List Text) → IsSound e → Returns (feed_all e chunks)
feed_all-Returns e [] h = (e, [], feed_all-nil e, h)
feed_all-Returns e (chunk ∷ chunks) h =
    let (e1, o1, r1, h1) = feed-Returns e chunk h in
    let (e2, o2, r2, h2) = feed_all-Returns e1 chunks h1 in
    (e2, o1 ++ o2, feed_all-cons e chunk chunks r1 r2, h2)

-- A new extractor returns on every sequence of fragments: no loop of `feed` runs for ever.
pub feed_all_total :
    (key : Text) (chunks : List Text)
    → (e' : CodeJsonArgsExtractor) × (out : Text) × (feed_all (new_extractor key) chunks
        ≡ some (e', out))
feed_all_total key chunks =
    let (e', out, r, h) =
      feed_all-Returns (new_extractor key) chunks
        (inr (record { outside = refl; live = refl; exclusive = inl refl })) in
    (e', out, r)
