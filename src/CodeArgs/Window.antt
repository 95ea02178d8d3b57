-- ===== src/CodeArgs/Window.antt =====
-- The tail that is kept while the value is looked for.
use vllm_responses.Prelude.{
  ℕ, suc, ◌+◌, ◌-◌, ◌≤◌, ◌<◌, Text, ◌≡◌, refl, ap, ◌∙◌, false, none, some, [], ◌∷◌, ◌++◌, length,
  last_n, find, arith, length-drop, length-append, drop-eq_nil,
}
use vllm_responses.CodeArgs.{
  CodeJsonArgsExtractor, new_extractor, key_pattern, find_value_start, trim, feed, feed_all,
}
use vllm_responses.CodeArgs.Feeds.{feed-rounds, feed-nil, feed_all-cons, feed_all-nil}
use vllm_responses.CodeArgs.Total.{enter_value-none, rounds_wait}

search_fails :
    (fuel : ℕ) (e : CodeJsonArgsExtractor)
    → find (key_pattern e) e.buf e.search_from ≡ none
    → find_value_start (suc fuel) e ≡ some (record e { search_from = length e.buf - 16 }, none)
unfolding find_value_start
search_fails fuel e h = rw (h, find_value_start)

-- A fragment after which the key is not found.
unfound :
    (e : CodeJsonArgsExtractor) (c : ℕ) (cs : Text)
    → e.in_value ≡ false
    → e.done ≡ false
    → find (key_pattern e) (e.buf ++ (c ∷ cs)) e.search_from ≡ none
    → feed e (c ∷ cs)
      ≡ some (
        trim (record e { buf = e.buf ++ (c ∷ cs); search_from = length (e.buf ++ (c ∷ cs)) - 16 }),
        [],
      )
unfound e c cs v d h =
    let e1 = record e { buf = e.buf ++ (c ∷ cs) } in
    let fuel_lem : length e1.buf + 2 ≡ suc (length e1.buf + 1) = omega arith in
    let e2 = record e1 { search_from = length e1.buf - 16 } in
    feed-rounds e c cs d (
      rounds_wait e1 e2 d
        (enter_value-none e1 e2 v (rw fuel_lem (search_fails (length e1.buf + 1) e1 h))))

trim_long :
    (e : CodeJsonArgsExtractor)
    → e.in_value ≡ false
    → e.done ≡ false
    → 256 < length e.buf
    → trim e ≡ record e {
      buf = last_n 256 e.buf;
      search_from = e.search_from - (length (last_n 256 e.buf) - 256);
    }
unfolding trim
trim_long e v d h = ground arith

find_beyond : (q : ℕ) (qs s : Text) (from : ℕ) → length s ≤ from → find (q ∷ qs) s from ≡ none
find_beyond q qs s from h = rw (drop-eq_nil from s h)

-- The tail that is kept after `pre`, with the place from which the next search starts.
abbrev kept : Text → Text → CodeJsonArgsExtractor
kept key pre = record (new_extractor key) {
  buf = last_n 256 pre;
  search_from = length pre - 16 - (length (last_n 256 pre) - 256);
}

feed_long :
    (key pre : Text)
    → 256 < length pre
    → find (key_pattern (new_extractor key)) pre 0 ≡ none
    → feed (new_extractor key) pre ≡ some (kept key pre, [])
feed_long key [] l h = absurd (omega arith)
feed_long key (c ∷ cs) l h =
    unfound (new_extractor key) c cs refl refl h
    ∙ ap (λ (e : CodeJsonArgsExtractor). some (e, []))
        (trim_long (record (new_extractor key) { buf = c ∷ cs; search_from = length (c ∷ cs) - 16 })
          refl refl l)

feed_skipped :
    (key pre chunk : Text)
    → 272 + length chunk ≤ length pre
    → (e' : CodeJsonArgsExtractor) × (feed (kept key pre) chunk ≡ some (e', []))
feed_skipped key pre [] l = (kept key pre, feed-nil (kept key pre))
feed_skipped key pre (c ∷ cs) l = (
  _,
  unfound (kept key pre) c cs refl refl (
      find_beyond 34 (key ++ 34 ∷ []) (last_n 256 pre ++ (c ∷ cs)) (kept key pre).search_from (
        omega
          (arith, length-append (last_n 256 pre) (c ∷ cs), length-drop (length pre - 256) pre))),
)

-- `search_from` is not moved back with the buffer when the buffer is cut to its last 256
-- characters. So behind a first fragment of at least 272 characters more than the second one,
-- and without the key, the second fragment yields nothing, even if the key and the whole value
-- stand in it.
pub feed_all-skips :
    (key pre chunk : Text)
    → find (key_pattern (new_extractor key)) pre 0 ≡ none
    → 272 + length chunk ≤ length pre
    → (e' : CodeJsonArgsExtractor) × (feed_all (new_extractor key) (pre ∷ chunk ∷ [])
        ≡ some (e', []))
feed_all-skips key pre chunk h l =
    let (e', r) = feed_skipped key pre chunk l in
    (
      e',
      feed_all-cons (new_extractor key) pre (chunk ∷ []) (feed_long key pre (omega arith) h)
          (feed_all-cons (kept key pre) chunk [] r (feed_all-nil e')),
    )
