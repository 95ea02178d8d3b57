-- ===== src/CodeArgs/Search.antt =====
-- `_find_value_start` ends, whatever the buffer holds, and so does `feed`.
use vllm_responses.Prelude.{
  ℕ, zero, suc, ◌+◌, ◌-◌, ◌≤◌, ◌<◌, Text, ◌≡◌, refl, inl, inr, Option, none, some, [], ◌∷◌, ◌++◌,
  length, get_elem?, drop, arith, Option-cases, find, find_at, length-drop,
}
use vllm_responses.CodeArgs.{
  CodeJsonArgsExtractor, Probe, wait, retry, start_at, key_pattern, probe_quote, probe_colon,
  skip_space, probe, find_value_start,
}

find_at_bounds :
    (q : ℕ) (qs s : Text) (i k : ℕ) → find_at (q ∷ qs) s i ≡ some k → (i ≤ k) × (k < i + length s)
find_at_bounds q qs [] i k h = cc
find_at_bounds q qs (c ∷ s) i k h = ground (arith, find_at_bounds q qs s (suc i) k)

get_elem?_bound : (s : Text) (i : ℕ) {c : ℕ} → get_elem? s i ≡ some c → i < length s
get_elem?_bound [] i h = cc
get_elem?_bound (x ∷ s) zero h = omega arith
get_elem?_bound (x ∷ s) (suc i) h = omega (arith, get_elem?_bound s i h)

probe_quote_bound :
    (e : CodeJsonArgsExtractor) (k p : ℕ) → probe_quote e k ≡ start_at p → p ≤ length e.buf
unfolding probe_quote
probe_quote_bound e k p h = elim (Option-cases (get_elem? e.buf k)) [
  | inl out ↦ ground arith
  | inr (d, at) ↦ ground (arith, get_elem?_bound e.buf k at)
]

probe_colon_bound :
    (e : CodeJsonArgsExtractor) (j p : ℕ) → probe_colon e j ≡ start_at p → p ≤ length e.buf
unfolding probe_colon
probe_colon_bound e j p h =
    ground (arith, probe_quote_bound e (skip_space (drop (j + 1) e.buf) (j + 1)) p)

-- A value starts inside the buffer, or at its end.
probe_bound : (e : CodeJsonArgsExtractor) (idx p : ℕ) → probe e idx ≡ start_at p → p ≤ length e.buf
unfolding probe
probe_bound e idx p h =
    let j = idx + length (key_pattern e) in probe_colon_bound e (skip_space (drop j e.buf) j) p h

abbrev pub AtMost : Option ℕ → ℕ → Type 0
AtMost none n = Unit
AtMost (some p) n = p ≤ n

-- A search moves `search_from` alone, and a start that it finds lies within the buffer.
pub record Searched (e : CodeJsonArgsExtractor) (r : CodeJsonArgsExtractor × Option ℕ)
    : Type 0 where
  pub kept : r.0 ≡ record e { search_from = r.0.search_from }
  pub within : AtMost r.1 (length e.buf)

abbrev pub SearchEnds : ℕ → CodeJsonArgsExtractor → Type 0
SearchEnds fuel e =
    (r : CodeJsonArgsExtractor × Option ℕ) × (find_value_start fuel e ≡ some r) × Searched e r

pub data ProbeOutcome (e : CodeJsonArgsExtractor) (idx : ℕ) : Type 0 where
  waits : probe e idx ≡ wait → ProbeOutcome e idx
  retries : probe e idx ≡ retry → ProbeOutcome e idx
  starts : (p : ℕ) → probe e idx ≡ start_at p → ProbeOutcome e idx

outcome_of :
    (e : CodeJsonArgsExtractor) (idx : ℕ) (r : Probe) → probe e idx ≡ r → ProbeOutcome e idx
outcome_of e idx wait h = waits h
outcome_of e idx retry h = retries h
outcome_of e idx (start_at p) h = starts p h

-- One occurrence of the key, by what the probe says of it.
search_at :
    (fuel : ℕ) (e : CodeJsonArgsExtractor) (idx : ℕ)
    → find (key_pattern e) e.buf e.search_from ≡ some idx
    → (probe e idx ≡ retry → SearchEnds fuel (record e { search_from = idx + 1 }))
    → ProbeOutcome e idx
    → SearchEnds (suc fuel) e
unfolding find_value_start
search_at fuel e idx found again (waits h) = (
  (record e { search_from = idx }, none),
  rw (found, h, find_value_start),
  record { kept = refl; within = tt },
)
search_at fuel e idx found again (retries h) =
    let (r, s, k) = again h in
    (r, rw (found, h, find_value_start) s, record { kept = k.kept; within = k.within })
search_at fuel e idx found again (starts p h) = (
  (record e { search_from = p }, some p),
  rw (found, h, find_value_start),
  record { kept = refl; within = probe_bound e idx p h },
)

-- The fuel of `enter_value` is enough.
pub find_value_start_ends :
    (fuel : ℕ) (e : CodeJsonArgsExtractor)
    → 0 < fuel
    → length e.buf + 2 ≤ fuel + e.search_from
    → SearchEnds fuel e
find_value_start_ends zero e p h = absurd (omega arith)
find_value_start_ends (suc fuel) e p h =
    elim (Option-cases (find (key_pattern e) e.buf e.search_from)) [
      | inl out ↦ (
        (record e { search_from = length e.buf - 16 }, none),
        unfold find_value_start in rw (out, find_value_start),
        record { kept = refl; within = tt },
      )
      | inr (idx, found) ↦
          let b =
            find_at_bounds 34 (e.target_key ++ 34 ∷ []) (drop e.search_from e.buf) e.search_from idx
              found in
          search_at fuel e idx found
            (λ _.
              find_value_start_ends fuel (record e { search_from = idx + 1 })
                (omega (arith, b, length-drop e.search_from e.buf)) (omega (arith, b)))
            (outcome_of e idx (probe e idx) refl)
    ]
