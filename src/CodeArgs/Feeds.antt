-- ===== src/CodeArgs/Feeds.antt =====
-- `feed` against the decoder: however the text of the value is cut into fragments, the code deltas
-- are those of the decoder, and the rounds of both loops end within their fuel.
use vllm_responses.Prelude.{
  ℕ, suc, ◌+◌, ◌≤◌, Text, ◌≡◌, refl, ap, ◌∙◌, ◌⊎◌, inl, inr, true, false, Option, none, some, List,
  [], ◌∷◌, ◌++◌, ltb, length, drop, concat, arith, append-nil, Bool-cases, drop-length-append,
  drop-eq_nil, length-drop, length-append,
}
use vllm_responses.CodeArgs.{
  CodeJsonArgsExtractor, scan, find_value_start, enter_value, rounds, trim, feed, feed_all,
}
use vllm_responses.CodeArgs.Decoder.{
  decode, decode-closed, decode-append, mode, IsReading, Steps, scan-decode, mode_of_done,
}

-- The buffer is cut off behind the position.
abbrev cut : CodeJsonArgsExtractor → CodeJsonArgsExtractor
cut e = record e { buf = drop e.pos e.buf; search_from = 0; pos = 0 }

abbrev scanned : CodeJsonArgsExtractor → CodeJsonArgsExtractor × Text
scanned e1 = scan (drop e1.pos e1.buf) e1

round_short :
    (fuel : ℕ) (e : CodeJsonArgsExtractor) {e1 : CodeJsonArgsExtractor}
    → e.done ≡ false
    → enter_value e ≡ some (e1, true)
    → ltb 4096 (scanned e1).0.pos ≡ false
    → rounds (suc fuel) e ≡ some (scanned e1)
unfolding rounds
round_short fuel e d v h = rw (d, v, h, rounds)

round_long :
    (fuel : ℕ) (e : CodeJsonArgsExtractor) {e1 : CodeJsonArgsExtractor}
    → e.done ≡ false
    → enter_value e ≡ some (e1, true)
    → ltb 4096 (scanned e1).0.pos ≡ true
    → rounds fuel (cut (scanned e1).0) ≡ some (cut (scanned e1).0, [])
    → rounds (suc fuel) e ≡ some (cut (scanned e1).0, (scanned e1).1)
unfolding rounds
round_long fuel e d v h k = rw (d, v, h, rounds) (rw k (rw append-nil))

scan_cut : (s : CodeJsonArgsExtractor) → drop s.pos s.buf ≡ [] → scanned (cut s) ≡ (cut s, [])
unfolding scan
scan_cut s h = ap (λ (t : Text). scan t (cut s)) h

enter_cut :
    (s : CodeJsonArgsExtractor) → s.in_value ≡ true → enter_value (cut s) ≡ some (cut s, true)
unfolding enter_value
enter_cut s h = rw h

round_done :
    (fuel : ℕ) (e : CodeJsonArgsExtractor) → e.done ≡ true → rounds (suc fuel) e ≡ some (e, [])
unfolding rounds
round_done fuel e h = ground arith

-- The round after the buffer was used up.
round_idle :
    (fuel : ℕ) (s : CodeJsonArgsExtractor)
    → (s.done ≡ true) ⊎ ((s.done ≡ false) × (s.in_value ≡ true) × (drop s.pos s.buf ≡ []))
    → rounds (suc fuel) (cut s) ≡ some (cut s, [])
round_idle fuel s (inl d) = round_done fuel (cut s) d
round_idle fuel s (inr (d, v, b)) =
    round_short fuel (cut s) d (enter_cut s v) (rw (scan_cut s b)) ∙ ap some (scan_cut s b)

used_up :
    (e1 s : CodeJsonArgsExtractor)
    → e1.pos ≤ length e1.buf
    → Steps e1 s (length (drop e1.pos e1.buf))
    → s.done ≡ false
    → s.pos ≡ length s.buf
used_up e1 s w k d = ground (arith, length-drop e1.pos e1.buf)

after_scan :
    (e1 s : CodeJsonArgsExtractor)
    → e1.pos ≤ length e1.buf
    → Steps e1 s (length (drop e1.pos e1.buf))
    → (s.done ≡ true) ⊎ ((s.done ≡ false) × (s.in_value ≡ true) × (s.pos ≡ length s.buf))
after_scan e1 s w k = elim (Bool-cases s.done) [
  | inl d ↦ inl d
  | inr d ↦ inr (d, ground arith, used_up e1 s w k d)
]

abbrev After : CodeJsonArgsExtractor → Type 0
After s = (s.done ≡ true) ⊎ ((s.done ≡ false) × (s.in_value ≡ true) × (s.pos ≡ length s.buf))

idle-After :
    (s : CodeJsonArgsExtractor)
    → After s
    → (s.done ≡ true) ⊎ ((s.done ≡ false) × (s.in_value ≡ true) × (drop s.pos s.buf ≡ []))
idle-After s (inl d) = inl d
idle-After s (inr (d, v, p)) = inr (d, v, drop-eq_nil s.pos s.buf (omega arith))

place-cut :
    (s : CodeJsonArgsExtractor)
    → After s
    → (s.done ≡ true) ⊎ ((s.in_value ≡ true) × (0 ≡ length (drop s.pos s.buf)))
place-cut s (inl d) = inl d
place-cut s (inr (d, v, p)) = inr (v, omega (arith, length-drop s.pos s.buf))

place-After :
    (s : CodeJsonArgsExtractor)
    → After s
    → (s.done ≡ true) ⊎ ((s.in_value ≡ true) × (s.pos ≡ length s.buf))
place-After s (inl d) = inl d
place-After s (inr (d, v, p)) = inr (v, p)

-- From the moment the value is entered: the deltas are those of the decoder.
pub rounds-decode :
    (e e1 : CodeJsonArgsExtractor)
    → e.done ≡ false
    → enter_value e ≡ some (e1, true)
    → e1.done ≡ false
    → e1.in_value ≡ true
    → e1.pos ≤ length e1.buf
    → (e1.unicode_remaining ≡ 0) ⊎ (e1.escape ≡ false)
    → (e' : CodeJsonArgsExtractor) × (rounds 3 e
        ≡ some (e', (decode (mode e1) (drop e1.pos e1.buf)).1))
      × IsReading e'
      × (mode e' ≡ (decode (mode e1) (drop e1.pos e1.buf)).0)
rounds-decode e e1 d v d1 v1 w x =
    let (o, m, k) = scan-decode (drop e1.pos e1.buf) e1 d1 v1 x in
    let s = (scanned e1).0 in
    let a = after_scan e1 s w k in
    elim (Bool-cases (ltb 4096 s.pos)) [
      | inl far ↦ (
        cut s,
        round_long 2 e d v far (round_idle 1 s (idle-After s a))
            ∙ ap (λ (t : Text). some (cut s, t)) o,
        record { place = place-cut s a; exclusive = k.exclusive },
        m,
      )
      | inr near ↦ (
        s,
        round_short 2 e d v near ∙ ap (λ (t : Text). some (s, t)) o,
        record { place = place-After s a; exclusive = k.exclusive },
        m,
      )
    ]

open_place :
    (e : CodeJsonArgsExtractor)
    → e.done ≡ false
    → IsReading e
    → (e.in_value ≡ true) × (e.pos ≡ length e.buf)
open_place e d h = elim h.place [ inl d' ↦ cc | inr p ↦ p ]

enter_reading :
    (e : CodeJsonArgsExtractor) (chunk : Text)
    → e.in_value ≡ true
    → enter_value (record e { buf = e.buf ++ chunk })
      ≡ some (record e { buf = e.buf ++ chunk }, true)
unfolding enter_value
enter_reading e chunk h = rw h

pub trim_reading : (e : CodeJsonArgsExtractor) → IsReading e → trim e ≡ e
unfolding trim
trim_reading e h = ground arith

pub enter_value-eq :
    (e : CodeJsonArgsExtractor) {e' : CodeJsonArgsExtractor} {start : ℕ}
    → e.in_value ≡ false
    → find_value_start (length e.buf + 2) e ≡ some (e', some start)
    → enter_value e ≡ some (record e' { in_value = true; pos = start }, true)
unfolding enter_value
enter_value-eq e v h = rw (h, enter_value) (rw v)

-- What `feed` does to an extractor that has found its value.
abbrev pub Decodes : CodeJsonArgsExtractor → Text → Option (CodeJsonArgsExtractor × Text) → Type 0
Decodes e s r =
    (e' : CodeJsonArgsExtractor) × (r ≡ some (e', (decode (mode e) s).1))
    × IsReading e'
    × (mode e' ≡ (decode (mode e) s).0)

pub feed-nil : (e : CodeJsonArgsExtractor) → feed e [] ≡ some (e, [])
unfolding feed
feed-nil e = ground arith

pub feed-done :
    (e : CodeJsonArgsExtractor) (chunk : Text) → e.done ≡ true → feed e chunk ≡ some (e, [])
unfolding feed
feed-done e chunk h = ground arith

feed-cons :
    (e : CodeJsonArgsExtractor) (c : ℕ) (chunk : Text)
    → e.done ≡ false
    → feed e (c ∷ chunk) ≡ elim (rounds 3 (record e { buf = e.buf ++ (c ∷ chunk) })) [
      | none ↦ none
      | some (e', out) ↦ some (trim e', out)
    ]
unfolding feed
feed-cons e c chunk h = ground arith

pub feed-rounds :
    (e : CodeJsonArgsExtractor) (c : ℕ) (chunk : Text) {e' : CodeJsonArgsExtractor} {out : Text}
    → e.done ≡ false
    → rounds 3 (record e { buf = e.buf ++ (c ∷ chunk) }) ≡ some (e', out)
    → feed e (c ∷ chunk) ≡ some (trim e', out)
feed-rounds e c chunk h r = rw (feed-cons e c chunk h) (rw r)

feed_closed :
    (e : CodeJsonArgsExtractor) (s : Text) → e.done ≡ true → IsReading e → Decodes e s (feed e s)
feed_closed e s d h =
    let k = decode-closed s in
    let m = mode_of_done e d in (e, feed-done e s d ∙ cc (k, m), h, cc (k, m))

feed_open :
    (e : CodeJsonArgsExtractor) (c : ℕ) (s : Text)
    → e.done ≡ false
    → IsReading e
    → Decodes e (c ∷ s) (feed e (c ∷ s))
feed_open e c s d h =
    let (v, p) = open_place e d h in
    let ec = record e { buf = e.buf ++ (c ∷ s) } in
    let w : e.pos ≤ length ec.buf = omega (arith, p, length-append e.buf (c ∷ s)) in
    let q : drop e.pos ec.buf ≡ c ∷ s =
      ap (λ (n : ℕ). drop n ec.buf) p ∙ drop-length-append e.buf (c ∷ s) in
    let (e', r, h', m) = rounds-decode ec ec d (enter_reading e (c ∷ s) v) d v w h.exclusive in
    (e', feed-rounds e c s d r ∙ cc (q, trim_reading e' h'), h', cc (m, q))

pub feed-decode :
    (e : CodeJsonArgsExtractor) (chunk : Text) → IsReading e → Decodes e chunk (feed e chunk)
feed-decode e [] h = unfold decode in (e, feed-nil e, h, refl)
feed-decode e (c ∷ chunk) h = elim (Bool-cases e.done) [
  | inl d ↦ feed_closed e (c ∷ chunk) d h
  | inr d ↦ feed_open e c chunk d h
]

pub feed_all-cons :
    (e : CodeJsonArgsExtractor) (chunk : Text) (chunks : List Text) {e1 e2 : CodeJsonArgsExtractor}
    {o1 o2 : Text}
    → feed e chunk ≡ some (e1, o1)
    → feed_all e1 chunks ≡ some (e2, o2)
    → feed_all e (chunk ∷ chunks) ≡ some (e2, o1 ++ o2)
unfolding feed_all
feed_all-cons e chunk chunks r r2 = rw (r, feed_all) (rw r2)

pub feed_all-nil : (e : CodeJsonArgsExtractor) → feed_all e [] ≡ some (e, [])
unfolding feed_all
feed_all-nil e = refl

-- From an extractor that has found its value, and that a sequence of calls can leave behind
-- (`Decoding`), feeding fragments returns, yields what the decoder of the module Decoder yields on
-- the joined text, and stands where that decoder stands.
pub feed_all-decode :
    (e : CodeJsonArgsExtractor) (chunks : List Text)
    → IsReading e
    → Decodes e (concat chunks) (feed_all e chunks)
feed_all-decode e [] h = unfold feed_all decode in (e, refl, h, refl)
feed_all-decode e (chunk ∷ chunks) h =
    let (e1, r, h1, m) = feed-decode e chunk h in
    let (e2, r2, h2, m2) = feed_all-decode e1 chunks h1 in
    let a = decode-append (mode e) chunk (concat chunks) in
    (e2, feed_all-cons e chunk chunks r r2 ∙ cc (a, m), h2, cc (a, m, m2))
