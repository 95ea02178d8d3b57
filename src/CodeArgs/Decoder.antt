-- ===== src/CodeArgs/Decoder.antt =====
-- An independent description of what the extractor has to produce: a decoder of the inside of a
-- JSON string, one character after another, with no buffer; and the loop over the characters.
use vllm_responses.Prelude.{
  ℕ, zero, suc, ◌+◌, Text, ◌≡◌, refl, ◌⊎◌, Bool, true, false, [], ◌∷◌, ◌++◌, ◌==◌, if◌then◌else◌,
  length, arith, append_assoc, ◌∙◌, append-nil, Bool-cases, inl, inr,
}
use vllm_responses.CodeArgs.{CodeJsonArgsExtractor, is_hex, int16, unescape, step, scan}

-- `hex k ds`: the digits `ds` of a `\u` escape were read, and `k + 1` are wanted.
pub data Mode : Type 0 where
  plain escaped closed : Mode
  hex : ℕ → Text → Mode

unfoldable pub next : ℕ → Mode → Mode × Text
next ch plain =
    if ch == 92 then (escaped, []) else if ch == 34 then (closed, []) else (plain, ch ∷ [])
next ch escaped = if ch == b'u' then (hex 3 [], []) else (plain, unescape ch ∷ [])
next ch (hex zero ds) = if is_hex ch then (plain, int16 0 (ds ++ ch ∷ []) ∷ []) else (plain, [])
next ch (hex (suc k) ds) = if is_hex ch then (hex k (ds ++ ch ∷ []), []) else (plain, [])
next ch closed = (closed, [])

unfoldable pub decode : Mode → Text → Mode × Text
unfolding next
decode m [] = (m, [])
decode m (ch ∷ s) = let (m', o) = next ch m in let (m'', os) = decode m' s in (m'', o ++ os)

pub decode-closed : (s : Text) → decode closed s ≡ (closed, [])
unfolding decode
decode-closed [] = refl
decode-closed (ch ∷ s) = rw (decode-closed s)

pub decode-append :
    (m : Mode) (s t : Text)
    → decode m (s ++ t)
      ≡ ((decode (decode m s).0 t).0, (decode m s).1 ++ (decode (decode m s).0 t).1)
unfolding decode
decode-append m [] t = refl
decode-append m (ch ∷ s) t =
    let (m', o) = next ch m in
    cc (decode-append m' s t, append_assoc o (decode m' s).1 (decode (decode m' s).0 t).1)

abbrev reading_mode : ℕ → Text → Bool → Mode
reading_mode (suc k) ds escape = hex k ds
reading_mode zero ds true = escaped
reading_mode zero ds false = plain

-- Where in the decoding the extractor stands.
abbrev pub mode : CodeJsonArgsExtractor → Mode
mode e = elim e.done [
  | true ↦ closed
  | false ↦ reading_mode e.unicode_remaining e.unicode_buf e.escape
]

-- An extractor that has found its value: it is done, or its position is the end of the buffer.
pub record IsReading (e : CodeJsonArgsExtractor) : Type 0 where
  pub place : (e.done ≡ true) ⊎ ((e.in_value ≡ true) × (e.pos ≡ length e.buf))
  pub exclusive : (e.unicode_remaining ≡ 0) ⊎ (e.escape ≡ false)

-- What one round of the loop keeps and does.
pub record Steps (e e' : CodeJsonArgsExtractor) (n : ℕ) : Type 0 where
  pub place : (e'.done ≡ true) ⊎ (e'.in_value ≡ true)
  pub pos : (e'.done ≡ true) ⊎ (e'.pos ≡ e.pos + n)
  pub buf : e'.buf ≡ e.buf
  pub exclusive : (e'.unicode_remaining ≡ 0) ⊎ (e'.escape ≡ false)

step-next :
    (ch : ℕ) (e : CodeJsonArgsExtractor)
    → e.done ≡ false
    → e.in_value ≡ true
    → (e.unicode_remaining ≡ 0) ⊎ (e.escape ≡ false)
    → (mode (step ch e).0 ≡ (next ch (mode e)).0)
      × ((step ch e).1 ≡ (next ch (mode e)).1)
      × Steps e (step ch e).0 1
unfolding step next
step-next ch e d v x = (ground arith, ground arith, ground arith)

pub mode_of_done : (e : CodeJsonArgsExtractor) → e.done ≡ true → mode e ≡ closed
mode_of_done e h = ground arith

scan-done :
    (ch : ℕ) (s : Text) (e : CodeJsonArgsExtractor)
    → (step ch e).0.done ≡ true
    → scan (ch ∷ s) e ≡ step ch e
unfolding scan
scan-done ch s e h = rw (h, scan)

scan-more :
    (ch : ℕ) (s : Text) (e : CodeJsonArgsExtractor)
    → (step ch e).0.done ≡ false
    → scan (ch ∷ s) e ≡ ((scan s (step ch e).0).0, (step ch e).1 ++ (scan s (step ch e).0).1)
unfolding scan
scan-more ch s e h = rw (h, scan)

pub decode-cons :
    (ch : ℕ) (s : Text) (m : Mode)
    → decode m (ch ∷ s) ≡ ((decode (next ch m).0 s).0, (next ch m).1 ++ (decode (next ch m).0 s).1)
unfolding decode
decode-cons ch s m = refl

Steps-trans :
    {e e' e'' : CodeJsonArgsExtractor} {n : ℕ}
    → Steps e e' 1
    → e'.done ≡ false
    → Steps e' e'' n
    → Steps e e'' (suc n)
Steps-trans h d k = record {
  place = k.place;
  pos = ground arith;
  buf = k.buf ∙ h.buf;
  exclusive = k.exclusive;
}

Steps-done : {e e' : CodeJsonArgsExtractor} {n k : ℕ} → e'.done ≡ true → Steps e e' n → Steps e e' k
Steps-done d h = record { place = inl d; pos = inl d; buf = h.buf; exclusive = h.exclusive }

still_reading : {e e' : CodeJsonArgsExtractor} → e'.done ≡ false → Steps e e' 1 → e'.in_value ≡ true
still_reading d h = ground arith

-- The loop decodes, and stops at the end of the buffer or at the closing quote.
pub scan-decode :
    (s : Text) (e : CodeJsonArgsExtractor)
    → e.done ≡ false
    → e.in_value ≡ true
    → (e.unicode_remaining ≡ 0) ⊎ (e.escape ≡ false)
    → ((scan s e).1 ≡ (decode (mode e) s).1)
      × (mode (scan s e).0 ≡ (decode (mode e) s).0)
      × Steps e (scan s e).0 (length s)
scan-decode [] e d v x = unfold scan decode in (refl, refl, ground arith)
scan-decode (ch ∷ s) e d v x =
    let (m, o, k) = step-next ch e d v x in
    let e' = (step ch e).0 in
    elim (Bool-cases e'.done) [
      | inl closing ↦
          let c = mode_of_done e' closing in
          rw (scan-done ch s e closing) (
            cc (decode-cons ch s (mode e), m, o, c, decode-closed s, append-nil (step ch e).1),
            cc (decode-cons ch s (mode e), m, c, decode-closed s),
            Steps-done closing k,
          )
      | inr more ↦
          let (o', m', k') = scan-decode s e' more (still_reading more k) k.exclusive in
          rw (scan-more ch s e more) (
            cc (decode-cons ch s (mode e), m, o, o'),
            cc (decode-cons ch s (mode e), m, m'),
            Steps-trans k more k',
          )
    ]
