-- ===== src/CodeArgs/Escaping.antt =====
-- What the JSON text of a string means (RFC 8259, section 7), and that the decoder reads it.
use vllm_responses.Prelude.{
  append-nil, ℕ, ◌+◌, ◌*◌, ◌≤◌, ◌<◌, Text, ◌≡◌, ◌≢◌, refl, ◌⊎◌, true, [], ◌∷◌, ◌++◌, arith,
}
use vllm_responses.CodeArgs.{is_hex, hex_value, int16, unescape}
use vllm_responses.CodeArgs.Decoder.{
  plain, escaped, closed, hex, next, decode, decode-cons, decode-closed,
}

-- `\ch` stands for `v`.
abbrev pub IsShortEscape : ℕ → ℕ → Type 0
IsShortEscape ch v =
    ((ch ≡ 34) × (v ≡ 34))
    ⊎ (((ch ≡ 92) × (v ≡ 92))
        ⊎ (((ch ≡ 47) × (v ≡ 47))
            ⊎ (((ch ≡ b'b') × (v ≡ 8))
                ⊎ (((ch ≡ b'f') × (v ≡ 12))
                    ⊎ (((ch ≡ b'n') × (v ≡ 10))
                        ⊎ (((ch ≡ b'r') × (v ≡ 13)) ⊎ ((ch ≡ b't') × (v ≡ 9))))))))

-- `c` is a hexadecimal digit of value `v`.
abbrev pub IsHexDigit : ℕ → ℕ → Type 0
IsHexDigit c v =
    ((c ≡ 48 + v) × (v ≤ 9))
    ⊎ (((c ≡ 87 + v) × (10 ≤ v) × (v ≤ 15)) ⊎ ((c ≡ 55 + v) × (10 ≤ v) × (v ≤ 15)))

-- `Encodes s t`: the JSON text `t`, between quotes, is the string `s`. A `\u` escape of a
-- surrogate is no character by itself and is left out.
pub data Encodes : Text → Text → Type 0 where
  nothing : Encodes [] []
  literal : {s t : Text} (c : ℕ) → c ≢ 34 → c ≢ 92 → Encodes s t → Encodes (c ∷ s) (c ∷ t)
  short : {s t : Text} (ch v : ℕ) → IsShortEscape ch v → Encodes s t → Encodes (v ∷ s) (92 ∷ ch ∷ t)
  unicode :
      {s t : Text} (a b c d va vb vc vd v : ℕ)
      → IsHexDigit a va
      → IsHexDigit b vb
      → IsHexDigit c vc
      → IsHexDigit d vd
      → v ≡ va * 4096 + vb * 256 + vc * 16 + vd
      → (v < 55296) ⊎ (57344 ≤ v)
      → Encodes s t
      → Encodes (v ∷ s) (92 ∷ b'u' ∷ a ∷ b ∷ c ∷ d ∷ t)

hex_digit : (c v : ℕ) → IsHexDigit c v → (is_hex c ≡ true) × (hex_value c ≡ v)
unfolding is_hex hex_value
hex_digit c v h = ground arith

next_literal : (c : ℕ) → c ≢ 34 → c ≢ 92 → next c plain ≡ (plain, c ∷ [])
unfolding next
next_literal c q b = ground arith

next_short : (ch v : ℕ) → IsShortEscape ch v → next ch escaped ≡ (plain, v ∷ [])
unfolding next unescape
next_short ch v h = ground arith

decode_unicode :
    (a b c d va vb vc vd : ℕ) (t : Text)
    → IsHexDigit a va
    → IsHexDigit b vb
    → IsHexDigit c vc
    → IsHexDigit d vd
    → decode (hex 3 []) (a ∷ b ∷ c ∷ d ∷ t)
      ≡ ((decode plain t).0, (va * 4096 + vb * 256 + vc * 16 + vd) ∷ (decode plain t).1)
unfolding decode int16
decode_unicode a b c d va vb vc vd t ha hb hc hd =
    ground (arith, hex_digit a va ha, hex_digit b vb hb, hex_digit c vc hc, hex_digit d vd hd)

decode_backslash : (s : Text) → decode plain (92 ∷ s) ≡ decode escaped s
unfolding decode
decode_backslash s = refl

decode_u : (s : Text) → decode escaped (b'u' ∷ s) ≡ decode (hex 3 []) s
unfolding decode
decode_u s = refl

-- The decoder reads every JSON text of a string as this string.
pub decode-append :
    {s t : Text} (x : Text)
    → Encodes s t
    → decode plain (t ++ x) ≡ ((decode plain x).0, s ++ (decode plain x).1)
decode-append x nothing = refl
decode-append x (literal {t = t} c q b e) =
    let ih = decode-append x e in
    rw (decode-cons c (t ++ x) plain) (rw (next_literal c q b) (rw ih))
decode-append x (short {t = t} ch v h e) =
    let ih = decode-append x e in
    rw (decode_backslash (ch ∷ (t ++ x)))
      (rw (decode-cons ch (t ++ x) escaped) (rw (next_short ch v h) (rw ih)))
decode-append x (unicode {t = t} a b c d va vb vc vd v ha hb hc hd p _ e) =
    let ih = decode-append x e in
    rw (decode_backslash (b'u' ∷ a ∷ b ∷ c ∷ d ∷ (t ++ x))) (
      rw (decode_u (a ∷ b ∷ c ∷ d ∷ (t ++ x)))
        (rw (decode_unicode a b c d va vb vc vd (t ++ x) ha hb hc hd) (rw ih (rw p))))

-- It stops at the closing quote.
pub decode-Encodes :
    {s t : Text} (rest : Text) → Encodes s t → decode plain (t ++ (34 ∷ rest)) ≡ (closed, s)
decode-Encodes {s = s} rest e =
    rw (decode-append (34 ∷ rest) e) (unfold decode in rw (decode-closed rest, append-nil s))

-- `Escapes v t`: the text `t` is a `\u` escape of the code unit `v`, in any case of its digits.
pub data Escapes : ℕ → Text → Type 0 where
  escape :
      (a b c d va vb vc vd v : ℕ)
      → IsHexDigit a va
      → IsHexDigit b vb
      → IsHexDigit c vc
      → IsHexDigit d vd
      → v ≡ va * 4096 + vb * 256 + vc * 16 + vd
      → Escapes v (92 ∷ b'u' ∷ a ∷ b ∷ c ∷ d ∷ [])

pub decode-Escapes :
    {v : ℕ} {t : Text} (x : Text)
    → Escapes v t
    → decode plain (t ++ x) ≡ ((decode plain x).0, v ∷ (decode plain x).1)
decode-Escapes x (escape a b c d va vb vc vd v ha hb hc hd p) =
    rw (decode_backslash (b'u' ∷ a ∷ b ∷ c ∷ d ∷ x)) (
      rw (decode_u (a ∷ b ∷ c ∷ d ∷ x))
        (rw (decode_unicode a b c d va vb vc vd x ha hb hc hd) (rw p)))
