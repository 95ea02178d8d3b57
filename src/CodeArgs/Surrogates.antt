-- ===== src/CodeArgs/Surrogates.antt =====
-- A character above U+FFFF that JSON text gives by two `\u` escapes.
use vllm_responses.Prelude.{
  ◌∙◌, ℕ, ◌+◌, ◌-◌, ◌/◌, ◌%◌, ◌≤◌, Text, ◌≡◌, false, some, List, ◌∷◌, ◌++◌, concat, codes, arith,
}
use vllm_responses.CodeArgs.{CodeJsonArgsExtractor, new_extractor, feed_all}
use vllm_responses.CodeArgs.Escaping.{
  Encodes, Escapes, decode-append, decode-Escapes, decode-Encodes,
}
use vllm_responses.CodeArgs.Handshake.{header, handshake}

abbrev pub high_surrogate : ℕ → ℕ
high_surrogate c = 55296 + (c - 65536) / 1024

abbrev pub low_surrogate : ℕ → ℕ
low_surrogate c = 56320 + (c - 65536) % 1024

-- A character above U+FFFF in the value, written as the two `\u` escapes of its surrogates, in any
-- case of their digits, between texts that have no escape of a surrogate, directly behind the header
-- `{"code":"`: the deltas are the text before, the two surrogates as code points, not the character,
-- and the text behind it, however all this is cut and whatever follows the closing quote.
pub feed_all-surrogates :
    (c : ℕ) (s t s' t' u w rest : Text) (chunks : List Text)
    → 65536 ≤ c
    → c ≤ 1114111
    → Encodes s t
    → Escapes (high_surrogate c) u
    → Escapes (low_surrogate c) w
    → Encodes s' t'
    → concat chunks ≡ header ++ (t ++ (u ++ (w ++ (t' ++ (34 ∷ rest)))))
    → (e' : CodeJsonArgsExtractor) × (feed_all (new_extractor (codes "code")) chunks
        ≡ some (e', s ++ (high_surrogate c ∷ low_surrogate c ∷ s')))
feed_all-surrogates c s t s' t' u w rest chunks l h before high low behind e =
    let (e', r) =
      handshake 0 false chunks (t ++ (u ++ (w ++ (t' ++ (34 ∷ rest))))) (omega arith) e in
    (
      e',
      r
          ∙ cc (
            decode-append (u ++ (w ++ (t' ++ (34 ∷ rest)))) before,
            decode-Escapes (w ++ (t' ++ (34 ∷ rest))) high,
            decode-Escapes (t' ++ (34 ∷ rest)) low,
            decode-Encodes rest behind,
          ),
    )
