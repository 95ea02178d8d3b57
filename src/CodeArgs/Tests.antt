-- ===== src/CodeArgs/Tests.antt =====
-- Runs of the extractor, and the theorems at concrete fragments.
use vllm_responses.Prelude.{
  true, codes, ◌≡◌, refl, inl, inr, Option, List, ◌∷◌, [], ◌++◌, some, Text, arith, replicate,
  concat,
}
use mathlib.Core.Option
use vllm_responses.CodeArgs.{
  is_hex, int16, unescape, feed_all, feed, new_extractor, CodeJsonArgsExtractor,
}
use vllm_responses.CodeArgs.Feeds.{Decodes, feed_all-decode}
use vllm_responses.CodeArgs.Escaping.{Encodes, Escapes, nothing, literal, short}
use vllm_responses.CodeArgs.Handshake.{feed_all-Encodes}
use vllm_responses.CodeArgs.Surrogates.{feed_all-surrogates}
use vllm_responses.CodeArgs.Total.{feed_all_total}
use vllm_responses.CodeArgs.Window.{feed_all-skips}

abbrev outputs : Option (CodeJsonArgsExtractor × Text) → Option Text
outputs = Option.map (λ r. r.1)

abbrev fragments : List Text
fragments = codes "{\"co" ∷ codes "de\":\"p\\" ∷ codes "n\"}" ∷ []

split_value :
    outputs (
      feed_all
        (new_extractor (codes "code"))
        (codes "{\"co" ∷ codes "de\": \"pr" ∷ codes "int(1)\\" ∷ codes "n\"}" ∷ []))
    ≡ some (codes "print(1)\n")
unfolding feed_all feed is_hex int16 unescape
split_value = refl

p_and_newline : Encodes (b'p' ∷ 10 ∷ []) (codes "p\\n")
p_and_newline =
    literal b'p' (omega arith) (omega arith)
      (short b'n' 10 (inr (inr (inr (inr (inr (inl (refl, refl))))))) nothing)

feed_all-Encodes_example :
    (e' : CodeJsonArgsExtractor) × (feed_all (new_extractor (codes "code")) fragments
      ≡ some (e', b'p' ∷ 10 ∷ []))
feed_all-Encodes_example =
    feed_all-Encodes (b'p' ∷ 10 ∷ []) (codes "p\\n") (codes "}") fragments p_and_newline refl

-- U+1F600 in two fragments.
abbrev grin : List Text
grin = codes "{\"code\":\"a\\ud83d" ∷ codes "\\uDE00b\"}" ∷ []

feed_all-surrogates_example :
    (e' : CodeJsonArgsExtractor) × (feed_all (new_extractor (codes "code")) grin
      ≡ some (e', 97 ∷ 55357 ∷ 56832 ∷ 98 ∷ []))
feed_all-surrogates_example =
    feed_all-surrogates 128512 (codes "a") (codes "a") (codes "b") (codes "b") (codes "\\ud83d")
      (codes "\\uDE00") (codes "}") grin (omega arith) (omega arith)
      (Encodes.literal 97 (λ p. omega (arith, p)) (λ p. omega (arith, p)) Encodes.nothing)
      (Escapes.escape 100 56 51 100 13 8 3 13 55357 (inr (inl (refl, omega arith, omega arith)))
        (inl (refl, omega arith)) (inl (refl, omega arith))
        (inr (inl (refl, omega arith, omega arith))) refl)
      (Escapes.escape 68 69 48 48 13 14 0 0 56832 (inr (inr (refl, omega arith, omega arith)))
        (inr (inr (refl, omega arith, omega arith))) (inl (refl, omega arith))
        (inl (refl, omega arith)) refl)
      (Encodes.literal 98 (λ p. omega (arith, p)) (λ p. omega (arith, p)) Encodes.nothing) refl

feed_all_total_example :
    (e' : CodeJsonArgsExtractor) × (out : Text) × (feed_all (new_extractor (codes "code")) fragments
      ≡ some (e', out))
feed_all_total_example = feed_all_total (codes "code") fragments

abbrev inner : CodeJsonArgsExtractor
inner = record (new_extractor (codes "code")) {
  buf = codes "{\"code\":\"";
  search_from = 9;
  in_value = true;
  pos = 9;
}

feed_all-decode_example : Decodes inner (concat fragments) (feed_all inner fragments)
feed_all-decode_example =
    feed_all-decode inner fragments (record { place = inr (refl, refl); exclusive = inl refl })

-- 300 characters, then the key with its value: nothing is extracted.
feed_all-skips_example :
    (e' : CodeJsonArgsExtractor) × (feed_all
        (new_extractor (codes "code"))
        (replicate 300 b'x' ∷ codes "\"code\":\"1\"" ∷ [])
      ≡ some (e', []))
feed_all-skips_example =
    feed_all-skips (codes "code") (replicate 300 b'x') (codes "\"code\":\"1\"") refl (omega arith)

-- The same text in one fragment.
unsplit :
    outputs (
      feed_all (new_extractor (codes "code")) ((replicate 300 b'x' ++ codes "\"code\":\"1\"") ∷ []))
    ≡ some (codes "1")
unfolding feed_all feed is_hex int16 unescape
unsplit = refl
