-- ===== src/Normalizer/Thinking.antt =====
-- The deltas of raw reasoning.
use vllm_responses.Prelude.{
  Text, ◌≡◌, refl, sym, ap, ◌∙◌, true, List, [], ◌∷◌, ◌++◌, concat, starts_with, drop-length-append,
  append_assoc, append-nil, arith,
}
use vllm_responses.Normalizer.Reasoning.{chunk_delta, diff_raw_reasoning_text}

starts_with-append : (p s : Text) → starts_with p (p ++ s) ≡ true
starts_with-append [] s = refl
starts_with-append (c ∷ p) s = ground (arith, starts_with-append p s)

chunk_delta-append : (p s : Text) → chunk_delta p (p ++ s) ≡ s
unfolding chunk_delta
chunk_delta-append p s = rw (starts_with-append p s) (drop-length-append p s)

-- The chunks so far are kept, and the last of them may go on.
abbrev pub grown : List Text → Text → List Text → List Text
grown [] d more = d ∷ more
grown (t ∷ []) d more = (t ++ d) ∷ more
grown (t ∷ u ∷ ts) d more = t ∷ grown (u ∷ ts) d more

diff-new : (more : List Text) → diff_raw_reasoning_text [] more ≡ concat more
unfolding diff_raw_reasoning_text chunk_delta
diff-new [] = refl
diff-new (c ∷ cs) = ap (λ (t : Text). c ++ t) (diff-new cs)

chunk_delta_self : (t : Text) → chunk_delta t t ≡ []
chunk_delta_self t = ap (chunk_delta t) (sym (append-nil t)) ∙ chunk_delta-append t []

-- When the raw reasoning grows in its last chunk and by new chunks, what has been sent of it and the
-- new delta make the whole text: nothing is lost, repeated or out of place.
pub concat-diff_raw_reasoning_text :
    (previous : List Text) (d : Text) (more : List Text)
    → concat previous ++ diff_raw_reasoning_text previous (grown previous d more)
      ≡ concat (grown previous d more)
unfolding diff_raw_reasoning_text
concat-diff_raw_reasoning_text [] d more = diff-new (d ∷ more)
concat-diff_raw_reasoning_text (t ∷ []) d more =
    rw (append-nil t, chunk_delta-append t d, diff-new more) (sym (append_assoc t d (concat more)))
concat-diff_raw_reasoning_text (t ∷ u ∷ ts) d more = rw (chunk_delta_self t) (
    append_assoc t (u ++ concat ts) (diff_raw_reasoning_text (u ∷ ts) (grown (u ∷ ts) d more))
    ∙ ap (λ (x : Text). t ++ x) (concat-diff_raw_reasoning_text (u ∷ ts) d more))
