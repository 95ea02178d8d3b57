-- ===== src/Prelude/Texts.antt =====
-- Python's `str` as the list of its code points, with equality, `startswith` and `find`.
use Prim.Native.Char.{code}
use Prim.Native.Nat.{ℕ, zero, suc, ◌+◌, ◌/◌, ◌%◌}
use Prim.Native.String.{String}
use mathlib.Core.Path.{◌≡◌, refl}
use mathlib.Core.Bool.{Bool, true, false, ◌&&◌, ◌||◌}
use mathlib.Core.Option.{Option, none, some}
use mathlib.Core.List.{List, [], ◌∷◌, ◌++◌}
use native.Mathlib.Omega.{arith}
use vllm_responses.Prelude.Tests.{◌==◌, leb, ltb, if◌then◌else◌}
use vllm_responses.Prelude.Lists.{drop}

abbrev pub Text : Type 0
Text = List ℕ

-- The code points of a literal.
abbrev pub codes : String → Text
codes String.[] = []
codes (String.◌∷◌ c s) = code c ∷ codes s

abbrev pub is_empty {ℓ} : {A : Type ℓ} → List A → Bool
is_empty [] = true
is_empty (x ∷ xs) = false

abbrev pub text_eq : Text → Text → Bool
text_eq [] [] = true
text_eq [] (d ∷ t) = false
text_eq (c ∷ s) [] = false
text_eq (c ∷ s) (d ∷ t) = c == d && text_eq s t

pub text_eq_refl : (s : Text) → text_eq s s ≡ true
text_eq_refl [] = refl
text_eq_refl (c ∷ s) = ground (arith, text_eq_refl s)

pub eq_of_text_eq : (s t : Text) → text_eq s t ≡ true → s ≡ t
eq_of_text_eq [] [] h = refl
eq_of_text_eq [] (d ∷ t) h = cc
eq_of_text_eq (c ∷ s) [] h = cc
eq_of_text_eq (c ∷ s) (d ∷ t) h = ground (arith, eq_of_text_eq s t)

-- `text.startswith(pattern)`, the pattern first.
abbrev pub starts_with : Text → Text → Bool
starts_with [] s = true
starts_with (p ∷ ps) [] = false
starts_with (p ∷ ps) (c ∷ s) = p == c && starts_with ps s

-- The position of the first occurrence of `pattern`, counted from `i`.
abbrev pub find_at : Text → Text → ℕ → Option ℕ
find_at pattern [] i = if starts_with pattern [] then some i else none
find_at pattern (c ∷ s) i =
    if starts_with pattern (c ∷ s) then some i else find_at pattern s (suc i)

-- `text.find(pattern, from)`; `none` for -1.
abbrev pub find : Text → Text → ℕ → Option ℕ
find pattern text from = find_at pattern (drop from text) from

-- `str.isspace` of one character
unfoldable pub is_whitespace : ℕ → Bool
is_whitespace c =
    leb 9 c && leb c 13
    || (leb 28 c && leb c 32
        || (c == 133
            || (c == 160
                || (c == 5760
                    || (leb 8192 c && leb c 8202
                        || (c == 8232
                            || (c == 8233 || (c == 8239 || (c == 8287 || c == 12288)))))))))

unfoldable pub rstrip : Text → Text
unfolding is_whitespace
rstrip [] = []
rstrip (c ∷ s) = let r = rstrip s in if is_empty r && is_whitespace c then [] else c ∷ r

-- `sep.join(texts)`
unfoldable pub join : Text → List Text → Text
join sep [] = []
join sep (t ∷ []) = t
join sep (t ∷ u ∷ ts) = t ++ (sep ++ join sep (u ∷ ts))

unfoldable pub lstrip : Text → Text
unfolding is_whitespace
lstrip [] = []
lstrip (c ∷ s) = if is_whitespace c then lstrip s else c ∷ s

-- `text.strip()`
unfoldable pub strip : Text → Text
unfolding lstrip rstrip
strip s = rstrip (lstrip s)

-- `text in texts`
abbrev pub member : Text → List Text → Bool
member t [] = false
member t (u ∷ us) = text_eq u t || member t us

-- `str(n)`, on fuel: a number has no more digits than its value.
digits : ℕ → ℕ → Text
digits zero n = []
digits (suc fuel) n =
    let front = digits fuel (n / 10) in
    if ltb n 10 then (48 + n) ∷ [] else front ++ (48 + n % 10) ∷ []

unfoldable pub decimal : ℕ → Text
unfolding digits
decimal n = digits (suc n) n
