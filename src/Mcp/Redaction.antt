-- ===== src/Mcp/Redaction.antt =====
-- Secrets in error texts.
use vllm_responses.Prelude.{
  ℕ, zero, suc, ◌-◌, ◌≡◌, ◌∙◌, refl, ◌⊎◌, inl, inr, Text, Bool, true, false, not, ◌&&◌, ◌||◌, ◌==◌,
  Option, some, List, [], ◌∷◌, ◌++◌, take, drop, length, is_empty, strip, lstrip, rstrip,
  starts_with, member, text_eq, eq_of_text_eq, if◌then◌else◌, Bool-cases, arith,
}
use vllm_responses.Mcp.Results.{
  replace, replace_from, stars, redact, redact_and_truncate_error_text, truncate_error_text,
  default_error_text, error_max_chars, or_empty,
}

-- `needle in text`
unfoldable pub contains : Text → Text → Bool
contains needle [] = is_empty needle
contains needle (c ∷ s) = starts_with needle (c ∷ s) || contains needle s

-- A secret that redaction looks for: not empty, and without a star.
abbrev pub starless : Text → Bool
starless [] = true
starless (c ∷ s) = not (c == b'*') && starless s

-- What stands at the start of a redacted text stood at the start of the text.
starts_with-replace_from :
    (p old s : Text) (skip : ℕ)
    → starless p ≡ true
    → starts_with p (replace_from old stars s skip) ≡ true
    → starts_with p (drop skip s) ≡ true
unfolding replace_from
starts_with-replace_from [] old s skip h e = ground arith
starts_with-replace_from (d ∷ p) old [] skip h e = ground arith
starts_with-replace_from (d ∷ p) old (c ∷ s) (suc skip) h e =
    starts_with-replace_from (d ∷ p) old s skip h e
starts_with-replace_from (d ∷ p) old (c ∷ s) zero h e =
    elim (Bool-cases (starts_with old (c ∷ s))) [
      | inl m ↦ ground arith
      | inr m ↦ ground (arith, starts_with-replace_from p old s zero)
    ]

contains-stars :
    (p r : Text) → starless p ≡ true → is_empty p ≡ false → contains p (stars ++ r) ≡ contains p r
unfolding contains
contains-stars [] r h n = cc
contains-stars (c ∷ p) r h n = ground arith

contains-drop :
    (p s : Text) (k : ℕ) → is_empty p ≡ false → contains p s ≡ false → contains p (drop k s) ≡ false
unfolding contains
contains-drop p s zero n e = e
contains-drop p [] (suc k) n e = e
contains-drop p (c ∷ s) (suc k) n e = contains-drop p s k n (ground arith)

-- A character that stays, before a text in which nothing occurs.
contains-kept :
    (p old s : Text) (c : ℕ)
    → starless p ≡ true
    → starts_with old (c ∷ s) ≡ false
    → starts_with p (c ∷ s) ≡ false
    → contains p (replace_from old stars s 0) ≡ false
    → contains p (c ∷ replace_from old stars s 0) ≡ false
unfolding contains
contains-kept [] old s c h m f e = cc
contains-kept (d ∷ p) old s c h m f e = ground (arith, starts_with-replace_from p old s zero)

-- No occurrence of another starless text is made.
contains-replace_from :
    (p old s : Text) (skip : ℕ)
    → starless p ≡ true
    → is_empty p ≡ false
    → contains p (drop skip s) ≡ false
    → contains p (replace_from old stars s skip) ≡ false
unfolding replace_from contains
contains-replace_from p old [] zero h n e = e
contains-replace_from p old [] (suc skip) h n e = e
contains-replace_from p old (c ∷ s) (suc skip) h n e = contains-replace_from p old s skip h n e
contains-replace_from p old (c ∷ s) zero h n e =
    let f : starts_with p (c ∷ s) ≡ false = ground arith in
    let g : contains p s ≡ false = ground arith in
    elim (Bool-cases (starts_with old (c ∷ s))) [
      | inl m ↦
          rw (m, replace_from)
            (contains-stars p _ h n
              ∙ contains-replace_from p old s (length old - 1) h n
                  (contains-drop p s (length old - 1) n g))
      | inr m ↦
          rw (m, replace_from)
            (contains-kept p old s c h m f (contains-replace_from p old s zero h n g))
    ]

-- No occurrence of the text itself is left.
contains-replace_self :
    (p s : Text) (skip : ℕ)
    → starless p ≡ true
    → is_empty p ≡ false
    → contains p (replace_from p stars s skip) ≡ false
unfolding replace_from contains
contains-replace_self p [] skip h n = n
contains-replace_self p (c ∷ s) (suc skip) h n = contains-replace_self p s skip h n
contains-replace_self p (c ∷ s) zero h n = elim (Bool-cases (starts_with p (c ∷ s))) [
  | inl m ↦
      rw (m, replace_from) (contains-stars p _ h n ∙ contains-replace_self p s (length p - 1) h n)
  | inr m ↦ rw (m, replace_from) (contains-kept p p s c h m m (contains-replace_self p s zero h n))
]

contains-replace :
    (p text secret : Text)
    → starless p ≡ true
    → is_empty p ≡ false
    → contains p text ≡ false
    → contains p (if is_empty secret then text else replace secret stars text) ≡ false
unfolding replace
contains-replace p text secret h n e = elim (Bool-cases (is_empty secret)) [
  | inl b ↦ rw b e
  | inr b ↦ rw b (contains-replace_from p secret text 0 h n e)
]

contains-redact :
    (p : Text) (secrets : List Text) (text : Text)
    → starless p ≡ true
    → is_empty p ≡ false
    → contains p text ≡ false
    → contains p (redact text secrets) ≡ false
unfolding redact
contains-redact p [] text h n e = e
contains-redact p (secret ∷ secrets) text h n e =
    contains-redact p secrets (if is_empty secret then text else replace secret stars text) h n
      (contains-replace p text secret h n e)

-- After redaction no secret of the list is left.
contains-redact-member :
    (p : Text) (secrets : List Text) (text : Text)
    → starless p ≡ true
    → is_empty p ≡ false
    → member p secrets ≡ true
    → contains p (redact text secrets) ≡ false
unfolding redact replace
contains-redact-member p [] text h n e = cc
contains-redact-member p (secret ∷ secrets) text h n e = elim (Bool-cases (text_eq secret p)) [
  | inl b ↦
      let q = eq_of_text_eq secret p b in
      let r : contains p (if is_empty secret then text else replace secret stars text) ≡ false =
        rw (q, n) (contains-replace_self p text 0 h n) in
      contains-redact p secrets (if is_empty secret then text else replace secret stars text) h n r
  | inr b ↦
      contains-redact-member p secrets (if is_empty secret then text else replace secret stars text)
        h n (ground arith)
]

-- Cutting a text makes no occurrence.
starts_with-take : (p s : Text) (k : ℕ) → starts_with p (take k s) ≡ true → starts_with p s ≡ true
starts_with-take [] s k e = refl
starts_with-take (d ∷ p) s zero e = cc
starts_with-take (d ∷ p) [] (suc k) e = e
starts_with-take (d ∷ p) (c ∷ s) (suc k) e = ground (arith, starts_with-take p s k)

contains-take :
    (p s : Text) (k : ℕ) → is_empty p ≡ false → contains p s ≡ false → contains p (take k s) ≡ false
unfolding contains
contains-take p s zero n e = n
contains-take p [] (suc k) n e = e
contains-take p (c ∷ s) (suc k) n e =
    ground (arith, contains-take p s k, starts_with-take p (c ∷ s) (suc k))

starts_with-rstrip : (p s : Text) → starts_with p (rstrip s) ≡ true → starts_with p s ≡ true
unfolding rstrip
starts_with-rstrip [] s e = refl
starts_with-rstrip (d ∷ p) [] e = e
starts_with-rstrip (d ∷ p) (c ∷ s) e = ground (arith, starts_with-rstrip p s)

contains-rstrip :
    (p s : Text) → is_empty p ≡ false → contains p s ≡ false → contains p (rstrip s) ≡ false
unfolding contains rstrip
contains-rstrip p [] n e = e
contains-rstrip p (c ∷ s) n e = ground (arith, contains-rstrip p s, starts_with-rstrip p (c ∷ s))

contains-lstrip :
    (p s : Text) → is_empty p ≡ false → contains p s ≡ false → contains p (lstrip s) ≡ false
unfolding contains lstrip
contains-lstrip p [] n e = e
contains-lstrip p (c ∷ s) n e = ground (arith, contains-lstrip p s)

contains-cut :
    (p s : Text) (k : ℕ)
    → is_empty p ≡ false
    → contains p s ≡ false
    → contains p (take k (strip s)) ≡ false
unfolding strip
contains-cut p s k n e =
    contains-take p (rstrip (lstrip s)) k n
      (contains-rstrip p (lstrip s) n (contains-lstrip p s n e))

truncate_cases :
    (text : Text)
    → (truncate_error_text (some text) ≡ take error_max_chars default_error_text)
      ⊎ (truncate_error_text (some text) ≡ take error_max_chars (strip text))
unfolding truncate_error_text
truncate_cases text = elim (Bool-cases (is_empty (strip text))) [
  | inl b ↦ inl (rw b)
  | inr b ↦ inr (rw b)
]

-- A redacted error text is the fixed default text or holds no secret: no text of the list of
-- secrets that is not empty and has no star in it, wherever the secrets overlap, and whatever the
-- cut of the text leaves of it.
pub contains-redact_and_truncate_error_text :
    (text : Option Text) (secrets : List Text) (secret : Text)
    → member secret secrets ≡ true
    → is_empty secret ≡ false
    → starless secret ≡ true
    → let shown = redact_and_truncate_error_text text secrets in
      (shown ≡ take error_max_chars default_error_text) ⊎ (contains secret shown ≡ false)
unfolding redact_and_truncate_error_text
contains-redact_and_truncate_error_text text secrets secret m n h =
    let redacted = redact (or_empty text) secrets in
    elim (truncate_cases redacted) [
      | inl e ↦ inl e
      | inr e ↦ inr (
          rw e (
            contains-cut secret redacted error_max_chars n
              (contains-redact-member secret secrets (or_empty text) h n m)))
    ]
