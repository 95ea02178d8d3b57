-- ===== src/Prelude/Dict.antt =====
-- Python's `dict` with text keys, as an association list. The program does not iterate over the
-- dictionaries modelled here, so the order of the entries is not modelled.
use mathlib.Core.Path.{◌≡◌, refl, sym}
use mathlib.Core.Logic.{◌⊎◌, inl, inr}
use mathlib.Core.Bool.{false}
use mathlib.Core.Option.{Option, none, some}
use mathlib.Core.List.{List, [], ◌∷◌}
use native.Mathlib.Omega.{arith}
use vllm_responses.Prelude.Tests.{if◌then◌else◌, Bool-cases}
use vllm_responses.Prelude.Texts.{Text, text_eq, text_eq_refl, eq_of_text_eq}

abbrev pub Dict {ℓ} : Type ℓ → Type ℓ
Dict V = List (Text × V)

module _ {ℓ} {V : Type ℓ} where
  -- d.get(k)
  unfoldable pub get : Dict V → Text → Option V
  get [] k = none
  get ((j, v) ∷ d) k = if text_eq j k then some v else get d k

  -- d[k] = v
  unfoldable pub put : Dict V → Text → V → Dict V
  put [] k v = (k, v) ∷ []
  put ((j, w) ∷ d) k v = if text_eq j k then (k, v) ∷ d else (j, w) ∷ put d k v

  pub get-put_self : (d : Dict V) (k : Text) (v : V) → get (put d k v) k ≡ some v
  unfolding get put
  get-put_self [] k v = ground (arith, text_eq_refl k)
  get-put_self ((j, w) ∷ d) k v = ground (arith, text_eq_refl k, get-put_self d k v)

  pub get-put :
      (d : Dict V) (k j : Text) (v : V)
      → get (put d k v) j ≡ (if text_eq k j then some v else get d j)
  unfolding get put
  get-put [] k j v = refl
  get-put ((i, w) ∷ d) k j v = ground (
    arith,
    get-put d k j v,
    eq_of_text_eq i k,
    eq_of_text_eq i j,
    eq_of_text_eq k j,
    text_eq_refl k,
    text_eq_refl j,
  )

  -- d.pop(k, None), what is left; without `k` nothing happens.
  unfoldable pub delete : Dict V → Text → Dict V
  delete [] k = []
  delete ((j, v) ∷ d) k = if text_eq j k then delete d k else (j, v) ∷ delete d k

  pub get-delete :
      (d : Dict V) (k j : Text) → get (delete d k) j ≡ (if text_eq k j then none else get d j)
  unfolding get delete
  get-delete [] k j = ground arith
  get-delete ((i, w) ∷ d) k j = ground (
    arith,
    get-delete d k j,
    eq_of_text_eq i k,
    eq_of_text_eq i j,
    eq_of_text_eq k j,
    text_eq_refl k,
    text_eq_refl j,
  )

  -- What a look-up behind `d[k] = v` finds.
  pub get-put_cases :
      (d : Dict V) (k j : Text) (v w : V)
      → get (put d k v) j ≡ some w
      → ((j ≡ k) × (w ≡ v)) ⊎ ((text_eq k j ≡ false) × (get d j ≡ some w))
  get-put_cases d k j v w h = elim (Bool-cases (text_eq k j)) [
    | inl e ↦ inl (sym (eq_of_text_eq k j e), ground (arith, get-put d k j v))
    | inr e ↦ inr (e, ground (arith, get-put d k j v))
  ]
