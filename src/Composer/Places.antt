-- ===== src/Composer/Places.antt =====
-- The states that the keys name: two keys name the same one only if it is a reasoning item's, which
-- a new state, a shared one and an assignment leave so.
use vllm_responses.Prelude.{
  ℕ, zero, suc, ◌<◌, Text, text_eq, text_eq_refl, eq_of_text_eq, ◌≡◌, refl, ap, ◌∙◌, sym, ◌⊎◌, inl,
  inr, false, Option, some, List, [], ◌∷◌, ◌++◌, length, get_elem?, set, arith, Bool-cases,
}
use vllm_responses.Prelude.Dict
use vllm_responses.Prelude.Dict.{Dict, get-put}
use vllm_responses.Items.{ReasoningItem}
use vllm_responses.Composer.State.{ResponseComposer, ItemState, ItemKind, append_output}
use vllm_responses.Composer.Reasoning.{store_reasoning, set_reasoning_item}
use vllm_responses.Composer.Safety.{IsValid, with_reasoning}

pub record IsApart (s : ResponseComposer) : Type 0 where
  pub shared :
      (place : ℕ) (st : ItemState)
      → s.reasoning_state ≡ some place
      → get_elem? s.states place ≡ some st
      → st.kind ≡ ItemKind.reasoning
  pub apart :
      (k j : Text) (place : ℕ) (st : ItemState)
      → text_eq k j ≡ false
      → Dict.get s.items k ≡ some place
      → Dict.get s.items j ≡ some place
      → get_elem? s.states place ≡ some st
      → st.kind ≡ ItemKind.reasoning

abbrev pub Held : Type 0
Held = List ItemState × Dict ℕ × Option ℕ

abbrev pub held : ResponseComposer → Held
held s = (s.states, s.items, s.reasoning_state)

pub unchanged_places : (s s' : ResponseComposer) → held s' ≡ held s → IsApart s → IsApart s'
unchanged_places s s' h a =
    let l : s'.states ≡ s.states = ap (λ (t : Held). t.0) h in
    let i : s'.items ≡ s.items = ap (λ (t : Held). t.1) h in
    let r : s'.reasoning_state ≡ s.reasoning_state = ap (λ (t : Held). t.2) h in
    record {
      shared = λ place st e g.
          a.shared place st (sym r ∙ e)
            (ap (λ (t : List ItemState). get_elem? t place) (sym l) ∙ g);
      apart = λ k j place st n e e' g.
          a.apart k j place st n (ap (λ (d : Dict ℕ). Dict.get d k) (sym i) ∙ e)
            (ap (λ (d : Dict ℕ). Dict.get d j) (sym i) ∙ e')
            (ap (λ (t : List ItemState). get_elem? t place) (sym l) ∙ g);
    }

pub get_elem?-set :
    (xs : List ItemState) (p q : ℕ) (x y st : ItemState)
    → get_elem? xs p ≡ some x
    → y.kind ≡ x.kind
    → get_elem? (set xs p y) q ≡ some st
    → (old : ItemState) × (get_elem? xs q ≡ some old) × (st.kind ≡ old.kind)
get_elem?-set [] p q x y st h e g = cc
get_elem?-set (z ∷ xs) zero zero x y st h e g = (z, refl, cc)
get_elem?-set (z ∷ xs) zero (suc q) x y st h e g = (st, g, refl)
get_elem?-set (z ∷ xs) (suc p) zero x y st h e g = (st, g, refl)
get_elem?-set (z ∷ xs) (suc p) (suc q) x y st h e g = get_elem?-set xs p q x y st h e g

pub get_elem?-append :
    (xs ys : List ItemState) (i : ℕ) → i < length xs → get_elem? (xs ++ ys) i ≡ get_elem? xs i
get_elem?-append [] ys i h = elim h [ ]
get_elem?-append (x ∷ xs) ys zero h = refl
get_elem?-append (x ∷ xs) ys (suc i) h = get_elem?-append xs ys i (omega arith)

get_elem?-last :
    (xs : List ItemState) (x : ItemState) → get_elem? (xs ++ x ∷ []) (length xs) ≡ some x
get_elem?-last [] x = refl
get_elem?-last (y ∷ xs) x = get_elem?-last xs x

-- A key that is put names the place, and every other key what it named.
get-put-cases :
    (items : Dict ℕ) (key k : Text) (new p : ℕ)
    → Dict.get (Dict.put items key new) k ≡ some p
    → ((key ≡ k) × (p ≡ new)) ⊎ (Dict.get items k ≡ some p)
get-put-cases items key k new p e = elim (Bool-cases (text_eq key k)) [
  | inl b ↦ inl (eq_of_text_eq key k b, cc (get-put items key k new, b))
  | inr b ↦ inr (cc (get-put items key k new, b))
]

same_key : (key k j : Text) → text_eq k j ≡ false → key ≡ k → key ≡ j → ⊥
same_key key k j n e e' = let t = text_eq_refl key in absurd (cc)

-- A new state at the end under its key: no other key names it.
pub put_fresh :
    (s : ResponseComposer) (key : Text) (new : ItemState)
    → IsValid s
    → IsApart s
    → (k j : Text) (place : ℕ) (st : ItemState) → text_eq k j ≡ false
    → Dict.get (Dict.put s.items key (length s.states)) k ≡ some place
    → Dict.get (Dict.put s.items key (length s.states)) j ≡ some place
    → get_elem? (s.states ++ new ∷ []) place ≡ some st
    → st.kind ≡ ItemKind.reasoning
put_fresh s key new v a k j place st n e e' g =
    elim (get-put-cases s.items key k (length s.states) place e) [
      | inl (q, p) ↦ elim (get-put-cases s.items key j (length s.states) place e') [
        | inl (q', p') ↦ elim (same_key key k j n q q') [ ]
        | inr h' ↦ let b = v.items j place h' in absurd (omega (arith, p))
      ]
      | inr h ↦
          let b = v.items k place h in
          elim (get-put-cases s.items key j (length s.states) place e') [
            | inl (q', p') ↦ absurd (omega (arith, p'))
            | inr h' ↦
                a.apart k j place st n h h' (sym (get_elem?-append s.states (new ∷ []) place b) ∙ g)
          ]
    ]

pub with_reasoning-IsApart :
    (item : ReasoningItem) (key : Text) (new : ItemState) (s : ResponseComposer)
    → new.kind ≡ ItemKind.reasoning
    → IsValid s
    → IsApart s
    → IsApart (with_reasoning item key new s)
unfolding set_reasoning_item append_output store_reasoning
with_reasoning-IsApart item key new s kind v a = record {
  shared = λ place st e g.
      let q : length s.states ≡ place = cc in
      let h : get_elem? (s.states ++ new ∷ []) (length s.states) ≡ some st =
        ap (λ (i : ℕ). get_elem? (s.states ++ new ∷ []) i) q ∙ g in
      let same : new ≡ st = cc (get_elem?-last s.states new, h) in
      sym (ap (λ (t : ItemState). t.kind) same) ∙ kind;
  apart = put_fresh s key new v a;
}

-- The key of a later segment joins those of the reasoning state.
pub share_place-IsApart :
    (s : ResponseComposer) (key : Text) (new : ℕ)
    → s.reasoning_state ≡ some new
    → IsApart s
    → IsApart (record s { items = Dict.put s.items key new })
share_place-IsApart s key new r a = record {
  shared = a.shared;
  apart = λ k j place st n e e' g. elim (get-put-cases s.items key k new place e) [
    | inl (q, p) ↦ a.shared place st (r ∙ ap some (sym p)) g
    | inr h ↦ elim (get-put-cases s.items key j new place e') [
      | inl (q', p') ↦ a.shared place st (r ∙ ap some (sym p')) g
      | inr h' ↦ a.apart k j place st n h h' g
    ]
  ];
}
