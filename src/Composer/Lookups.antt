-- ===== src/Composer/Lookups.antt =====
-- Look-ups in the states that a run reaches.
use vllm_responses.Prelude.{
  Bool, true, false, text_eq, set, ℕ, zero, suc, ◌<◌, Text, ◌≡◌, refl, ap, ◌∙◌, inl, inr, ◌⊎◌,
  Option, some, List, [], ◌∷◌, length, get_elem?, arith, Option-cases,
}
use vllm_responses.Prelude.Dict
use vllm_responses.Prelude.Dict.{Dict, get-put}
use vllm_responses.Prelude.Result.{Result, ok}
use vllm_responses.Events.{NormalizedEvent}
use vllm_responses.Items.{ReasoningItem, ResponsesResponse}
use vllm_responses.Composer.State.{
  ReasoningEventFormat, ResponseComposer, ItemState, ItemKind, Environment, Error, Outcome, ◌>>=◌,
  emit, alloc_output_index, uuid7_str, touch, append_output,
}
use vllm_responses.Composer.Touch.{touch-cases, touch-some}
use vllm_responses.Composer.Sharing.{share_reasoning-some}
use vllm_responses.Composer.Reasoning.{
  store_reasoning, set_reasoning_item, start_reasoning, start_reasoning_at, create_reasoning,
}
use vllm_responses.Composer.{new_composer, run}
use vllm_responses.Composer.Safety.{IsValid}
use vllm_responses.Composer.Places.{IsApart}
use vllm_responses.Composer.Apart.{run-IsApart}

pub get_elem?-below :
    {A : Type 0} (xs : List A) (i : ℕ) → i < length xs → (x : A) × (get_elem? xs i ≡ some x)
get_elem?-below [] i h = elim h [ ]
get_elem?-below (x ∷ xs) zero h = (x, refl)
get_elem?-below (x ∷ xs) (suc i) h = get_elem?-below xs i (omega arith)

pub start_reasoning-IsValid :
    (env : Environment) (key : Text) (s : ResponseComposer)
    → IsValid s
    → (start_reasoning env key s).result ≡ ok tt
unfolding start_reasoning start_reasoning_at create_reasoning ◌>>=◌ uuid7_str alloc_output_index
    set_reasoning_item append_output store_reasoning emit
start_reasoning-IsValid env key s v = elim (Option-cases s.reasoning_item) [
  | inl h ↦ ap (λ (o : Option ReasoningItem). (start_reasoning_at env key o s).result) h
  | inr (item, h) ↦
      let (place, p) = v.present item h in
      ap (λ (o : Option ReasoningItem). (start_reasoning_at env key o s).result) h
      ∙ ap (λ (o : Outcome (Unit {0})). o.result) (share_reasoning-some key s place p)
]

get_elem?-set_self :
    {A : Type 0} (xs : List A) (i : ℕ) (x y : A)
    → get_elem? xs i ≡ some x
    → get_elem? (set xs i y) i ≡ some y
get_elem?-set_self [] i x y h = cc
get_elem?-set_self (z ∷ xs) zero x y h = refl
get_elem?-set_self (z ∷ xs) (suc i) x y h = get_elem?-set_self xs i x y h

get_elem?-set_other :
    {A : Type 0} (xs : List A) (i j : ℕ) (x y : A)
    → get_elem? xs j ≡ some x
    → (i ≡ j) ⊎ (get_elem? (set xs i y) j ≡ some x)
get_elem?-set_other [] i j x y h = inr h
get_elem?-set_other (z ∷ xs) zero zero x y h = inl refl
get_elem?-set_other (z ∷ xs) zero (suc j) x y h = inr h
get_elem?-set_other (z ∷ xs) (suc i) zero x y h = inr h
get_elem?-set_other (z ∷ xs) (suc i) (suc j) x y h = elim (get_elem?-set_other xs i j x y h) [
  | inl e ↦ inl (ap suc e)
  | inr e ↦ inr e
]

-- The state that a key names, looked up without an assignment
abbrev pub look_up : Text → ResponseComposer → Result Error ItemState
look_up key s = (touch key (λ st. st) s).result

abbrev pub is_reasoning_kind : ItemKind → Bool
is_reasoning_kind ItemKind.reasoning = true
is_reasoning_kind _ = false

looked_up :
    (key : Text) (s : ResponseComposer) (st : ItemState)
    → look_up key s ≡ ok st
    → (place : ℕ) × (Dict.get s.items key ≡ some place) × (get_elem? s.states place ≡ some st)
looked_up key s st h = elim (touch-cases key (λ st. st) s) [
  | inl m ↦ absurd (cc (ap (λ (o : Outcome ItemState). o.result) m.outcome))
  | inr t ↦
      let e = ap (λ (o : Outcome ItemState). o.result) t.outcome in
      let same : t.before ≡ st = cc in (t.place, t.known, t.held ∙ ap some same)
]

-- In every state that a run of a new composer reaches: an assignment to the item of a key is what
-- the key's item then is, and the item that any other key names stays as it is, unless it is the
-- reasoning item, whose segments share their state.
pub run-touch :
    (env : Environment) (events : List NormalizedEvent) (r : ResponsesResponse) (a b : Bool)
    (f : ReasoningEventFormat) (s : ResponseComposer) (key other : Text)
    (change : ItemState → ItemState) (before st : ItemState)
    → (run env events (new_composer r a b f)).state ≡ s
    → text_eq key other ≡ false
    → look_up key s ≡ ok before
    → look_up other s ≡ ok st
    → is_reasoning_kind st.kind ≡ false
    → ((touch key change s).result ≡ ok (change before))
      × (look_up key (touch key change s).state ≡ ok (change before))
      × (look_up other (touch key change s).state ≡ ok st)
run-touch env events r a b f s key other change before st reached n h h' plain =
    let valid : IsApart s = rw (← reached) (run-IsApart env events r a b f) in
    let apart = valid.apart in
    let (place, known, found) = looked_up key s before h in
    let (place', known', found') = looked_up other s st h' in
    let o = touch-some key change s place before known found in
    elim (get_elem?-set_other s.states place place' st (change before) found') [
      | inl e ↦
          let shared : Dict.get s.items key ≡ some place' = known ∙ ap some e in
          let kind = ap is_reasoning_kind (apart key other place' st n shared known' found') in
          absurd (cc)
      | inr stays ↦
          let self = get_elem?-set_self s.states place before (change before) found in
          rw o (
            refl,
            ap (λ (o : Outcome ItemState). o.result)
                (touch-some key (λ t. t) _ place (change before) known self),
            ap (λ (o : Outcome ItemState). o.result)
                (touch-some other (λ t. t) _ place' st known' stays),
          )
    ]
