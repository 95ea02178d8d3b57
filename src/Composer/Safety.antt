-- ===== src/Composer/Safety.antt =====
-- The places that the composer holds: the keys and the reasoning state name item states that
-- exist, and there is a reasoning state once there is a reasoning item.
use vllm_responses.Prelude.{
  Bool, ℕ, ◌<◌, Text, text_eq, ◌≡◌, refl, ap, ◌∙◌, sym, inl, inr, Option, none, some, List, [], ◌∷◌,
  ◌++◌, length, length-append, length-set, arith, Option-cases, Bool-cases,
}
use vllm_responses.Prelude.Dict
use vllm_responses.Prelude.Dict.{Dict, get-put}
use vllm_responses.Events.{NormalizedEvent}
use vllm_responses.Items.{Output, ReasoningItem, ResponsesResponse}
use vllm_responses.Stream.{StreamEvent, output_item, output_item_added}
use vllm_responses.Composer.State.{
  ReasoningEventFormat, ResponseComposer, ItemState, Environment, Action, ◌>>=◌, emit,
  alloc_output_index, uuid7_str, store_item, touch, append_output,
}
use vllm_responses.Composer.Touch.{touch-cases, touch-state}
use vllm_responses.Composer.Sharing.{share_reasoning-none, share_reasoning-some}
use vllm_responses.Composer.Reasoning.{
  share_reasoning, store_reasoning, set_reasoning_item, change_reasoning_item, mark_reasoning_done,
  changed_item,
}
use vllm_responses.Composer.Completion.{set_response}
use vllm_responses.Composer.Rules.{Rules}
use vllm_responses.Composer.Handlers.{run-Tracks}
use vllm_responses.Composer.{new_composer, run, set_started}
use vllm_responses.Composer.Tracks.{IsTrack, Tracks, Tracks-bind}

pub record IsValid (s : ResponseComposer) : Type 0 where
  pub items : (key : Text) (place : ℕ) → Dict.get s.items key ≡ some place → place < length s.states
  pub shared : (place : ℕ) → s.reasoning_state ≡ some place → place < length s.states
  pub present :
      (item : ReasoningItem)
      → s.reasoning_item ≡ some item
      → (place : ℕ) × (s.reasoning_state ≡ some place)

abbrev pub Kept : ResponseComposer → List StreamEvent → ResponseComposer → Type 0
Kept s es s' = IsValid s → IsValid s'

pub Kept-IsTrack : IsTrack Kept
Kept-IsTrack = record { nil = λ s v. v; append = λ s s' s'' es es' h h' v. h' (h v) }

bind :
    {A B : Type 0} (m : Action A) (f : A → Action B)
    → Tracks Kept m
    → ((a : A) → Tracks Kept (f a))
    → Tracks Kept (m >>= f)
bind = Tracks-bind Kept-IsTrack

abbrev Places : Type 0
Places = ℕ × Dict ℕ × Option ℕ × Option ReasoningItem

abbrev places : ResponseComposer → Places
places s = (length s.states, s.items, s.reasoning_state, s.reasoning_item)

pub silent :
    {A : Type 0} (m : Action A)
    → ((s : ResponseComposer) → places (m s).state ≡ places s)
    → Tracks Kept m
silent m h = record {
  at = λ s v.
      let l : length (m s).state.states ≡ length s.states = ap (λ (t : Places). t.0) (h s) in
      let i : (m s).state.items ≡ s.items = ap (λ (t : Places). t.1) (h s) in
      let r : (m s).state.reasoning_state ≡ s.reasoning_state = ap (λ (t : Places). t.2) (h s) in
      let k : (m s).state.reasoning_item ≡ s.reasoning_item = ap (λ (t : Places). t.3) (h s) in
      record {
        items = λ key place e.
            let p = v.items key place (ap (λ (d : Dict ℕ). Dict.get d key) (sym i) ∙ e) in
            omega (arith, l);
        shared = λ place e. let p = v.shared place (sym r ∙ e) in omega (arith, l);
        present = λ item e. let (place, p) = v.present item (sym k ∙ e) in (place, r ∙ p);
      };
}

length-touch :
    (key : Text) (f : ItemState → ItemState) (s : ResponseComposer)
    → length (touch key f s).state.states ≡ length s.states
length-touch key f s = elim (touch-cases key f s) [
  | inl m ↦ rw m.outcome
  | inr t ↦ rw (t.outcome, length-set s.states t.place (f t.before))
]

pub touches : (key : Text) (f : ItemState → ItemState) → Tracks Kept (touch key f)
touches key f =
    silent (touch key f) (λ s. cc (length-touch key f s, ap places (touch-state key f s)))

-- A key put at a place that exists.
put-below :
    (items : Dict ℕ) (key : Text) (place bound : ℕ)
    → place < bound
    → ((k : Text) (p : ℕ) → Dict.get items k ≡ some p → p < bound)
    → (k : Text) (p : ℕ) → Dict.get (Dict.put items key place) k ≡ some p
    → p < bound
put-below items key place bound l h k p e = elim (Bool-cases (text_eq key k)) [
  | inl b ↦ let q : place ≡ p = cc (get-put items key k place, b) in omega (arith, q)
  | inr b ↦ let q : Dict.get items k ≡ some p = cc (get-put items key k place, b) in h k p q
]

-- A new state at the end, under its key.
put-new :
    (s : ResponseComposer) (key : Text) (st : ItemState)
    → IsValid s
    → (k : Text) (p : ℕ) → Dict.get (Dict.put s.items key (length s.states)) k ≡ some p
    → p < length (s.states ++ st ∷ [])
put-new s key st v =
    let l = length-append s.states (st ∷ []) in
    put-below s.items key (length s.states) (length (s.states ++ st ∷ [])) (omega arith)
      (λ k p e. let q = v.items k p e in omega arith)

pub stores : (key : Text) (st : ItemState) → Tracks Kept (store_item key st)
unfolding store_item
stores key st = record {
  at = λ s v.
      let l = length-append s.states (st ∷ []) in
      record {
        items = put-new s key st v;
        shared = λ place e. let q = v.shared place e in omega arith;
        present = v.present;
      };
}

-- The composer behind the storing of a new reasoning item
abbrev pub with_reasoning : ReasoningItem → Text → ItemState → ResponseComposer → ResponseComposer
with_reasoning item key st s =
    let s1 = (append_output (Output.reasoning item) (set_reasoning_item item s).state).state in
    (store_reasoning key st s1).state

pub with_reasoning-IsValid :
    (item : ReasoningItem) (key : Text) (st : ItemState) (s : ResponseComposer)
    → IsValid s
    → IsValid (with_reasoning item key st s)
unfolding set_reasoning_item append_output store_reasoning
with_reasoning-IsValid item key st s v =
    let l = length-append s.states (st ∷ []) in
    record {
      items = put-new s key st v;
      shared = λ place e. let q : length s.states ≡ place = cc in omega arith;
      present = λ item e. (length s.states, refl);
    }

opens_reasoning :
    (i : ℕ) (item : ReasoningItem) (key : Text) (st : ItemState) (m : Action (Unit {0}))
    → Tracks Kept m
    → Tracks Kept (
        set_reasoning_item item >>= λ _.
        append_output (Output.reasoning item) >>= λ _. store_reasoning key st >>= λ _. m)
unfolding set_reasoning_item append_output store_reasoning ◌>>=◌
opens_reasoning i item key st m h = record {
  at = λ s v. h.at (with_reasoning item key st s) (with_reasoning-IsValid item key st s v);
}

pub shares : (key : Text) → Tracks Kept (share_reasoning key)
shares key = record {
  at = λ s v. elim (Option-cases s.reasoning_state) [
    | inl h ↦ rw (share_reasoning-none key s h) v
    | inr (place, h) ↦ rw (share_reasoning-some key s place h) (record {
      items = put-below s.items key place (length s.states) (v.shared place h) v.items;
      shared = v.shared;
      present = v.present;
    })
  ];
}

changed_item-some :
    (o found : Option ReasoningItem) (item : ReasoningItem)
    → changed_item o found ≡ some item
    → (old : ReasoningItem) × (o ≡ some old)
changed_item-some none found item e = elim (Option-cases found) [ inl p ↦ cc | inr p ↦ cc ]
changed_item-some (some old) found item e = (old, refl)

pub changes : (id t : Text) → Tracks Kept (change_reasoning_item id t)
unfolding change_reasoning_item
changes id t = record {
  at = λ s v. record {
    items = v.items;
    shared = v.shared;
    present =
        λ item e. let (old, p) = changed_item-some s.reasoning_item _ item e in v.present old p;
  };
}

added : (i : ℕ) (o : Output) → Tracks Kept (emit (λ n. output_item output_item_added n i o))
unfolding emit
added i o = silent _ (λ s. refl)

pub Kept-Rules : Rules Kept
unfolding emit uuid7_str append_output mark_reasoning_done set_response set_started
    alloc_output_index ◌>>=◌
Kept-Rules = record {
  track = Kept-IsTrack;
  Opens = λ i m. Tracks Kept m;
  alloc = λ k h. bind alloc_output_index k (silent _ (λ s. refl)) h;
  opens_store = λ i key st m h. bind (store_item key st) (λ _. m) (stores key st) (λ _. h);
  opens_uuid = λ i env prefix k h. bind (uuid7_str env prefix) k (silent _ (λ s. refl)) h;
  opens_reasoning = λ i item key st m e h. opens_reasoning i item key st m h;
  opens_added = λ i o m h. bind _ (λ _. m) (added i o) (λ _. h);
  opens_added_last = added;
  finish = λ i o. silent _ (λ s. refl);
  finish_reasoning_item = λ i item. silent _ (λ s. refl);
  part = λ kind id i p. silent _ (λ s. refl);
  text = λ event h. silent _ (λ s. refl);
  stage = λ kind r. silent _ (λ s. refl);
  touches = λ key f h. touches key f;
  uuids = λ env prefix. silent _ (λ s. refl);
  shares = shares;
  changes = changes;
  marks = silent _ (λ s. refl);
  sets_response = λ r. silent _ (λ s. refl);
  sets_started = silent _ (λ s. refl);
}

pub run-IsValid :
    (env : Environment) (events : List NormalizedEvent) (r : ResponsesResponse) (a b : Bool)
    (f : ReasoningEventFormat)
    → IsValid (run env events (new_composer r a b f)).state
unfolding Dict.get
run-IsValid env events r a b f =
    (run-Tracks Kept-Rules env events).at (new_composer r a b f)
      (record { items = λ key place e. cc; shared = λ place e. cc; present = λ item e. cc })
