-- ===== src/Composer/Keys.antt =====
-- The keys that the composer knows: a handler forgets none, and the composer stays started.
use vllm_responses.Prelude.{
  ℕ, Text, ◌≡◌, refl, ap, inl, inr, Bool, true, false, Option, none, some, List, length,
  Option-cases, arith,
}
use vllm_responses.Prelude.Dict
use vllm_responses.Prelude.Dict.{Dict, get-put}
use vllm_responses.Items.{Output, ReasoningItem}
use vllm_responses.Stream.{StreamEvent, output_item, output_item_added}
use vllm_responses.Composer.State.{
  ResponseComposer, ItemState, Action, ◌>>=◌, emit, alloc_output_index, uuid7_str, store_item,
  touch, append_output,
}
use vllm_responses.Composer.Touch.{touch-state}
use vllm_responses.Composer.Sharing.{share_reasoning-none, share_reasoning-some}
use vllm_responses.Composer.Reasoning.{
  share_reasoning, store_reasoning, set_reasoning_item, change_reasoning_item, mark_reasoning_done,
}
use vllm_responses.Composer.Completion.{set_response}
use vllm_responses.Composer.Rules.{Rules}
use vllm_responses.Composer.{set_started}
use vllm_responses.Composer.Tracks.{IsTrack, Tracks, Tracks-bind}

abbrev pub is_some {ℓ} : {A : Type ℓ} → Option A → Bool
is_some none = false
is_some (some a) = true

-- `key in items`
abbrev pub has : Dict ℕ → Text → Bool
has items key = is_some (Dict.get items key)

abbrev pub Grown : ResponseComposer → List StreamEvent → ResponseComposer → Type 0
Grown s es s' =
    ((key : Text) → has s.items key ≡ true → has s'.items key ≡ true)
    × (s.started ≡ true → s'.started ≡ true)

pub has-put :
    (items : Dict ℕ) (k key : Text) (place : ℕ)
    → has items key ≡ true
    → has (Dict.put items k place) key ≡ true
has-put items k key place h = ground (arith, get-put items k key place)

pub has-put_self : (items : Dict ℕ) (k : Text) (place : ℕ) → has (Dict.put items k place) k ≡ true
has-put_self items k place = rw (Dict.get-put_self items k place)

Grown-IsTrack : IsTrack Grown
Grown-IsTrack = record {
  nil = λ s. ((λ key h. h), (λ h. h));
  append = λ s s' s'' es es' h h'. ((λ key k. h'.0 key (h.0 key k)), (λ k. h'.1 (h.1 k)));
}

bind :
    {A B : Type 0} (m : Action A) (f : A → Action B)
    → Tracks Grown m
    → ((a : A) → Tracks Grown (f a))
    → Tracks Grown (m >>= f)
bind = Tracks-bind Grown-IsTrack

silent :
    {A : Type 0} (m : Action A)
    → ((s : ResponseComposer) → (m s).state.items ≡ s.items)
    → ((s : ResponseComposer) → s.started ≡ true → (m s).state.started ≡ true)
    → Tracks Grown m
silent m h k = record { at = λ s. ((λ key e. rw (h s) e), k s) }

shares : (key : Text) → Tracks Grown (share_reasoning key)
shares key = record {
  at = λ s. elim (Option-cases s.reasoning_state) [
    | inl h ↦ rw (share_reasoning-none key s h) ((λ k e. e), (λ e. e))
    | inr (place, h) ↦
        rw (share_reasoning-some key s place h) ((λ k e. has-put s.items key k place e), (λ e. e))
  ];
}

touches : (key : Text) (f : ItemState → ItemState) → Tracks Grown (touch key f)
touches key f =
    silent (touch key f) (λ s. ap (λ (t : ResponseComposer). t.items) (touch-state key f s))
      (λ s e. cc (e, ap (λ (t : ResponseComposer). t.started) (touch-state key f s)))

stores : (key : Text) (st : ItemState) → Tracks Grown (store_item key st)
unfolding store_item
stores key st = record { at = λ s. ((λ k e. has-put s.items key k (length s.states) e), (λ e. e)) }

opens_reasoning :
    (i : ℕ) (item : ReasoningItem) (key : Text) (st : ItemState) (m : Action (Unit {0}))
    → Tracks Grown m
    → Tracks Grown (
        set_reasoning_item item >>= λ _.
        append_output (Output.reasoning item) >>= λ _. store_reasoning key st >>= λ _. m)
unfolding set_reasoning_item append_output store_reasoning
opens_reasoning i item key st m h =
    bind (set_reasoning_item item) _ (silent _ (λ s. refl) (λ s e. e)) (λ _.
      bind (append_output (Output.reasoning item)) _ (silent _ (λ s. refl) (λ s e. e)) (λ _.
        bind (store_reasoning key st) (λ _. m)
          (record { at = λ s. ((λ k e. has-put s.items key k (length s.states) e), (λ e. e)) })
          (λ _. h)))

added : (i : ℕ) (o : Output) → Tracks Grown (emit (λ n. output_item output_item_added n i o))
unfolding emit
added i o = silent _ (λ s. refl) (λ s e. e)

pub Grown-Rules : Rules Grown
unfolding emit uuid7_str append_output mark_reasoning_done set_response set_started
    alloc_output_index change_reasoning_item ◌>>=◌
Grown-Rules = record {
  track = Grown-IsTrack;
  Opens = λ i m. Tracks Grown m;
  alloc = λ k h. bind alloc_output_index k (silent _ (λ s. refl) (λ s e. e)) h;
  opens_store = λ i key st m h. bind (store_item key st) (λ _. m) (stores key st) (λ _. h);
  opens_uuid =
      λ i env prefix k h. bind (uuid7_str env prefix) k (silent _ (λ s. refl) (λ s e. e)) h;
  opens_reasoning = λ i item key st m e h. opens_reasoning i item key st m h;
  opens_added = λ i o m h. bind _ (λ _. m) (added i o) (λ _. h);
  opens_added_last = added;
  finish = λ i o. silent _ (λ s. refl) (λ s e. e);
  finish_reasoning_item = λ i item. silent _ (λ s. refl) (λ s e. e);
  part = λ kind id i p. silent _ (λ s. refl) (λ s e. e);
  text = λ event h. silent _ (λ s. refl) (λ s e. e);
  stage = λ kind r. silent _ (λ s. refl) (λ s e. e);
  touches = λ key f h. touches key f;
  uuids = λ env prefix. silent _ (λ s. refl) (λ s e. e);
  shares = shares;
  changes = λ id t. silent _ (λ s. refl) (λ s e. e);
  marks = silent _ (λ s. refl) (λ s e. e);
  sets_response = λ r. silent _ (λ s. refl) (λ s e. e);
  sets_started = silent _ (λ s. refl) (λ s e. refl);
}
