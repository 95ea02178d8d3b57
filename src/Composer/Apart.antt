-- ===== src/Composer/Apart.antt =====
-- In every state that a run reaches, two keys name the same item state only if it is that of the
-- reasoning item.
use vllm_responses.Prelude.{
  ℕ, Text, ◌≡◌, refl, ap, ◌∙◌, sym, inl, inr, Bool, Option, List, [], ◌∷◌, length, Option-cases,
}
use vllm_responses.Prelude.Dict
use vllm_responses.Prelude.Dict.{Dict, get-put}
use vllm_responses.Events.{NormalizedEvent}
use vllm_responses.Items.{Output, ReasoningItem, ResponsesResponse}
use vllm_responses.Stream.{StreamEvent, output_item, output_item_added}
use vllm_responses.Composer.State.{
  ReasoningEventFormat, ResponseComposer, ItemState, ItemKind, Environment, Action, ◌>>=◌, emit,
  alloc_output_index, uuid7_str, store_item, touch, append_output,
}
use vllm_responses.Composer.Touch.{touch-cases}
use vllm_responses.Composer.Sharing.{share_reasoning-none, share_reasoning-some}
use vllm_responses.Composer.Reasoning.{
  share_reasoning, store_reasoning, set_reasoning_item, change_reasoning_item, mark_reasoning_done,
}
use vllm_responses.Composer.Completion.{set_response}
use vllm_responses.Composer.Rules.{Rules}
use vllm_responses.Composer.Handlers.{run-Tracks}
use vllm_responses.Composer.Safety
use vllm_responses.Composer.Safety.{
  IsValid, Kept, Kept-IsTrack, with_reasoning, with_reasoning-IsValid,
}
use vllm_responses.Composer.Places.{
  IsApart, Held, held, unchanged_places, get_elem?-set, get_elem?-append, put_fresh,
  with_reasoning-IsApart, share_place-IsApart,
}
use vllm_responses.Composer.{new_composer, run, set_started}
use vllm_responses.Composer.Tracks.{IsTrack, Tracks, Tracks-bind}

abbrev KeptApart : ResponseComposer → List StreamEvent → ResponseComposer → Type 0
KeptApart s es s' = Kept s es s' × (IsValid s → IsApart s → IsApart s')

KeptApart-IsTrack : IsTrack KeptApart
KeptApart-IsTrack = record {
  nil = λ s. ((λ v. v), (λ v a. a));
  append = λ s s' s'' es es' h h'. ((λ v. h'.0 (h.0 v)), (λ v a. h'.1 (h.0 v) (h.1 v a)));
}

bind :
    {A B : Type 0} (m : Action A) (f : A → Action B)
    → Tracks KeptApart m
    → ((a : A) → Tracks KeptApart (f a))
    → Tracks KeptApart (m >>= f)
bind = Tracks-bind KeptApart-IsTrack

quiet :
    {A : Type 0} (m : Action A)
    → Tracks Kept m
    → ((s : ResponseComposer) → held (m s).state ≡ held s)
    → Tracks KeptApart m
quiet m k h = record { at = λ s. (k.at s, (λ v a. unchanged_places s (m s).state (h s) a)) }

silent :
    {A : Type 0} (m : Action A)
    → ((s : ResponseComposer)
        → ◌≡◌ {A = Held × Option ReasoningItem}
            (held (m s).state, (m s).state.reasoning_item)
            (held s, s.reasoning_item))
    → Tracks KeptApart m
silent m h =
    quiet m
      (Safety.silent m
        (λ s. ap (λ (t : Held × Option ReasoningItem). (length t.0.0, t.0.1, t.0.2, t.1)) (h s)))
      (λ s. ap (λ (t : Held × Option ReasoningItem). t.0) (h s))

touches :
    (key : Text) (f : ItemState → ItemState)
    → ((st : ItemState) → (f st).kind ≡ st.kind)
    → Tracks KeptApart (touch key f)
touches key f same = record {
  at = λ s. (
    (Safety.touches key f).at s,
    λ v a. elim (touch-cases key f s) [
      | inl m ↦ rw m.outcome a
      | inr t ↦ rw t.outcome (record {
        shared = λ place st e g.
            let (old, g', k) =
              get_elem?-set s.states t.place place t.before (f t.before) st t.held (same t.before)
                g in
            k ∙ a.shared place old e g';
        apart = λ k j place st n e e' g.
            let (old, g', q) =
              get_elem?-set s.states t.place place t.before (f t.before) st t.held (same t.before)
                g in
            q ∙ a.apart k j place old n e e' g';
      })
    ],
  );
}

stores : (key : Text) (st : ItemState) → Tracks KeptApart (store_item key st)
unfolding store_item
stores key new = record {
  at = λ s. (
    (Safety.stores key new).at s,
    λ v a. record {
      shared = λ place st e g.
          a.shared place st e
            (sym (get_elem?-append s.states (new ∷ []) place (v.shared place e)) ∙ g);
      apart = put_fresh s key new v a;
    },
  );
}

opens_reasoning :
    (i : ℕ) (item : ReasoningItem) (key : Text) (st : ItemState) (m : Action (Unit {0}))
    → st.kind ≡ ItemKind.reasoning
    → Tracks KeptApart m
    → Tracks KeptApart (
        set_reasoning_item item >>= λ _.
        append_output (Output.reasoning item) >>= λ _. store_reasoning key st >>= λ _. m)
unfolding set_reasoning_item append_output store_reasoning ◌>>=◌
opens_reasoning i item key st m kind h = record {
  at = λ s.
      let (kept, apart) = h.at (with_reasoning item key st s) in
      (
        (λ v. kept (with_reasoning-IsValid item key st s v)),
        (λ v a.
            apart (with_reasoning-IsValid item key st s v)
              (with_reasoning-IsApart item key st s kind v a)),
      );
}

shares : (key : Text) → Tracks KeptApart (share_reasoning key)
shares key = record {
  at = λ s. (
    (Safety.shares key).at s,
    λ v a. elim (Option-cases s.reasoning_state) [
      | inl h ↦ rw (share_reasoning-none key s h) a
      | inr (place, h) ↦
          rw (share_reasoning-some key s place h) (share_place-IsApart s key place h a)
    ],
  );
}

added : (i : ℕ) (o : Output) → Tracks KeptApart (emit (λ n. output_item output_item_added n i o))
unfolding emit
added i o = silent _ (λ s. refl)

KeptApart-Rules : Rules KeptApart
unfolding emit uuid7_str append_output mark_reasoning_done set_response set_started
    alloc_output_index change_reasoning_item ◌>>=◌
KeptApart-Rules = record {
  track = KeptApart-IsTrack;
  Opens = λ i m. Tracks KeptApart m;
  alloc = λ k h. bind alloc_output_index k (silent _ (λ s. refl)) h;
  opens_store = λ i key st m h. bind (store_item key st) (λ _. m) (stores key st) (λ _. h);
  opens_uuid = λ i env prefix k h. bind (uuid7_str env prefix) k (silent _ (λ s. refl)) h;
  opens_reasoning = opens_reasoning;
  opens_added = λ i o m h. bind _ (λ _. m) (added i o) (λ _. h);
  opens_added_last = added;
  finish = λ i o. silent _ (λ s. refl);
  finish_reasoning_item = λ i item. silent _ (λ s. refl);
  part = λ kind id i p. silent _ (λ s. refl);
  text = λ event h. silent _ (λ s. refl);
  stage = λ kind r. silent _ (λ s. refl);
  touches = touches;
  uuids = λ env prefix. silent _ (λ s. refl);
  shares = shares;
  changes = λ id t. quiet _ (Safety.changes id t) (λ s. refl);
  marks = silent _ (λ s. refl);
  sets_response = λ r. silent _ (λ s. refl);
  sets_started = silent _ (λ s. refl);
}

pub run-IsApart :
    (env : Environment) (events : List NormalizedEvent) (r : ResponsesResponse) (a b : Bool)
    (f : ReasoningEventFormat)
    → IsApart (run env events (new_composer r a b f)).state
unfolding Dict.get
run-IsApart env events r a b f =
    let start = new_composer r a b f in
    ((run-Tracks KeptApart-Rules env events).at start).1
      (record { items = λ key place e. cc; shared = λ place e. cc; present = λ item e. cc })
      (record { shared = λ place st e g. cc; apart = λ k j place st n e e' g. cc })
