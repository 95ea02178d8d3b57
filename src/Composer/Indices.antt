-- ===== src/Composer/Indices.antt =====
-- The output indices of the items that the stream opens.
use vllm_responses.Prelude.{
  Bool, ℕ, suc, ◌+◌, Text, ◌≡◌, refl, ap, ◌∙◌, sym, List, [], ◌∷◌, ◌++◌, length, arith,
}
use vllm_responses.Events.{NormalizedEvent}
use vllm_responses.Items.{Output, ResponsesResponse}
use vllm_responses.Stream.{
  StreamEvent, added_indices, output_item, output_item_added, output_item_done, lifecycle,
  content_part, text_event,
}
use vllm_responses.Composer.State.{
  ReasoningEventFormat, ResponseComposer, ItemState, Environment, Action, ◌>>=◌, emit,
  alloc_output_index, uuid7_str, store_item, touch, append_output,
}
use vllm_responses.Composer.Sharing.{share_reasoning-events, share_reasoning-state}
use vllm_responses.Composer.Touch.{touch-events, touch-state}
use vllm_responses.Composer.Reasoning.{
  store_reasoning, set_reasoning_item, change_reasoning_item, mark_reasoning_done,
}
use vllm_responses.Composer.Completion.{set_response}
use vllm_responses.Composer.Rules.{Rules}
use vllm_responses.Composer.Handlers.{run-Tracks}
use vllm_responses.Composer.{new_composer, run, set_started}
use vllm_responses.Composer.Tracks.{IsTrack, Tracks}
use vllm_responses.Composer.Numbering.{count_up, count_up-append, length-count_up}

added_indices-append :
    (es es' : List StreamEvent) → added_indices (es ++ es') ≡ added_indices es ++ added_indices es'
unfolding added_indices
added_indices-append [] es' = refl
added_indices-append (output_item output_item_added n i o ∷ es) es' =
    ap (λ (t : List ℕ). i ∷ t) (added_indices-append es es')
added_indices-append (output_item output_item_done n i o ∷ es) es' = added_indices-append es es'
added_indices-append (lifecycle k n r ∷ es) es' = added_indices-append es es'
added_indices-append (content_part k id n i p ∷ es) es' = added_indices-append es es'
added_indices-append (text_event e ∷ es) es' = added_indices-append es es'

-- The events open items with the indices from the state's on, and the state is left behind the
-- last one.
record Indices (s : ResponseComposer) (es : List StreamEvent) (s' : ResponseComposer) : Type 0 where
  count : ℕ
  indices : added_indices es ≡ count_up s.next_output_index count
  next : s'.next_output_index ≡ s.next_output_index + count

append_at :
    (s s' s'' : ResponseComposer) (es es' : List StreamEvent)
    → Indices s es s'
    → Indices s' es' s''
    → Indices s (es ++ es') s''
append_at s s' s'' es es' h h' =
    let n = s.next_output_index in
    record {
      count = h.count + h'.count;
      indices = cc (
        added_indices-append es es',
        h.indices,
        h'.indices,
        h.next,
        count_up-append n h.count h'.count,
      );
      next = omega (arith, h.next, h'.next);
    }

Indices-IsTrack : IsTrack Indices
unfolding added_indices
Indices-IsTrack = record {
  nil = λ s. record { count = 0; indices = refl; next = omega arith };
  append = append_at;
}

-- The events open the item of that index first, and then those of the indices from the state's
-- on.
record Opened (index : ℕ) (s : ResponseComposer) (es : List StreamEvent) (s' : ResponseComposer)
    : Type 0 where
  count : ℕ
  indices : added_indices es ≡ index ∷ count_up s.next_output_index count
  next : s'.next_output_index ≡ s.next_output_index + count

record IsOpening (index : ℕ) (m : Action (Unit {0})) : Type 0 where
  at : (s : ResponseComposer) → Opened index s (m s).events (m s).state

silent :
    {A : Type 0} (m : Action A)
    → ((s : ResponseComposer) → added_indices (m s).events ≡ [])
    → ((s : ResponseComposer) → (m s).state.next_output_index ≡ s.next_output_index)
    → Tracks Indices m
silent m h n = record { at = λ s. record { count = 0; indices = h s; next = omega (arith, n s) } }

touches : (key : Text) (f : ItemState → ItemState) → Tracks Indices (touch key f)
unfolding added_indices
touches key f =
    silent (touch key f) (λ s. rw (touch-events key f s))
      (λ s. ap (λ (t : ResponseComposer). t.next_output_index) (touch-state key f s))

allocates :
    (k : ℕ → Action (Unit {0}))
    → ((i : ℕ) → IsOpening i (k i))
    → Tracks Indices (alloc_output_index >>= k)
unfolding alloc_output_index ◌>>=◌
allocates k h = record {
  at = λ s.
      let n = s.next_output_index in
      let o = (h n).at (record s { next_output_index = n + 1 }) in
      let p : n + 1 ≡ suc n = omega arith in
      record {
        count = suc o.count;
        indices = o.indices ∙ ap (λ (t : ℕ). n ∷ count_up t o.count) p;
        next = omega (arith, o.next);
      };
}

opens :
    (i : ℕ) (o : Output) (m : Action (Unit {0}))
    → Tracks Indices m
    → IsOpening i (emit (λ n. output_item output_item_added n i o) >>= λ _. m)
unfolding emit ◌>>=◌ added_indices
opens i o m h = record {
  at = λ s.
      let r = h.at (record s { sequence_number = s.sequence_number + 1 }) in
      record { count = r.count; indices = ap (λ (t : List ℕ). i ∷ t) r.indices; next = r.next };
}

-- Every action of a handler opens items at the indices that it allocates.
Indices-Rules : Rules Indices
unfolding added_indices ◌>>=◌ emit uuid7_str store_item append_output store_reasoning
    set_reasoning_item change_reasoning_item mark_reasoning_done set_response set_started
Indices-Rules = record {
  track = Indices-IsTrack;
  Opens = IsOpening;
  alloc = allocates;
  opens_store = λ i key st m h. record {
    at = λ s.
        let o = h.at (store_item key st s).state in
        record { count = o.count; indices = o.indices; next = o.next };
  };
  opens_uuid = λ i env prefix k h. record {
    at = λ s.
        let o = (h (prefix ++ env.uuid7 s.uuids)).at (uuid7_str env prefix s).state in
        record { count = o.count; indices = o.indices; next = o.next };
  };
  opens_reasoning = λ i item key st m e h. record {
    at = λ s.
        let s1 = (append_output (Output.reasoning item) (set_reasoning_item item s).state).state in
        let o = h.at (store_reasoning key st s1).state in
        record { count = o.count; indices = o.indices; next = o.next };
  };
  opens_added = opens;
  opens_added_last =
      λ i o. record { at = λ s. record { count = 0; indices = refl; next = omega arith } };
  finish = λ i o. silent _ (λ s. refl) (λ s. refl);
  finish_reasoning_item = λ i item. silent _ (λ s. refl) (λ s. refl);
  part = λ kind id i p. silent _ (λ s. refl) (λ s. refl);
  text = λ event h. silent _ (λ s. refl) (λ s. refl);
  stage = λ kind r. silent _ (λ s. refl) (λ s. refl);
  touches = λ key f h. touches key f;
  uuids = λ env prefix. silent _ (λ s. refl) (λ s. refl);
  shares = λ key.
      silent _ (λ s. rw (share_reasoning-events key s))
        (λ s. ap (λ (t : ResponseComposer). t.next_output_index) (share_reasoning-state key s));
  changes = λ id t. silent _ (λ s. refl) (λ s. refl);
  marks = silent _ (λ s. refl) (λ s. refl);
  sets_response = λ r. silent _ (λ s. refl) (λ s. refl);
  sets_started = silent _ (λ s. refl) (λ s. refl);
}

-- The items that a new composer opens, for whatever normalized events and up to the first
-- exception if there is one, have the output indices 0, 1, 2 and so on, and `_next_output_index`
-- is their number.
pub run-added_indices :
    (env : Environment) (events : List NormalizedEvent) (r : ResponsesResponse) (a b : Bool)
    (f : ReasoningEventFormat)
    → let o = run env events (new_composer r a b f) in
      (added_indices o.events ≡ count_up 0 o.state.next_output_index)
      × (o.state.next_output_index ≡ length (added_indices o.events))
run-added_indices env events r a b f =
    let h = (run-Tracks Indices-Rules env events).at (new_composer r a b f) in
    let p = h.indices in
    let q = h.next in
    let c : h.count ≡ (run env events (new_composer r a b f)).state.next_output_index =
      omega (arith, q) in
    let d : added_indices (run env events (new_composer r a b f)).events
        ≡ count_up 0 (run env events (new_composer r a b f)).state.next_output_index =
      p ∙ ap (count_up 0) c in
    (d, sym (ap (length {A = ℕ}) d ∙ length-count_up 0 _))
