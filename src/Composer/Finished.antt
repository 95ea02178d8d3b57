-- ===== src/Composer/Finished.antt =====
-- The items that the stream finishes, and those of the final response.
use vllm_responses.Prelude.{
  true, ℕ, Text, ◌≡◌, refl, ap, ◌∙◌, sym, List, [], ◌∷◌, ◌++◌, arith, append-nil, append_assoc,
}
use vllm_responses.Items.{Output, ReasoningItem}
use vllm_responses.Stream.{
  StreamEvent, done_items, output_item, output_item_added, output_item_done, lifecycle,
  content_part, text_event,
}
use vllm_responses.Composer.State.{
  ResponseComposer, ItemState, Action, ◌>>=◌, emit, alloc_output_index, uuid7_str, store_item,
  touch, append_output,
}
use vllm_responses.Composer.Sharing.{share_reasoning-events, share_reasoning-state}
use vllm_responses.Composer.Touch.{touch-events, touch-state}
use vllm_responses.Composer.Reasoning.{
  store_reasoning, set_reasoning_item, change_reasoning_item, mark_reasoning_done, finish_reasoning,
}
use vllm_responses.Composer.Completion.{set_response}
use vllm_responses.Composer.Rules.{Rules}
use vllm_responses.Composer.{set_started}
use vllm_responses.Composer.Tracks.{IsTrack, Tracks, Tracks-bind}

-- The items but the reasoning items.
abbrev pub without_reasoning : List Output → List Output
without_reasoning [] = []
without_reasoning (Output.reasoning item ∷ os) = without_reasoning os
without_reasoning (o ∷ os) = o ∷ without_reasoning os

without_reasoning-append :
    (os os' : List Output)
    → without_reasoning (os ++ os') ≡ without_reasoning os ++ without_reasoning os'
without_reasoning-append [] os' = refl
without_reasoning-append (Output.reasoning item ∷ os) os' = without_reasoning-append os os'
without_reasoning-append (Output.message item ∷ os) os' = rw (without_reasoning-append os os')
without_reasoning-append (Output.function_call item ∷ os) os' = rw (without_reasoning-append os os')
without_reasoning-append (Output.custom_tool_call item ∷ os) os' =
    rw (without_reasoning-append os os')
without_reasoning-append (Output.code_interpreter_call item ∷ os) os' =
    rw (without_reasoning-append os os')
without_reasoning-append (Output.web_search_call item ∷ os) os' =
    rw (without_reasoning-append os os')
without_reasoning-append (Output.mcp_call item ∷ os) os' = rw (without_reasoning-append os os')

without_reasoning-finish_reasoning :
    (id t : Text) (os : List Output)
    → without_reasoning (finish_reasoning id t os).0 ≡ without_reasoning os
unfolding finish_reasoning
without_reasoning-finish_reasoning id t [] = refl
without_reasoning-finish_reasoning id t (Output.reasoning item ∷ os) =
    ground (arith, without_reasoning-finish_reasoning id t os)
without_reasoning-finish_reasoning id t (Output.message item ∷ os) =
    rw (without_reasoning-finish_reasoning id t os)
without_reasoning-finish_reasoning id t (Output.function_call item ∷ os) =
    rw (without_reasoning-finish_reasoning id t os)
without_reasoning-finish_reasoning id t (Output.custom_tool_call item ∷ os) =
    rw (without_reasoning-finish_reasoning id t os)
without_reasoning-finish_reasoning id t (Output.code_interpreter_call item ∷ os) =
    rw (without_reasoning-finish_reasoning id t os)
without_reasoning-finish_reasoning id t (Output.web_search_call item ∷ os) =
    rw (without_reasoning-finish_reasoning id t os)
without_reasoning-finish_reasoning id t (Output.mcp_call item ∷ os) =
    rw (without_reasoning-finish_reasoning id t os)

done_items-append :
    (es es' : List StreamEvent) → done_items (es ++ es') ≡ done_items es ++ done_items es'
unfolding done_items
done_items-append [] es' = refl
done_items-append (output_item output_item_done n i o ∷ es) es' =
    ap (λ (t : List Output). o ∷ t) (done_items-append es es')
done_items-append (output_item output_item_added n i o ∷ es) es' = done_items-append es es'
done_items-append (lifecycle k n r ∷ es) es' = done_items-append es es'
done_items-append (content_part k id n i p ∷ es) es' = done_items-append es es'
done_items-append (text_event e ∷ es) es' = done_items-append es es'

-- The items put into the output are those that the events finish, reasoning apart; a composer
-- that has started stays so.
pub record Finished (s : ResponseComposer) (es : List StreamEvent) (s' : ResponseComposer)
    : Type 0 where
  pub items :
      without_reasoning s'.output_items
      ≡ without_reasoning s.output_items ++ without_reasoning (done_items es)
  pub started : s.started ≡ true → s'.started ≡ true

append_at :
    (s s' s'' : ResponseComposer) (es es' : List StreamEvent)
    → Finished s es s'
    → Finished s' es' s''
    → Finished s (es ++ es') s''
append_at s s' s'' es es' h h' = record {
  items = cc (
    h.items,
    h'.items,
    done_items-append es es',
    without_reasoning-append (done_items es) (done_items es'),
    append_assoc (without_reasoning s.output_items) (without_reasoning (done_items es))
        (without_reasoning (done_items es')),
  );
  started = λ p. h'.started (h.started p);
}

Finished-IsTrack : IsTrack Finished
unfolding done_items
Finished-IsTrack = record {
  nil = λ s. record { items = sym (append-nil _); started = λ p. p };
  append = append_at;
}

bind :
    {A B : Type 0} (m : Action A) (f : A → Action B)
    → Tracks Finished m
    → ((a : A) → Tracks Finished (f a))
    → Tracks Finished (m >>= f)
bind = Tracks-bind Finished-IsTrack

silent :
    {A : Type 0} (m : Action A)
    → ((s : ResponseComposer) → done_items (m s).events ≡ [])
    → ((s : ResponseComposer)
        → without_reasoning (m s).state.output_items ≡ without_reasoning s.output_items)
    → ((s : ResponseComposer) → s.started ≡ true → (m s).state.started ≡ true)
    → Tracks Finished m
silent m h o st = record {
  at = λ s. record {
    items = cc (h s, o s, append-nil (without_reasoning s.output_items));
    started = st s;
  };
}

touches : (key : Text) (f : ItemState → ItemState) → Tracks Finished (touch key f)
unfolding done_items
touches key f =
    silent (touch key f) (λ s. rw (touch-events key f s))
      (λ s. ap (λ (t : ResponseComposer). without_reasoning t.output_items) (touch-state key f s))
      (λ s p. ap (λ (t : ResponseComposer). t.started) (touch-state key f s) ∙ p)

added : (i : ℕ) (o : Output) → Tracks Finished (emit (λ n. output_item output_item_added n i o))
unfolding emit done_items
added i o = silent _ (λ s. refl) (λ s. refl) (λ s p. p)

finishes :
    (i : ℕ) (o : Output)
    → Tracks Finished (emit (λ n. output_item output_item_done n i o) >>= λ _. append_output o)
unfolding emit done_items append_output ◌>>=◌
finishes i o = record {
  at = λ s. record { items = without_reasoning-append s.output_items (o ∷ []); started = λ p. p };
}

-- The reasoning item is in the output from its start on.
opens_reasoning :
    (i : ℕ) (item : ReasoningItem) (key : Text) (st : ItemState) (m : Action (Unit {0}))
    → Tracks Finished m
    → Tracks Finished (
        set_reasoning_item item >>= λ _.
        append_output (Output.reasoning item) >>= λ _. store_reasoning key st >>= λ _. m)
unfolding set_reasoning_item append_output store_reasoning done_items
opens_reasoning i item key st m h =
    let store =
      bind (store_reasoning key st) (λ _. m) (silent _ (λ s. refl) (λ s. refl) (λ s p. p))
        (λ _. h) in
    let add =
      bind _ (λ _. store_reasoning key st >>= λ _. m)
        (silent _ (λ s. refl)
          (λ s. without_reasoning-append s.output_items (Output.reasoning item ∷ []) ∙ append-nil _)
          (λ s p. p))
        (λ _. store) in
    bind _ (λ _. append_output (Output.reasoning item) >>= λ _. store_reasoning key st >>= λ _. m)
      (silent _ (λ s. refl) (λ s. refl) (λ s p. p)) (λ _. add)

-- Every action of a handler finishes the items that it puts into the output.
pub Finished-Rules : Rules Finished
unfolding done_items emit uuid7_str store_item store_reasoning change_reasoning_item
    mark_reasoning_done set_response set_started alloc_output_index
Finished-Rules = record {
  track = Finished-IsTrack;
  Opens = λ i m. Tracks Finished m;
  alloc = λ k h. bind alloc_output_index k (silent _ (λ s. refl) (λ s. refl) (λ s p. p)) h;
  opens_store = λ i key st m h.
      bind (store_item key st) (λ _. m) (silent _ (λ s. refl) (λ s. refl) (λ s p. p)) (λ _. h);
  opens_uuid = λ i env prefix k h.
      bind (uuid7_str env prefix) k (silent _ (λ s. refl) (λ s. refl) (λ s p. p)) h;
  opens_reasoning = λ i item key st m e h. opens_reasoning i item key st m h;
  opens_added = λ i o m h. bind _ (λ _. m) (added i o) (λ _. h);
  opens_added_last = added;
  finish = finishes;
  finish_reasoning_item =
      λ i item. record { at = λ s. record { items = sym (append-nil _); started = λ p. p } };
  part = λ kind id i p. silent _ (λ s. refl) (λ s. refl) (λ s p. p);
  text = λ event h. silent _ (λ s. refl) (λ s. refl) (λ s p. p);
  stage = λ kind r. silent _ (λ s. refl) (λ s. refl) (λ s p. p);
  touches = λ key f h. touches key f;
  uuids = λ env prefix. silent _ (λ s. refl) (λ s. refl) (λ s p. p);
  shares = λ key.
      silent _ (λ s. rw (share_reasoning-events key s))
        (λ s.
          ap (λ (t : ResponseComposer). without_reasoning t.output_items)
            (share_reasoning-state key s))
        (λ s p. ap (λ (t : ResponseComposer). t.started) (share_reasoning-state key s) ∙ p);
  changes = λ id t.
      silent _ (λ s. refl) (λ s. without_reasoning-finish_reasoning id t s.output_items) (λ s p. p);
  marks = silent _ (λ s. refl) (λ s. refl) (λ s p. p);
  sets_response = λ r. silent _ (λ s. refl) (λ s. refl) (λ s p. p);
  sets_started = silent _ (λ s. refl) (λ s. refl) (λ s p. refl);
}
