-- ===== src/Composer/Rules.antt =====
-- What a relation between states and events has to say of the actions that handlers are made of,
-- to be tracked by every handler. An item is opened where its output index is allocated, and
-- finished where its last event is yielded and it is put into the output.
use vllm_responses.Prelude.{ℕ, Text, ◌≡◌}
use vllm_responses.Items.{Output, ReasoningItem, ResponsesResponse}
use vllm_responses.Stream.{
  sequence_number, lifecycle, LifecycleType, output_item, output_item_added, output_item_done,
  content_part, PartEventType, text_event, StreamText,
}
use vllm_responses.Items.{OutputTextContent}
use vllm_responses.Composer.State.{
  ItemState, ItemKind, Environment, Action, ◌>>=◌, emit, alloc_output_index, uuid7_str, store_item,
  touch, append_output,
}
use vllm_responses.Composer.Reasoning.{
  share_reasoning, store_reasoning, set_reasoning_item, change_reasoning_item, mark_reasoning_done,
}
use vllm_responses.Composer.Completion.{set_response}
use vllm_responses.Composer.Tracks.{Relation, IsTrack, Tracks}
use vllm_responses.Composer.{set_started}

abbrev pub Opening : Type 1
Opening = ℕ → Action (Unit {0}) → Type 0

abbrev pub AllocRule : Relation → Opening → Type 0
AllocRule T O =
    (k : ℕ → Action (Unit {0})) → ((i : ℕ) → O i (k i)) → Tracks T (alloc_output_index >>= k)

abbrev pub OpensStoreRule : Relation → Opening → Type 0
OpensStoreRule T O =
    (i : ℕ) (key : Text) (st : ItemState) (m : Action (Unit {0}))
    → O i m
    → O i (store_item key st >>= λ _. m)

abbrev pub OpensUuidRule : Relation → Opening → Type 0
OpensUuidRule T O =
    (i : ℕ) (env : Environment) (prefix : Text) (k : Text → Action (Unit {0}))
    → ((id : Text) → O i (k id))
    → O i (uuid7_str env prefix >>= k)

abbrev pub OpensReasoningRule : Relation → Opening → Type 0
OpensReasoningRule T O =
    (i : ℕ) (item : ReasoningItem) (key : Text) (st : ItemState) (m : Action (Unit {0}))
    → st.kind ≡ ItemKind.reasoning
    → O i m
    → O i (
        set_reasoning_item item >>= λ _.
        append_output (Output.reasoning item) >>= λ _. store_reasoning key st >>= λ _. m)

abbrev pub OpensAddedRule : Relation → Opening → Type 0
OpensAddedRule T O =
    (i : ℕ) (o : Output) (m : Action (Unit {0}))
    → Tracks T m
    → O i (emit (λ n. output_item output_item_added n i o) >>= λ _. m)

abbrev pub OpensAddedLastRule : Relation → Opening → Type 0
OpensAddedLastRule T O =
    (i : ℕ) (o : Output) → O i (emit (λ n. output_item output_item_added n i o))

abbrev pub FinishRule : Relation → Opening → Type 0
FinishRule T O =
    (i : ℕ) (o : Output)
    → Tracks T (emit (λ n. output_item output_item_done n i o) >>= λ _. append_output o)

abbrev pub FinishReasoningItemRule : Relation → Opening → Type 0
FinishReasoningItemRule T O =
    (i : ℕ) (item : ReasoningItem)
    → Tracks T (emit (λ n. output_item output_item_done n i (Output.reasoning item)))

abbrev pub PartRule : Relation → Opening → Type 0
PartRule T O =
    (kind : PartEventType) (id : Text) (i : ℕ) (p : OutputTextContent)
    → Tracks T (emit (λ n. content_part kind id n i p))

abbrev pub TextRule : Relation → Opening → Type 0
TextRule T O =
    (event : ℕ → StreamText)
    → ((n : ℕ) → sequence_number (text_event (event n)) ≡ n)
    → Tracks T (emit (λ n. text_event (event n)))

abbrev pub StageRule : Relation → Opening → Type 0
StageRule T O =
    (kind : LifecycleType) (r : ResponsesResponse) → Tracks T (emit (λ n. lifecycle kind n r))

abbrev pub TouchesRule : Relation → Opening → Type 0
TouchesRule T O =
    (key : Text) (f : ItemState → ItemState)
    → ((st : ItemState) → (f st).kind ≡ st.kind)
    → Tracks T (touch key f)

abbrev pub UuidsRule : Relation → Opening → Type 0
UuidsRule T O = (env : Environment) (prefix : Text) → Tracks T (uuid7_str env prefix)

abbrev pub SharesRule : Relation → Opening → Type 0
SharesRule T O = (key : Text) → Tracks T (share_reasoning key)

abbrev pub ChangesRule : Relation → Opening → Type 0
ChangesRule T O = (id t : Text) → Tracks T (change_reasoning_item id t)

abbrev pub MarksRule : Relation → Opening → Type 0
MarksRule T O = Tracks T mark_reasoning_done

abbrev pub SetsResponseRule : Relation → Opening → Type 0
SetsResponseRule T O = (r : ResponsesResponse) → Tracks T (set_response r)

abbrev pub SetsStartedRule : Relation → Opening → Type 0
SetsStartedRule T O = Tracks T set_started

pub record Rules (T : Relation) : Type 1 where
  pub track : IsTrack T
  -- What the actions behind the allocation of an index have to do.
  pub Opens : Opening
  pub alloc : AllocRule T Opens
  pub opens_store : OpensStoreRule T Opens
  pub opens_uuid : OpensUuidRule T Opens
  pub opens_reasoning : OpensReasoningRule T Opens
  pub opens_added : OpensAddedRule T Opens
  pub opens_added_last : OpensAddedLastRule T Opens
  pub finish : FinishRule T Opens
  pub finish_reasoning_item : FinishReasoningItemRule T Opens
  pub part : PartRule T Opens
  pub text : TextRule T Opens
  pub stage : StageRule T Opens
  pub touches : TouchesRule T Opens
  pub uuids : UuidsRule T Opens
  pub shares : SharesRule T Opens
  pub changes : ChangesRule T Opens
  pub marks : MarksRule T Opens
  pub sets_response : SetsResponseRule T Opens
  pub sets_started : SetsStartedRule T Opens
