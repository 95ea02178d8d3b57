-- ===== src/Composer/Numbering.antt =====
-- The sequence numbers of the stream.
use vllm_responses.Prelude.{
  Bool, ℕ, zero, suc, ◌+◌, Text, ◌≡◌, refl, ap, ◌∙◌, Bool, List, [], ◌∷◌, ◌++◌, map, length,
  length-append, arith,
}
use mathlib.Core.List.{map-append}
use vllm_responses.Stream.{StreamEvent, sequence_number}
use vllm_responses.Composer.State.{
  ReasoningEventFormat, ResponseComposer, ItemState, Environment, Action, ◌>>=◌, emit,
  alloc_output_index, uuid7_str, store_item, touch, append_output,
}
use vllm_responses.Events.{NormalizedEvent}
use vllm_responses.Items.{Output, ReasoningItem, ResponsesResponse}
use vllm_responses.Composer.Sharing.{share_reasoning-events, share_reasoning-state}
use vllm_responses.Composer.Touch.{touch-events, touch-state}
use vllm_responses.Composer.Reasoning.{
  share_reasoning, store_reasoning, set_reasoning_item, change_reasoning_item, mark_reasoning_done,
}
use vllm_responses.Composer.Completion.{set_response}
use vllm_responses.Composer.Rules.{Rules}
use vllm_responses.Composer.Handlers.{run-Tracks}
use vllm_responses.Composer.{new_composer, run, set_started}
use vllm_responses.Composer.Tracks.{IsTrack, Tracks, Tracks-bind}

-- `k` numbers from `n` on.
abbrev pub count_up : ℕ → ℕ → List ℕ
count_up n zero = []
count_up n (suc k) = n ∷ count_up (suc n) k

pub count_up-append : (n a b : ℕ) → count_up n a ++ count_up (n + a) b ≡ count_up n (a + b)
count_up-append n zero b =
    let p : n + 0 ≡ n = omega arith in
    let q : b ≡ 0 + b = omega arith in ap (λ (t : ℕ). count_up t b) p ∙ ap (count_up n) q
count_up-append n (suc a) b =
    let p : n + suc a ≡ suc n + a = omega arith in
    let q : suc (a + b) ≡ suc a + b = omega arith in
    ap (λ (t : ℕ). n ∷ (count_up (suc n) a ++ count_up t b)) p
    ∙ ap (λ (t : List ℕ). n ∷ t) (count_up-append (suc n) a b)
    ∙ ap (count_up n) q

pub length-count_up : (n k : ℕ) → length (count_up n k) ≡ k
length-count_up n zero = refl
length-count_up n (suc k) = ap suc (length-count_up (suc n) k)

-- The events carry the numbers from the state's on, and the state is left behind the last one.
pub record Numbers (s : ResponseComposer) (es : List StreamEvent) (s' : ResponseComposer)
    : Type 0 where
  pub numbers : map sequence_number es ≡ count_up s.sequence_number (length es)
  pub next : s'.sequence_number ≡ s.sequence_number + length es

numbers_append :
    (n n' : ℕ) (es es' : List StreamEvent)
    → map sequence_number es ≡ count_up n (length es)
    → map sequence_number es' ≡ count_up n' (length es')
    → n' ≡ n + length es
    → map sequence_number (es ++ es') ≡ count_up n (length (es ++ es'))
numbers_append n n' es es' h h' e = cc (
  map-append sequence_number es es',
  count_up-append n (length es) (length es'),
  length-append es es',
)

Numbers-IsTrack : IsTrack Numbers
Numbers-IsTrack = record {
  nil = λ s. record { numbers = refl; next = omega arith };
  append = λ s s' s'' es es' h h'. record {
    numbers =
        numbers_append s.sequence_number s'.sequence_number es es' h.numbers h'.numbers h.next;
    next = omega (arith, h.next, h'.next, length-append es es');
  };
}

bind :
    {A B : Type 0} (m : Action A) (f : A → Action B)
    → Tracks Numbers m
    → ((a : A) → Tracks Numbers (f a))
    → Tracks Numbers (m >>= f)
bind = Tracks-bind Numbers-IsTrack

-- An action that yields nothing and leaves the number alone.
record IsSilent {A : Type 0} (m : Action A) : Type 0 where
  events : (s : ResponseComposer) → (m s).events ≡ []
  number : (s : ResponseComposer) → (m s).state.sequence_number ≡ s.sequence_number

silent : {A : Type 0} (m : Action A) → IsSilent m → Tracks Numbers m
silent m h = record {
  at = λ s. record {
    numbers = rw (h.events s);
    next = omega (arith, h.number s, ap length (h.events s));
  };
}

emits :
    (event : ℕ → StreamEvent)
    → ((n : ℕ) → sequence_number (event n) ≡ n)
    → Tracks Numbers (emit event)
unfolding emit
emits event h = record {
  at = λ s. record { numbers = ap (λ (n : ℕ). n ∷ []) (h s.sequence_number); next = omega arith };
}

touches : (key : Text) (f : ItemState → ItemState) → Tracks Numbers (touch key f)
touches key f = silent (touch key f) (record {
  events = λ s. touch-events key f s;
  number = λ s. ap (λ (t : ResponseComposer). t.sequence_number) (touch-state key f s);
})

uuids : (env : Environment) (prefix : Text) → Tracks Numbers (uuid7_str env prefix)
unfolding uuid7_str
uuids env prefix = silent _ (record { events = λ s. refl; number = λ s. refl })

indices : Tracks Numbers alloc_output_index
unfolding alloc_output_index
indices = silent _ (record { events = λ s. refl; number = λ s. refl })

stores : (key : Text) (st : ItemState) → Tracks Numbers (store_item key st)
unfolding store_item
stores key st = silent _ (record { events = λ s. refl; number = λ s. refl })

appends : (o : Output) → Tracks Numbers (append_output o)
unfolding append_output
appends o = silent _ (record { events = λ s. refl; number = λ s. refl })

shares : (key : Text) → Tracks Numbers (share_reasoning key)
shares key = silent _ (record {
  events = λ s. share_reasoning-events key s;
  number = λ s. ap (λ (t : ResponseComposer). t.sequence_number) (share_reasoning-state key s);
})

changes : (id t : Text) → Tracks Numbers (change_reasoning_item id t)
unfolding change_reasoning_item
changes id t = silent _ (record { events = λ s. refl; number = λ s. refl })

stores_reasoning : (key : Text) (st : ItemState) → Tracks Numbers (store_reasoning key st)
unfolding store_reasoning
stores_reasoning key st = silent _ (record { events = λ s. refl; number = λ s. refl })

sets_item : (item : ReasoningItem) → Tracks Numbers (set_reasoning_item item)
unfolding set_reasoning_item
sets_item item = silent _ (record { events = λ s. refl; number = λ s. refl })

marks : Tracks Numbers mark_reasoning_done
unfolding mark_reasoning_done
marks = silent _ (record { events = λ s. refl; number = λ s. refl })

sets_response : (r : ResponsesResponse) → Tracks Numbers (set_response r)
unfolding set_response
sets_response r = silent _ (record { events = λ s. refl; number = λ s. refl })

sets_started : Tracks Numbers set_started
unfolding set_started
sets_started = silent _ (record { events = λ s. refl; number = λ s. refl })

opens_reasoning :
    (i : ℕ) (item : ReasoningItem) (key : Text) (st : ItemState) (m : Action (Unit {0}))
    → Tracks Numbers m
    → Tracks Numbers (
        set_reasoning_item item >>= λ _.
        append_output (Output.reasoning item) >>= λ _. store_reasoning key st >>= λ _. m)
opens_reasoning i item key st m h =
    let store = bind (store_reasoning key st) (λ _. m) (stores_reasoning key st) (λ _. h) in
    bind _ (λ _. append_output (Output.reasoning item) >>= λ _. store_reasoning key st >>= λ _. m)
      (sets_item item)
      (λ _.
        bind _ (λ _. store_reasoning key st >>= λ _. m) (appends (Output.reasoning item))
          (λ _. store))

-- Every action of a handler numbers what it yields.
pub Numbers-Rules : Rules Numbers
unfolding sequence_number
Numbers-Rules = record {
  track = Numbers-IsTrack;
  Opens = λ i m. Tracks Numbers m;
  alloc = λ k h. bind alloc_output_index k indices h;
  opens_store = λ i key st m h. bind (store_item key st) (λ _. m) (stores key st) (λ _. h);
  opens_uuid = λ i env prefix k h. bind (uuid7_str env prefix) k (uuids env prefix) h;
  opens_reasoning = λ i item key st m e h. opens_reasoning i item key st m h;
  opens_added = λ i o m h. bind _ (λ _. m) (emits _ (λ n. refl)) (λ _. h);
  opens_added_last = λ i o. emits _ (λ n. refl);
  finish = λ i o. bind _ (λ _. append_output o) (emits _ (λ n. refl)) (λ _. appends o);
  finish_reasoning_item = λ i item. emits _ (λ n. refl);
  part = λ kind id i p. emits _ (λ n. refl);
  text = λ event h. emits _ h;
  stage = λ kind r. emits _ (λ n. refl);
  touches = λ key f h. touches key f;
  uuids = uuids;
  shares = shares;
  changes = changes;
  marks = marks;
  sets_response = sets_response;
  sets_started = sets_started;
}

-- The events that a new composer yields, for whatever normalized events and up to the first
-- exception if there is one, have the sequence numbers 0, 1, 2 and so on.
pub run-numbers :
    (env : Environment) (events : List NormalizedEvent) (r : ResponsesResponse) (a b : Bool)
    (f : ReasoningEventFormat)
    → let out = (run env events (new_composer r a b f)).events in
      map sequence_number out ≡ count_up 0 (length out)
run-numbers env events r a b f =
    ((run-Tracks Numbers-Rules env events).at (new_composer r a b f)).numbers
