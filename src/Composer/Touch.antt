-- ===== src/Composer/Touch.antt =====
-- The look-up of an item's state, with the assignments to it.
use vllm_responses.Prelude.{
  ℕ, Text, ◌≡◌, refl, ◌⊎◌, inl, inr, none, some, [], get_elem?, set, Option-cases, arith,
}
use vllm_responses.Prelude.Dict
use vllm_responses.Prelude.Result.{ok, err}
use vllm_responses.Composer.State.{ResponseComposer, ItemState, Error, key_error, dangling, touch}

-- The look-up fails, and nothing changes.
pub record Missed (key : Text) (f : ItemState → ItemState) (s : ResponseComposer) : Type 0 where
  pub error : Error
  pub outcome : touch key f s ≡ record { state = s; events = []; result = err error }
  pub unknown : (Dict.get s.items key ≡ none) ⊎ (error ≡ dangling)

-- The key's place holds a state, which is assigned to.
pub record Touched (key : Text) (f : ItemState → ItemState) (s : ResponseComposer) : Type 0 where
  pub place : ℕ
  pub before : ItemState
  pub known : Dict.get s.items key ≡ some place
  pub held : get_elem? s.states place ≡ some before
  pub outcome : touch key f s ≡ record {
    state = record s { states = set s.states place (f before) };
    events = [];
    result = ok (f before);
  }

pub touch-none :
    (key : Text) (f : ItemState → ItemState) (s : ResponseComposer)
    → Dict.get s.items key ≡ none
    → touch key f s ≡ record { state = s; events = []; result = err (key_error key) }
unfolding touch
touch-none key f s h = ground arith

pub touch-some :
    (key : Text) (f : ItemState → ItemState) (s : ResponseComposer) (place : ℕ) (st : ItemState)
    → Dict.get s.items key ≡ some place
    → get_elem? s.states place ≡ some st
    → touch key f s ≡ record {
      state = record s { states = set s.states place (f st) };
      events = [];
      result = ok (f st);
    }
unfolding touch
touch-some key f s place st h e = ground arith

missed :
    (key : Text) (f : ItemState → ItemState) (s : ResponseComposer)
    → Dict.get s.items key ≡ none
    → Missed key f s
missed key f s h = record { error = key_error key; outcome = touch-none key f s h; unknown = inl h }

lost :
    (key : Text) (f : ItemState → ItemState) (s : ResponseComposer) (place : ℕ)
    → Dict.get s.items key ≡ some place
    → get_elem? s.states place ≡ none
    → Missed key f s
unfolding touch
lost key f s place h e = record { error = dangling; outcome = ground arith; unknown = inr refl }

touched :
    (key : Text) (f : ItemState → ItemState) (s : ResponseComposer) (place : ℕ) (st : ItemState)
    → Dict.get s.items key ≡ some place
    → get_elem? s.states place ≡ some st
    → Touched key f s
touched key f s place st h e = record {
  place = place;
  before = st;
  known = h;
  held = e;
  outcome = touch-some key f s place st h e;
}

pub touch-cases :
    (key : Text) (f : ItemState → ItemState) (s : ResponseComposer)
    → Missed key f s ⊎ Touched key f s
touch-cases key f s = elim (Option-cases (Dict.get s.items key)) [
  | inl h ↦ inl (missed key f s h)
  | inr (place, h) ↦ elim (Option-cases (get_elem? s.states place)) [
    | inl e ↦ inl (lost key f s place h e)
    | inr (st, e) ↦ inr (touched key f s place st h e)
  ]
]

pub touch-events :
    (key : Text) (f : ItemState → ItemState) (s : ResponseComposer) → (touch key f s).events ≡ []
touch-events key f s = elim (touch-cases key f s) [ inl m ↦ rw m.outcome | inr t ↦ rw t.outcome ]

pub touch-state :
    (key : Text) (f : ItemState → ItemState) (s : ResponseComposer)
    → (touch key f s).state ≡ record s { states = (touch key f s).state.states }
touch-state key f s = elim (touch-cases key f s) [ inl m ↦ rw m.outcome | inr t ↦ rw t.outcome ]
