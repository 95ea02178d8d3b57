-- ===== src/Composer/Sharing.antt =====
-- A later reasoning segment: its key names the state of the first one.
use vllm_responses.Prelude.{ℕ, Text, ◌≡◌, none, some, [], Option-cases, inl, inr}
use vllm_responses.Prelude.Dict
use vllm_responses.Prelude.Result.{ok, err}
use vllm_responses.Composer.State.{ResponseComposer, missing_reasoning_state, ◌>>=◌}
use vllm_responses.Composer.Reasoning.{share_reasoning}

pub share_reasoning-none :
    (key : Text) (s : ResponseComposer)
    → s.reasoning_state ≡ none
    → share_reasoning key s
      ≡ record { state = s; events = []; result = err missing_reasoning_state }
unfolding share_reasoning ◌>>=◌ Dict.put
share_reasoning-none key s h = rw h

pub share_reasoning-some :
    (key : Text) (s : ResponseComposer) (place : ℕ)
    → s.reasoning_state ≡ some place
    → share_reasoning key s ≡ record {
      state = record s { items = Dict.put s.items key place };
      events = [];
      result = ok tt;
    }
unfolding share_reasoning ◌>>=◌ Dict.put
share_reasoning-some key s place h = rw h

pub share_reasoning-events :
    (key : Text) (s : ResponseComposer) → (share_reasoning key s).events ≡ []
share_reasoning-events key s = elim (Option-cases s.reasoning_state) [
  | inl h ↦ rw (share_reasoning-none key s h)
  | inr (place, h) ↦ rw (share_reasoning-some key s place h)
]

pub share_reasoning-state :
    (key : Text) (s : ResponseComposer)
    → (share_reasoning key s).state ≡ record s { items = (share_reasoning key s).state.items }
share_reasoning-state key s = elim (Option-cases s.reasoning_state) [
  | inl h ↦ rw (share_reasoning-none key s h)
  | inr (place, h) ↦ rw (share_reasoning-some key s place h)
]
