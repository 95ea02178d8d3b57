-- ===== src/Sse.antt =====
-- `stream_responses_sse` of responses/python/vllm_responses/responses_core/sse.py: the frames of a
-- stream of events. The events are those of a stream that ends without an exception.
mod Tests
use vllm_responses.Prelude.{
  Text, Bool, true, false, not, ◌&&◌, ◌||◌, ◌≡◌, refl, ap, ◌⊎◌, inl, inr, List, [], ◌∷◌, ◌++◌, map,
  codes, text_eq, if◌then◌else◌, Bool-cases, arith, append-nil,
}

pub record ResponsesChunk : Type 0 where
  pub type : Text
  pub as_responses_chunk : Text

abbrev pub done_marker : Text
done_marker = codes "data: [DONE]\n\n"

-- event.type in TERMINAL_EVENT_TYPES
unfoldable pub is_terminal : ResponsesChunk → Bool
is_terminal event =
    text_eq event.type (codes "response.completed") || text_eq event.type (codes "response.failed")

-- The loop over the events and the marker behind it, from a value of `done_emitted`.
frames_from : Bool → List ResponsesChunk → List Text
unfolding is_terminal
frames_from done_emitted [] = if not done_emitted then done_marker ∷ [] else []
frames_from done_emitted (event ∷ events) =
    event.as_responses_chunk ∷ elim (not done_emitted && is_terminal event) [
      | true ↦ done_marker ∷ frames_from true events
      | false ↦ frames_from done_emitted events
    ]

unfoldable pub stream_responses_sse : List ResponsesChunk → List Text
unfolding frames_from
stream_responses_sse events = frames_from false events

abbrev pub chunks : List ResponsesChunk → List Text
chunks events = map (λ event. event.as_responses_chunk) events

abbrev pub any_terminal : List ResponsesChunk → Bool
any_terminal [] = false
any_terminal (event ∷ events) = is_terminal event || any_terminal events

frames_from-true : (events : List ResponsesChunk) → frames_from true events ≡ chunks events
unfolding frames_from
frames_from-true [] = refl
frames_from-true (event ∷ events) =
    ap (λ (t : List Text). event.as_responses_chunk ∷ t) (frames_from-true events)

-- Where the marker stands: behind the first terminal event, or at the end.
pub record Framed (events : List ResponsesChunk) (frames : List Text) : Type 0 where
  pub before : List ResponsesChunk
  pub after : List ResponsesChunk
  pub split : events ≡ before ++ after
  pub frames_are : frames ≡ chunks before ++ done_marker ∷ chunks after
  pub place :
      ((any_terminal events ≡ false) × (after ≡ []))
      ⊎ ((quiet : List ResponsesChunk) × (last : ResponsesChunk) × (before ≡ quiet ++ last ∷ [])
          × (any_terminal quiet ≡ false)
          × (is_terminal last ≡ true))

frames_from-false : (events : List ResponsesChunk) → Framed events (frames_from false events)
unfolding frames_from
frames_from-false [] = record {
  before = [];
  after = [];
  split = refl;
  frames_are = refl;
  place = inl (refl, refl);
}
frames_from-false (event ∷ events) = elim (Bool-cases (is_terminal event)) [
  | inl t ↦ record {
    before = event ∷ [];
    after = events;
    split = refl;
    frames_are = rw (t, frames_from-true events);
    place = inr ([], event, refl, refl, t);
  }
  | inr t ↦
      let r = frames_from-false events in
      record {
        before = event ∷ r.before;
        after = r.after;
        split = ap (λ (l : List ResponsesChunk). event ∷ l) r.split;
        frames_are = rw (t, r.frames_are);
        place = elim r.place [
          | inl (q, a) ↦ inl (rw (t, q), a)
          | inr (quiet, last, b, q, l) ↦
              inr (event ∷ quiet, last, ap (λ (x : List ResponsesChunk). event ∷ x) b, rw (t, q), l)
        ];
      }
]

-- The frames of a stream are the chunks of its events in order, with one end marker put
-- between them: directly behind the first `response.completed` or `response.failed`, and at the
-- end if there is none.
pub stream_responses_sse-Framed :
    (events : List ResponsesChunk) → Framed events (stream_responses_sse events)
unfolding stream_responses_sse
stream_responses_sse-Framed events = frames_from-false events
