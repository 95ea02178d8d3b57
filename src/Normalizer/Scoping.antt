-- ===== src/Normalizer/Scoping.antt =====
-- Every handler of the normalizer is safe: it hands on scoped events, and no extractor runs for
-- ever. In the children, the handlers; here, the steps that they share.
pub mod Starts
pub mod Deltas
pub mod Ends
pub mod Outcomes
pub mod Streams
use vllm_responses.Prelude.{
  Text, ◌≡◌, refl, ap, inl, inr, Bool, true, false, ◌&&◌, Option, none, some, List, [], ◌∷◌, arith,
}
use vllm_responses.Prelude.Result.{ok, err}
use vllm_responses.Events.{NormalizedEvent, code_interpreter_call_code_delta}
use vllm_responses.Events.Scopes.{scoped, opened_after, opens, follows, is_open, with_key}
use vllm_responses.CodeArgs.{CodeJsonArgsExtractor, feed}
use vllm_responses.CodeArgs.Total.{IsSound, feed-Returns}
use vllm_responses.Normalizer.State.{
  Normalizer, Handled, yields, first, unless_empty, feed_extractor, put_extractor,
}
use vllm_responses.Normalizer.Shapes.{Shapes}
use vllm_responses.Normalizer.Held.{Held, Safe, IsOpen, is_stuck, Held-with_key, Held-put_extractor}

module _ (shapes : Shapes) (opened : List Text) where
  pub nothing_yielded : (n : Normalizer) → Held n shapes opened → Safe shapes opened (yields n [])
  unfolding scoped opened_after
  nothing_yielded n held = (refl, held)

  -- One more event in front
  pub yielded_first :
      (event : NormalizedEvent) (handled : Handled)
      → is_open opened (follows event) ≡ true
      → Safe shapes (with_key (opens event) opened) handled
      → Safe shapes opened (first event handled)
  unfolding scoped opened_after
  yielded_first event (n, ok out) h (s, held) = (ground (arith, s), held)
  yielded_first event (n, err e) h safe = safe

  -- An event that goes on with an open item
  pub yielded_follow :
      (n : Normalizer) (event : NormalizedEvent)
      → is_open opened (follows event) ≡ true
      → Held n shapes opened
      → Safe shapes opened (yields n (event ∷ []))
  unfolding scoped opened_after
  yielded_follow n event h held = (ground arith, Held-with_key n shapes opened (opens event) held)

  pub yielded_text :
      (n : Normalizer) (t : Text) (event : NormalizedEvent)
      → is_open opened (follows event) ≡ true
      → Held n shapes opened
      → Safe shapes opened (yields n (unless_empty t event))
  yielded_text n [] event h held = nothing_yielded n held
  yielded_text n (c ∷ s) event h held = yielded_follow n event h held

  feed_extractor-some :
      (key : Text) (e e' : CodeJsonArgsExtractor) (raw code : Text) (n : Normalizer)
      → feed e raw ≡ some (e', code)
      → feed_extractor key e raw n
        ≡ yields
            (put_extractor key e' n)
            (unless_empty code (code_interpreter_call_code_delta key code))
  unfolding feed_extractor
  feed_extractor-some key e e' raw code n h = rw (h, feed_extractor)

  pub feed_extractor-Safe :
      (key : Text) (e : CodeJsonArgsExtractor) (raw : Text) (n : Normalizer)
      → IsSound e
      → IsOpen opened key
      → Held n shapes opened
      → Safe shapes opened (feed_extractor key e raw n)
  feed_extractor-Safe key e raw n sound h held =
      let (e', code, r, sound') = feed-Returns e raw sound in
      rw (feed_extractor-some key e e' raw code n r) (
        yielded_text (put_extractor key e' n) code (code_interpreter_call_code_delta key code) h
          (Held-put_extractor n shapes opened key e' sound' held))

-- An item is opened, and goes on unless the text is empty.
pub yielded_started :
    (shapes : Shapes) (opened : List Text) (n : Normalizer) (event next : NormalizedEvent)
    (t : Text)
    → is_open opened (follows event) ≡ true
    → is_open (with_key (opens event) opened) (follows next) ≡ true
    → Held n shapes (with_key (opens event) opened)
    → Safe shapes opened (yields n (event ∷ unless_empty t next))
yielded_started shapes opened n event next t h k held =
    yielded_first shapes opened event (yields n (unless_empty t next)) h
      (yielded_text shapes (with_key (opens event) opened) n t next k held)
