-- ===== src/Normalizer/Reasoning.antt =====
-- The raw reasoning of a thinking part, in the provider details.
use vllm_responses.Prelude.{
  Text, Option, none, some, List, [], ◌∷◌, ◌++◌, codes, drop, length, starts_with, text_eq,
  if◌then◌else◌,
}
use vllm_responses.Json.{
  Json, JsonList, JsonObject, string, array, object, nil, cons, end, field, get_field, merge,
}
use vllm_responses.Normalizer.State.{DetailsDelta, merged, callable}

-- The loop over the items: `none` at one that is no text.
unfoldable pub text_items : JsonList → Option (List Text)
text_items nil = some []
text_items (cons (string t) rest) = elim (text_items rest) [ none ↦ none | some ts ↦ some (t ∷ ts) ]
text_items (cons _ rest) = none

unfoldable pub extract_raw_reasoning_content : Option Json → Option (List Text)
unfolding text_items
extract_raw_reasoning_content (some (object details)) =
    elim (get_field details (codes "raw_content")) [
      | some (array items) ↦ text_items items
      | _ ↦ none
    ]
extract_raw_reasoning_content _ = none

unfoldable pub json_texts : List Text → JsonList
json_texts [] = nil
json_texts (t ∷ ts) = cons (string t) (json_texts ts)

unfoldable pub raw_details : List Text → JsonObject
unfolding json_texts
raw_details chunks = field (codes "raw_content") (array (json_texts chunks)) end

-- `None if existing is None else {"raw_content": list(existing)}`
abbrev pub existing_details : Option (List Text) → Option Json
existing_details none = none
existing_details (some chunks) = some (object (raw_details chunks))

abbrev pub existing_fields : Option (List Text) → JsonObject
existing_fields none = end
existing_fields (some chunks) = raw_details chunks

abbrev pub or_existing : Option (List Text) → Option (List Text) → Option (List Text)
or_existing none existing = existing
or_existing (some chunks) existing = some chunks

unfoldable pub updated_details : Option (List Text) → DetailsDelta → Json
updated_details existing (callable patch) = patch (existing_details existing)
updated_details existing (merged fields) = object (merge (existing_fields existing) fields)

unfoldable pub apply_reasoning_provider_details_delta :
    Option (List Text) → Option DetailsDelta → Option (List Text)
unfolding updated_details extract_raw_reasoning_content raw_details
apply_reasoning_provider_details_delta existing none = none
apply_reasoning_provider_details_delta existing (some delta) =
    or_existing (extract_raw_reasoning_content (some (updated_details existing delta))) existing

-- What a chunk adds to the chunk that stood in its place.
unfoldable pub chunk_delta : Text → Text → Text
chunk_delta previous current =
    if starts_with previous current
    then drop (length previous) current
    else if text_eq current previous
    then []
    else current

-- Both lists from one index on: `previous` counts as empty texts behind its end.
unfoldable pub diff_raw_reasoning_text : List Text → List Text → Text
unfolding chunk_delta
diff_raw_reasoning_text previous [] = []
diff_raw_reasoning_text [] (c ∷ cs) = chunk_delta [] c ++ diff_raw_reasoning_text [] cs
diff_raw_reasoning_text (p ∷ ps) (c ∷ cs) = chunk_delta p c ++ diff_raw_reasoning_text ps cs
