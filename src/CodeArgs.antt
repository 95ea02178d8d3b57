-- ===== src/CodeArgs.antt =====
-- `_CodeJsonArgsExtractor` of responses/python/vllm_responses/responses_core/normalizer.py: the
-- incremental extraction of the string value of one key from fragments of JSON text. A Python
-- string is the list of its code points. The proofs are in the modules below.
pub mod Decoder
pub mod Feeds
pub mod Escaping
pub mod Handshake
pub mod Surrogates
pub mod Search
pub mod Total
pub mod Window
mod Tests
use vllm_responses.Prelude.{
  ℕ, zero, suc, ◌+◌, ◌-◌, ◌*◌, Text, Bool, true, false, not, ◌&&◌, ◌||◌, Option, none, some, List,
  [], ◌∷◌, ◌++◌, ltb, leb, ◌==◌, if◌then◌else◌, length, get_elem?, drop, last_n, is_empty, find,
  codes, max,
}

pub record CodeJsonArgsExtractor : Type 0 where
  pub target_key : Text
  pub buf : Text
  pub search_from : ℕ
  pub in_value : Bool
  pub done : Bool
  pub pos : ℕ
  pub escape : Bool
  pub unicode_remaining : ℕ
  pub unicode_buf : Text

abbrev pub new_extractor : Text → CodeJsonArgsExtractor
new_extractor key = record {
  target_key = key;
  buf = [];
  search_from = 0;
  in_value = false;
  done = false;
  pos = 0;
  escape = false;
  unicode_remaining = 0;
  unicode_buf = [];
}

-- `ch.lower() in "0123456789abcdef"`
unfoldable pub is_hex : ℕ → Bool
is_hex c = leb 48 c && leb c 57 || (leb 97 c && leb c 102 || leb 65 c && leb c 70)

unfoldable pub hex_value : ℕ → ℕ
hex_value c = if leb c 57 then c - 48 else if leb c 70 then c - 55 else c - 87

-- `int(digits, 16)`, from the digits already read
unfoldable pub int16 : ℕ → Text → ℕ
unfolding hex_value
int16 n [] = n
int16 n (c ∷ cs) = int16 (n * 16 + hex_value c) cs

-- A character after `\u`, while hexadecimal digits are still wanted.
unicode_step : ℕ → CodeJsonArgsExtractor → CodeJsonArgsExtractor × Text
unicode_step ch e =
    if is_hex ch
    then (if e.unicode_remaining - 1 == 0
        then (
          record e { unicode_remaining = 0; unicode_buf = [] },
          int16 0 (e.unicode_buf ++ ch ∷ []) ∷ [],
        )
        else (
          record e {
            unicode_remaining = e.unicode_remaining - 1;
            unicode_buf = e.unicode_buf ++ ch ∷ [];
          },
          [],
        ))
    else (record e { unicode_remaining = 0; unicode_buf = [] }, [])

-- What the character after a backslash stands for.
unfoldable pub unescape : ℕ → ℕ
unescape ch =
    if ch == b'n'
    then 10
    else if ch == b'r'
    then 13
    else if ch == b't'
    then 9
    else if ch == b'b'
    then 8
    else if ch == b'f'
    then 12
    else ch

-- The character after a backslash.
escape_step : ℕ → CodeJsonArgsExtractor → CodeJsonArgsExtractor × Text
escape_step ch e =
    if ch == b'u'
    then (record e { escape = false; unicode_remaining = 4; unicode_buf = [] }, [])
    else (record e { escape = false }, unescape ch ∷ [])

plain_step : ℕ → CodeJsonArgsExtractor → CodeJsonArgsExtractor × Text
plain_step ch e =
    if ch == 92
    then (record e { escape = true }, [])
    else if ch == 34
    then (record e { done = true; in_value = false }, [])
    else (e, ch ∷ [])

-- One round of the loop over the value's characters.
step : ℕ → CodeJsonArgsExtractor → CodeJsonArgsExtractor × Text
unfolding unicode_step escape_step plain_step
step ch e0 =
    let e = record e0 { pos = e0.pos + 1 } in
    if not (e.unicode_remaining == 0)
    then unicode_step ch e
    else if e.escape
    then escape_step ch e
    else plain_step ch e

-- `while self._pos < len(self._buf)`, over the characters that are left.
pub scan : Text → CodeJsonArgsExtractor → CodeJsonArgsExtractor × Text
unfolding step
scan [] e = (e, [])
scan (ch ∷ rest) e =
    let (e', o) = step ch e in
    elim e'.done [ true ↦ (e', o) | false ↦ let (e'', os) = scan rest e' in (e'', o ++ os) ]

-- `while j < len(self._buf) and self._buf[j] in " \t\r\n": j += 1`, over `buf[j:]`
abbrev pub is_space : ℕ → Bool
is_space c = c == 32 || (c == 9 || (c == 13 || c == 10))

abbrev pub skip_space : Text → ℕ → ℕ
skip_space [] j = j
skip_space (c ∷ s) j = elim (is_space c) [ true ↦ skip_space s (suc j) | false ↦ j ]

abbrev pub key_pattern : CodeJsonArgsExtractor → Text
key_pattern e = 34 ∷ (e.target_key ++ 34 ∷ [])

-- One round of the search, from an occurrence of the quoted key: give up until there is more
-- text, go on behind this occurrence, or the position where the value starts.
pub data Probe : Type 0 where
  wait retry : Probe
  start_at : ℕ → Probe

-- The value has to start with a quote, at `k`.
probe_quote : CodeJsonArgsExtractor → ℕ → Probe
probe_quote e k = elim (get_elem? e.buf k) [
  | none ↦ wait
  | some d ↦ if not (d == 34) then retry else start_at (k + 1)
]

-- A colon has to stand at `j`, behind the key.
probe_colon : CodeJsonArgsExtractor → ℕ → Probe
unfolding probe_quote
probe_colon e j = elim (get_elem? e.buf j) [
  | none ↦ wait
  | some c ↦
      if not (c == b':') then retry else probe_quote e (skip_space (drop (j + 1) e.buf) (j + 1))
]

pub probe : CodeJsonArgsExtractor → ℕ → Probe
unfolding probe_colon
probe e idx = let j = idx + length (key_pattern e) in probe_colon e (skip_space (drop j e.buf) j)

-- `_find_value_start` on fuel: the outer `none` means that the fuel ran out.
pub find_value_start : ℕ → CodeJsonArgsExtractor → Option (CodeJsonArgsExtractor × Option ℕ)
unfolding probe
find_value_start zero e = none
find_value_start (suc fuel) e = elim (find (key_pattern e) e.buf e.search_from) [
  | none ↦ some (record e { search_from = length e.buf - 16 }, none)
  | some idx ↦ elim (probe e idx) [
    | wait ↦ some (record e { search_from = idx }, none)
    | retry ↦ find_value_start fuel (record e { search_from = idx + 1 })
    | start_at p ↦ some (record e { search_from = p }, some p)
  ]
]

-- Each retry moves `search_from` forward, so the length of the buffer bounds the rounds.
pub enter_value : CodeJsonArgsExtractor → Option (CodeJsonArgsExtractor × Bool)
unfolding find_value_start
enter_value e =
    if e.in_value then some (e, true) else elim (find_value_start (length e.buf + 2) e) [
      | none ↦ none
      | some (e', none) ↦ some (e', false)
      | some (e', some start) ↦ some (record e' { in_value = true; pos = start }, true)
    ]

-- The outer `while True` of `feed`, on fuel.
pub rounds : ℕ → CodeJsonArgsExtractor → Option (CodeJsonArgsExtractor × Text)
unfolding enter_value scan
rounds zero e = none
rounds (suc fuel) e = elim e.done [
  | true ↦ some (e, [])
  | false ↦ elim (enter_value e) [
    | none ↦ none
    | some (e', false) ↦ some (e', [])
    | some (e', true) ↦
        let (e'', out) = scan (drop e'.pos e'.buf) e' in
        elim (ltb 4096 e''.pos) [
          | false ↦ some (e'', out)
          | true ↦
              elim (rounds fuel
                (record e'' { buf = drop e''.pos e''.buf; search_from = 0; pos = 0 })) [
                  | none ↦ none
                  | some (e3, more) ↦ some (e3, out ++ more)
                ]
        ]
  ]
]

-- "Keep a small tail while searching to handle boundary splits": `len` is read after the cut.
pub trim : CodeJsonArgsExtractor → CodeJsonArgsExtractor
trim e =
    if not e.in_value && (not e.done && ltb 256 (length e.buf))
    then (let b = last_n 256 e.buf in
        record e { buf = b; search_from = e.search_from - (length b - 256) })
    else e

-- A round that does not return has emptied the buffer, so three rounds are enough.
pub feed : CodeJsonArgsExtractor → Text → Option (CodeJsonArgsExtractor × Text)
unfolding rounds trim
feed e chunk =
    if e.done || is_empty chunk
    then some (e, [])
    else elim (rounds 3 (record e { buf = e.buf ++ chunk })) [
      | none ↦ none
      | some (e', out) ↦ some (trim e', out)
    ]

-- The fragments of one call, in order; the code deltas joined.
pub feed_all : CodeJsonArgsExtractor → List Text → Option (CodeJsonArgsExtractor × Text)
feed_all e [] = some (e, [])
feed_all e (chunk ∷ chunks) = elim (feed e chunk) [
  | none ↦ none
  | some (e', out) ↦ elim (feed_all e' chunks) [
    | none ↦ none
    | some (e'', more) ↦ some (e'', out ++ more)
  ]
]
