-- ===== src/CodeArgs/Handshake.antt =====
-- The search for the value: a value that stands where the model's arguments put it, behind
-- `{"code":"`, is found and decoded however the text is cut into fragments.
use vllm_responses.Prelude.{
  ℕ, zero, suc, ◌+◌, ◌≤◌, Text, ◌≡◌, refl, sym, ap, ◌∙◌, inl, Bool, true, false, some, List, [],
  ◌∷◌, ◌++◌, codes, length, take, concat, arith, append_assoc, leb, length-append, length-take-le,
  length-take-le_count, front_of_append, rest_of_append,
}
use native.Mathlib.Decide.{dec_le}
use vllm_responses.CodeArgs.{
  CodeJsonArgsExtractor, new_extractor, find_value_start, enter_value, rounds, trim, feed, feed_all,
}
use vllm_responses.CodeArgs.Decoder.{plain, decode, decode-append, mode, IsReading}
use vllm_responses.CodeArgs.Feeds.{
  rounds-decode, feed-rounds, enter_value-eq, feed_all-cons, feed_all-decode, trim_reading,
  feed-nil,
}
use vllm_responses.CodeArgs.Escaping.{Encodes, decode-Encodes}

abbrev pub header : Text
header = codes "{\"code\":\""

abbrev pub offset : Bool → ℕ
offset false = 0
offset true = 1

-- The extractor that has read `p`.
abbrev pub waiting : Text → Bool → CodeJsonArgsExtractor
waiting p b = record (new_extractor (codes "code")) { buf = p; search_from = offset b }

both {ℓ} : (P : Bool → Type ℓ) → P false → P true → (b : Bool) → P b
both P f t false = f
both P f t true = t

abbrev Waits : ℕ → Bool → Type 0
Waits n b = (rounds 3 (waiting (take n header) b) ≡ some (waiting (take n header) (leb 7 n), []))

-- A proper front of the header is kept.
waits : (n : ℕ) (b : Bool) → n ≤ 8 → Waits n b
unfolding rounds
waits zero b h = both (Waits 0) refl refl b
waits (suc zero) b h = both (Waits 1) refl refl b
waits (suc (suc zero)) b h = both (Waits 2) refl refl b
waits (suc (suc (suc zero))) b h = both (Waits 3) refl refl b
waits (suc (suc (suc (suc zero)))) b h = both (Waits 4) refl refl b
waits (suc (suc (suc (suc (suc zero))))) b h = both (Waits 5) refl refl b
waits (suc (suc (suc (suc (suc (suc zero)))))) b h = both (Waits 6) refl refl b
waits (suc (suc (suc (suc (suc (suc (suc zero))))))) b h = both (Waits 7) refl refl b
waits (suc (suc (suc (suc (suc (suc (suc (suc zero)))))))) b h = both (Waits 8) refl refl b
waits (suc (suc (suc (suc (suc (suc (suc (suc (suc n))))))))) b h = absurd (omega arith)

trim_short : (e : CodeJsonArgsExtractor) → length e.buf ≤ 256 → trim e ≡ e
unfolding trim
trim_short e h = ground arith

-- The extractor that has found the value behind the header.
abbrev inside : Text → CodeJsonArgsExtractor
inside v = record (waiting (header ++ v) false) { search_from = 9; in_value = true; pos = 9 }

finds :
    (fuel : ℕ) (v : Text) (b : Bool)
    → find_value_start (suc fuel) (waiting (header ++ v) b)
      ≡ some (record (waiting (header ++ v) false) { search_from = 9 }, some 9)
unfolding find_value_start
finds fuel v b =
    both
      (λ a.
        find_value_start (suc fuel) (waiting (header ++ v) a)
        ≡ some (record (waiting (header ++ v) false) { search_from = 9 }, some 9))
      refl refl b

enters : (v : Text) (b : Bool) → enter_value (waiting (header ++ v) b) ≡ some (inside v, true)
enters v b =
    enter_value-eq (waiting (header ++ v) b)
      {e' = record (waiting (header ++ v) false) { search_from = 9 }} {start = 9} refl
      (let fuel_lem : length (header ++ v) + 2 ≡ suc (length v + 10) = omega arith in
        rw fuel_lem (finds (length v + 10) v b))

-- The value's first fragment arrives.
arrives :
    (p v : Text) (b : Bool) (c : ℕ) (cs : Text)
    → p ++ (c ∷ cs) ≡ header ++ v
    → (e' : CodeJsonArgsExtractor) × (feed (waiting p b) (c ∷ cs) ≡ some (e', (decode plain v).1))
      × IsReading e'
      × (mode e' ≡ (decode plain v).0)
arrives p v b c cs h =
    let (e', r, k, m) =
      rounds-decode (waiting (header ++ v) b) (inside v) refl (enters v b) refl refl (omega arith)
        (inl refl) in
    (
      e',
      feed-rounds (waiting p b) c cs refl (rw h r)
          ∙ ap (λ (e : CodeJsonArgsExtractor). some (e, (decode plain v).1)) (trim_reading e' k),
      k,
      m,
    )

-- A fragment that still lies in the header.
lingers :
    (p : Text) (b : Bool) (c : ℕ) (cs : Text) (n : ℕ)
    → p ++ (c ∷ cs) ≡ take n header
    → n ≤ 8
    → feed (waiting p b) (c ∷ cs) ≡ some (waiting (take n header) (leb 7 n), [])
lingers p b c cs n h l =
    feed-rounds (waiting p b) c cs refl (rw h (waits n b l))
    ∙ ap (λ (e : CodeJsonArgsExtractor). some (e, []))
        (trim_short (waiting (take n header) (leb 7 n)) (omega (arith, length-take-le n header)))

abbrev pub Extracts : CodeJsonArgsExtractor → List Text → Text → Type 0
Extracts e chunks v =
    (e' : CodeJsonArgsExtractor) × (feed_all e chunks ≡ some (e', (decode plain v).1))

-- The last case: the rest of the fragments are read inside the value.
reads_on :
    (p v w : Text) (b : Bool) (c : ℕ) (cs : Text) (chunks : List Text)
    → p ++ (c ∷ cs) ≡ header ++ w
    → w ++ concat chunks ≡ v
    → Extracts (waiting p b) ((c ∷ cs) ∷ chunks) v
reads_on p v w b c cs chunks h t =
    let (e1, r, k, m) = arrives p w b c cs h in
    let (e2, r2, k2, m2) = feed_all-decode e1 chunks k in
    (
      e2,
      feed_all-cons (waiting p b) (c ∷ cs) chunks r r2
          ∙ cc (m, t, decode-append plain w (concat chunks)),
    )

pub handshake :
    (n : ℕ) (b : Bool) (chunks : List Text) (v : Text)
    → n ≤ 8
    → take n header ++ concat chunks ≡ header ++ v
    → Extracts (waiting (take n header) b) chunks v
handshake n b [] v l h = absurd (
    omega (
      arith,
      ap length h,
      length-append (take n header) [],
      length-append header v,
      length-take-le_count n header,
    ))
handshake n b ([] ∷ chunks) v l h =
    let (e, r) = handshake n b chunks v l h in
    (
      e,
      feed_all-cons (waiting (take n header) b) [] chunks (feed-nil (waiting (take n header) b)) r,
    )
handshake n b ((c ∷ cs) ∷ chunks) v l h =
    let p = take n header ++ (c ∷ cs) in
    let e : p ++ concat chunks ≡ header ++ v =
      append_assoc (take n header) (c ∷ cs) (concat chunks) ∙ h in
    elim (dec_le (length p) 8) [
      | yes k ↦
          let q = front_of_append p (concat chunks) header v e (omega arith) in
          let b' = leb 7 (length p) in
          let (e', r) =
            handshake (length p) b' chunks v k
              (ap (λ (t : Text). t ++ concat chunks) (sym q) ∙ e) in
          (
            e',
            feed_all-cons (waiting (take n header) b) (c ∷ cs) chunks
                (lingers (take n header) b c cs (length p) q k) r,
          )
      | no k ↦
          let (w, a, t) = rest_of_append p (concat chunks) header v e (omega arith) in
          reads_on (take n header) v w b c cs chunks a t
    ]

-- However a model's `{"code":"…"}` is cut into fragments, the code deltas joined are the string
-- that the JSON text stands for, whatever follows the closing quote, if it has no `\u` escape of a
-- surrogate.
pub feed_all-Encodes :
    (s t rest : Text) (chunks : List Text)
    → Encodes s t
    → concat chunks ≡ header ++ (t ++ (34 ∷ rest))
    → (e' : CodeJsonArgsExtractor) × (feed_all (new_extractor (codes "code")) chunks ≡ some (e', s))
feed_all-Encodes s t rest chunks e h =
    let (e', r) = handshake 0 false chunks (t ++ (34 ∷ rest)) (omega arith) h in
    (e', r ∙ cc (decode-Encodes rest e))
