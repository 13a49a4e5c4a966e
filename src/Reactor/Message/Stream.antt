-- ===== src/Reactor/Message/Stream.antt =====
-- A stream of messages, read as it arrives.
use ylars.Base.{
  ℕ, zero, suc, ◌+◌, ◌-◌, ◌≤◌, ◌<◌, ◌≡◌, refl, sym, ap, ◌∙◌, List, [], ◌∷◌, ◌++◌, arith, leb, ltb,
  Bool, true, false, Bool-cases, inl, inr, ◌⊎◌, if◌then◌else◌, ◌||◌, length, drop, All,
  length-append, length-drop, append_assoc, append-nil,
}
use ylars.Base.Ints.{is_neg}
use ylars.Reactor.Message.{head_of}
use ylars.Reactor.Message.Frames.{
  Next, wait, abnormal, frame, next, Parsed, parse_next, with_msg, parse, encode, encode_all, Fits,
  next-encode, next-append,
}

Next-cases :
    (n : Next)
    → (n ≡ wait) ⊎ ((n ≡ abnormal) ⊎ ((i : ℕ) × (p : List ℕ) × (r : List ℕ) × (n ≡ frame i p r)))
Next-cases wait = inl refl
Next-cases abnormal = inr (inl refl)
Next-cases (frame i p r) = inr (inr (i, p, r, refl))

-- What follows a message is shorter by its header at least.
abbrev after : Next → List ℕ
after wait = []
after abnormal = []
after (frame i p r) = r

after-next :
    (limit : ℕ) (bytes : List ℕ)
    → 8 ≤ length bytes
    → length (after (next limit bytes)) + 8 ≤ length bytes
unfolding next
after-next limit bytes h = elim (Bool-cases (leb 8 (length bytes))) [
  | inr short ↦ absurd (ground arith)
  | inl long ↦
      elim (Bool-cases (is_neg (head_of bytes).msglen || ltb limit (head_of bytes).msglen)) [
        | inl bad ↦ rw (long, bad) h
        | inr good ↦ elim (Bool-cases (ltb (length bytes - 8) (head_of bytes).msglen)) [
          | inl less ↦ rw (long, good, less) h
          | inr full ↦
              rw (long, good, full)
                (omega
                  (arith, length-drop (head_of bytes).msglen (drop 8 bytes), length-drop 8 bytes))
        ]
      ]
]

next-short : (limit : ℕ) (bytes : List ℕ) → length bytes < 8 → next limit bytes ≡ wait
unfolding next
next-short limit bytes h = let short : leb 8 (length bytes) ≡ false = ground arith in rw short

shorter :
    (limit i : ℕ) (bytes p r : List ℕ)
    → next limit bytes ≡ frame i p r
    → length r + 8 ≤ length bytes
shorter limit i bytes p r e = elim (Bool-cases (leb 8 (length bytes))) [
  | inl long ↦ omega (arith, after-next limit bytes (ground arith), ap (λ n. length (after n)) e)
  | inr short ↦ absurd (ground (arith, next-short limit bytes (ground arith), e))
]

-- Fuel for every byte is enough: more of it changes nothing.
pub parse-fuel :
    (limit f g : ℕ) (bytes : List ℕ)
    → length bytes ≤ f
    → length bytes ≤ g
    → parse limit f bytes ≡ parse limit g bytes
unfolding parse
parse-fuel limit zero zero bytes h k = refl
parse-fuel limit zero (suc g) bytes h k = rw (next-short limit bytes (omega (arith, h)))
parse-fuel limit (suc f) zero bytes h k = rw (next-short limit bytes (omega (arith, k)))
parse-fuel limit (suc f) (suc g) bytes h k = elim (Next-cases (next limit bytes)) [
  | inl e ↦ rw e
  | inr (inl e) ↦ rw e
  | inr (inr (i, p, r, e)) ↦
      let less = shorter limit i bytes p r e in
      rw e (ap (with_msg (i, p)) (parse-fuel limit f g r (omega arith) (omega arith)))
]

length-rest :
    (limit fuel : ℕ) (bytes : List ℕ) → length (parse limit fuel bytes).rest ≤ length bytes
unfolding parse
length-rest limit zero bytes = omega arith
length-rest limit (suc fuel) bytes = elim (Next-cases (next limit bytes)) [
  | inl e ↦ rw e (omega arith)
  | inr (inl e) ↦ rw e (omega arith)
  | inr (inr (i, p, r, e)) ↦
      rw e (omega (arith, length-rest limit fuel r, shorter limit i bytes p r e))
]

-- One reading of a stream after another; after a refused length nothing more is read.
abbrev pub joined : List ℕ → Parsed → (List ℕ → Parsed) → Parsed
joined more p parse_more =
    let q = parse_more (p.rest ++ more) in
    if p.ok then record q { msgs = p.msgs ++ q.msgs } else record p { rest = p.rest ++ more }

with_msg-joined :
    (m : ℕ × List ℕ) (more : List ℕ) (p : Parsed) (f g : List ℕ → Parsed)
    → f (p.rest ++ more) ≡ g (p.rest ++ more)
    → with_msg m (joined more p f) ≡ joined more (with_msg m p) g
with_msg-joined m more p f g h = elim (Bool-cases p.ok) [ inl e ↦ rw (e, h) | inr e ↦ rw e ]

-- A stream that comes in two pieces is read as if it had come at once.
pub parse-append :
    (limit fuel : ℕ) (bytes more : List ℕ)
    → length bytes + length more ≤ fuel
    → parse limit fuel (bytes ++ more) ≡ joined more (parse limit fuel bytes) (parse limit fuel)
unfolding parse
parse-append limit zero bytes more h = refl
parse-append limit (suc fuel) bytes more h = elim (Next-cases (next limit bytes)) [
  | inl e ↦ rw e
  | inr (inl e) ↦
      let grown = next-append limit bytes more (λ w. ground (arith, e, w)) in rw (grown, e)
  | inr (inr (i, p, r, e)) ↦
      let grown = next-append limit bytes more (λ w. ground (arith, e, w)) in
      let less = shorter limit i bytes p r e in
      let left = length-rest limit fuel r in
      let len = length-append (parse limit fuel r).rest more in
      rw (grown, e)
        (ap (with_msg (i, p)) (parse-append limit fuel r more (omega arith))
          ∙ with_msg-joined (i, p) more (parse limit fuel r) (parse limit fuel)
              (parse limit (suc fuel))
              (parse-fuel limit fuel (suc fuel) ((parse limit fuel r).rest ++ more) (omega arith)
                (omega arith)))
]

encode_all-shorter :
    (limit : ℕ) (m : ℕ × List ℕ) (ms : List (ℕ × List ℕ)) (tail : List ℕ)
    → limit < 2147483648
    → Fits limit m
    → length (encode_all ms ++ tail) + 8 ≤ length (encode_all (m ∷ ms) ++ tail)
unfolding encode_all
encode_all-shorter limit m ms tail l h = omega (
  arith,
  shorter limit m.0 (encode m ++ (encode_all ms ++ tail)) m.1 (encode_all ms ++ tail)
      (next-encode limit m (encode_all ms ++ tail) l h),
  ap length (append_assoc (encode m) (encode_all ms) tail),
)

-- The messages that were written are those that are read, in their order, and what follows is left.
pub parse-encode_all :
    (limit fuel : ℕ) (msgs : List (ℕ × List ℕ)) (tail : List ℕ)
    → limit < 2147483648
    → All (Fits limit) msgs
    → next limit tail ≡ wait
    → length (encode_all msgs ++ tail) ≤ fuel
    → parse limit fuel (encode_all msgs ++ tail) ≡ record { msgs = msgs; rest = tail; ok = true }
unfolding parse encode_all
parse-encode_all limit zero [] tail l fits e h = refl
parse-encode_all limit zero (m ∷ ms) tail l fits e h =
    absurd (omega (arith, encode_all-shorter limit m ms tail l fits.0, h))
parse-encode_all limit (suc fuel) [] tail l fits e h = rw e
parse-encode_all limit (suc fuel) (m ∷ ms) tail l fits e h =
    let first = next-encode limit m (encode_all ms ++ tail) l fits.0 in
    let split = append_assoc (encode m) (encode_all ms) tail in
    let less = encode_all-shorter limit m ms tail l fits.0 in
    rw (split, first)
      (ap (with_msg m) (parse-encode_all limit fuel ms tail l fits.1 e (omega (arith, less, h))))

-- What a reader delivers of a stream that comes in pieces, each read behind what was left before.
unfoldable pub reads : ℕ → ℕ → List ℕ → List (List ℕ) → Parsed
reads limit fuel rest [] = record { msgs = []; rest = rest; ok = true }
reads limit fuel rest (piece ∷ pieces) =
    let p = parse limit fuel (rest ++ piece) in
    let q = reads limit fuel p.rest pieces in
    if p.ok then record q { msgs = p.msgs ++ q.msgs } else p

abbrev pub flat : List (List ℕ) → List ℕ
flat [] = []
flat (piece ∷ pieces) = piece ++ flat pieces

-- The messages and the outcome of a reading.
abbrev pub delivered : Parsed → List (ℕ × List ℕ) × Bool
delivered p = (p.msgs, p.ok)

parse-wait :
    (limit fuel : ℕ) (bytes : List ℕ)
    → next limit bytes ≡ wait
    → parse limit fuel bytes ≡ record { msgs = []; rest = bytes; ok = true }
unfolding parse
parse-wait limit zero bytes e = refl
parse-wait limit (suc fuel) bytes e = rw e

-- Where no length was refused, what is left holds no whole message.
parse-left :
    (limit fuel : ℕ) (bytes : List ℕ)
    → length bytes ≤ fuel
    → (parse limit fuel bytes).ok ≡ true
    → next limit (parse limit fuel bytes).rest ≡ wait
unfolding parse
parse-left limit zero bytes h e = next-short limit bytes (omega (arith, h))
parse-left limit (suc fuel) bytes h e = elim (Next-cases (next limit bytes)) [
  | inl w ↦ rw w w
  | inr (inl bad) ↦ ground (arith, ap (λ n. (parse_next (parse limit fuel) bytes n).ok) bad, e)
  | inr (inr (i, p, r, f)) ↦
      let less = shorter limit i bytes p r f in
      let done = ap (λ n. (parse_next (parse limit fuel) bytes n).ok) f in
      rw f (parse-left limit fuel r (omega (arith, less, h)) (sym done ∙ e))
]

-- However a stream is cut into pieces, the messages and the outcome are those of the whole stream.
pub reads-flat :
    (limit fuel : ℕ) (rest : List ℕ) (pieces : List (List ℕ))
    → next limit rest ≡ wait
    → length rest + length (flat pieces) ≤ fuel
    → delivered (reads limit fuel rest pieces) ≡ delivered (parse limit fuel (rest ++ flat pieces))
unfolding reads
reads-flat limit fuel rest [] e h = rw (append-nil rest, parse-wait limit fuel rest e)
reads-flat limit fuel rest (piece ∷ pieces) e h =
    let p = parse limit fuel (rest ++ piece) in
    let len = length-append rest piece in
    let more = length-append piece (flat pieces) in
    let left = length-rest limit fuel (rest ++ piece) in
    let whole = parse-append limit fuel (rest ++ piece) (flat pieces) (omega arith) in
    let split = append_assoc rest piece (flat pieces) in
    elim (Bool-cases p.ok) [
      | inl ok ↦
          rw (sym split, whole, ok)
            (ap (λ d. (p.msgs ++ d.0, d.1))
              (reads-flat limit fuel p.rest pieces
                (parse-left limit fuel (rest ++ piece) (omega arith) ok) (omega arith)))
      | inr bad ↦ rw (sym split, whole, bad)
    ]

-- However messages whose numbers are 32 bits and whose data is within the limit, with less than a
-- message behind them, are cut into pieces on their way, those messages are delivered, in their
-- order, and no length is refused.
pub reads-encode_all :
    (limit : ℕ) (msgs : List (ℕ × List ℕ)) (pieces : List (List ℕ)) (tail : List ℕ)
    → limit < 2147483648
    → All (Fits limit) msgs
    → next limit tail ≡ wait
    → flat pieces ≡ encode_all msgs ++ tail
    → delivered (reads limit (length (flat pieces)) [] pieces) ≡ (msgs, true)
reads-encode_all limit msgs pieces tail l fits e same =
    reads-flat limit (length (flat pieces)) [] pieces (next-short limit [] (omega arith))
      (omega arith)
    ∙ rw same (
        ap delivered (
          parse-encode_all limit (length (encode_all msgs ++ tail)) msgs tail l fits e
            (omega arith)))
