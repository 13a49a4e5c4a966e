-- ===== src/Reactor/Message/Frames.antt =====
-- Messages in a stream of bytes.
use ylars.Base.{
  ℕ, zero, suc, ◌-◌, ◌≤◌, ◌<◌, ◌≡◌, refl, ◌∙◌, List, [], ◌∷◌, ◌++◌, arith, leb, ltb, Bool, true,
  false, Bool-cases, inl, inr, if◌then◌else◌, ◌||◌, length, length-append, length-drop, take-append,
  drop-append, take-append_le, drop-append_le, ◌≢◌, take, drop,
}
use ylars.Base.Ints.{is_neg}
use ylars.Reactor.Message.{MsgHead, int_bytes, int_of, head_bytes, head_of}

-- What stands at the front of a stream: too little for a message, a length that is refused, or a
-- message, with its number, its data and what follows.
pub data Next : Type 0 where
  wait abnormal : Next
  frame : ℕ → List ℕ → List ℕ → Next

abbrev pub next_of : ℕ → MsgHead → List ℕ → Next
next_of limit h bytes =
    if is_neg h.msglen || ltb limit h.msglen
    then abnormal
    else if ltb (length bytes - 8) h.msglen
    then wait
    else frame h.msgid (take h.msglen (drop 8 bytes)) (drop h.msglen (drop 8 bytes))

unfoldable pub next : ℕ → List ℕ → Next
next limit bytes = if leb 8 (length bytes) then next_of limit (head_of bytes) bytes else wait

-- The messages of a stream, what is left of it, and whether no length was refused.
pub record Parsed : Type 0 where
  pub msgs : List (ℕ × List ℕ)
  pub rest : List ℕ
  pub ok : Bool

abbrev pub with_msg : ℕ × List ℕ → Parsed → Parsed
with_msg m p = record p { msgs = m ∷ p.msgs }

abbrev pub parse_next : (List ℕ → Parsed) → List ℕ → Next → Parsed
parse_next parse_rest bytes wait = record { msgs = []; rest = bytes; ok = true }
parse_next parse_rest bytes abnormal = record { msgs = []; rest = bytes; ok = false }
parse_next parse_rest bytes (frame msgid payload rest) = with_msg (msgid, payload) (parse_rest rest)

unfoldable pub parse : ℕ → ℕ → List ℕ → Parsed
parse limit zero bytes = record { msgs = []; rest = bytes; ok = true }
parse limit (suc fuel) bytes = parse_next (parse limit fuel) bytes (next limit bytes)

-- A message as send_msg lays it out.
unfoldable pub encode : ℕ × List ℕ → List ℕ
encode (msgid, payload) = head_bytes (record { msgid = msgid; msglen = length payload }) ++ payload

unfoldable pub encode_all : List (ℕ × List ℕ) → List ℕ
encode_all [] = []
encode_all (m ∷ ms) = encode m ++ encode_all ms

pub int_of-int_bytes : (n : ℕ) (rest : List ℕ) → n < 4294967296 → int_of (int_bytes n ++ rest) ≡ n
unfolding int_of
int_of-int_bytes n rest h = omega arith

-- A message that the reader takes: a number of 32 bits, and no more data than the limit.
abbrev pub Fits : ℕ → ℕ × List ℕ → Type 0
Fits limit m = (m.0 < 4294967296) × (length m.1 ≤ limit)

pub head_of-head_bytes :
    (msgid msglen : ℕ) (more : List ℕ)
    → msgid < 4294967296
    → msglen < 4294967296
    → head_of (head_bytes (record { msgid = msgid; msglen = msglen }) ++ more)
      ≡ record { msgid = msgid; msglen = msglen }
unfolding head_of head_bytes
head_of-head_bytes msgid msglen more h k =
    rw (int_of-int_bytes msgid (int_bytes msglen ++ more) h, int_of-int_bytes msglen more k)

pub next-head :
    (limit : ℕ) (h : MsgHead) (bytes : List ℕ)
    → leb 8 (length bytes) ≡ true
    → head_of bytes ≡ h
    → next limit bytes ≡ next_of limit h bytes
unfolding next
next-head limit h bytes e f = rw (e, f)

next_of-frame :
    (limit msgid : ℕ) (bytes payload more : List ℕ)
    → limit < 2147483648
    → length payload ≤ limit
    → drop 8 bytes ≡ payload ++ more
    → length payload ≤ length bytes - 8
    → next_of limit (record { msgid = msgid; msglen = length payload }) bytes
      ≡ frame msgid payload more
next_of-frame limit msgid bytes payload more l h e k =
    let taken : (is_neg (length payload) || ltb limit (length payload)) ≡ false = ground arith in
    let there : ltb (length bytes - 8) (length payload) ≡ false = ground arith in
    rw (taken, there, e, take-append payload more, drop-append payload more)

-- The message at the front of a stream is read, and the rest of the stream is left.
pub next-encode :
    (limit : ℕ) (m : ℕ × List ℕ) (more : List ℕ)
    → limit < 2147483648
    → Fits limit m
    → next limit (encode m ++ more) ≡ frame m.0 m.1 more
unfolding encode head_bytes
next-encode limit (msgid, payload) more l h =
    let len = length-append payload more in
    let head =
      head_of-head_bytes msgid (length payload) (payload ++ more) h.0 (omega (arith, h.1, l)) in
    next-head limit (record { msgid = msgid; msglen = length payload })
      (encode (msgid, payload) ++ more) (ground arith) head
    ∙ next_of-frame limit msgid (encode (msgid, payload) ++ more) payload more l h.1 refl
        (omega arith)

int_of-append : (bytes more : List ℕ) → 4 ≤ length bytes → int_of (bytes ++ more) ≡ int_of bytes
unfolding int_of
int_of-append [] more h = absurd (omega arith)
int_of-append (a ∷ []) more h = absurd (omega arith)
int_of-append (a ∷ b ∷ []) more h = absurd (omega arith)
int_of-append (a ∷ b ∷ c ∷ []) more h = absurd (omega arith)
int_of-append (a ∷ b ∷ c ∷ d ∷ rest) more h = refl

pub head_of-append :
    (bytes more : List ℕ) → 8 ≤ length bytes → head_of (bytes ++ more) ≡ head_of bytes
unfolding head_of
head_of-append bytes more h = rw (
  int_of-append bytes more (omega (arith, h)),
  drop-append_le 4 bytes more (omega (arith, h)),
  int_of-append (drop 4 bytes) more (omega (arith, h, length-drop 4 bytes)),
)

-- What a longer stream has at its front.
abbrev pub extend : List ℕ → Next → Next
extend more wait = wait
extend more abnormal = abnormal
extend more (frame msgid payload rest) = frame msgid payload (rest ++ more)

-- What stands at the front, a message or a refused length, stays there when the stream grows.
pub next-append :
    (limit : ℕ) (bytes more : List ℕ)
    → next limit bytes ≢ wait
    → next limit (bytes ++ more) ≡ extend more (next limit bytes)
unfolding next
next-append limit bytes more h = elim (Bool-cases (leb 8 (length bytes))) [
  | inr short ↦ absurd (h (rw short))
  | inl long ↦
      let eight : 8 ≤ length bytes = ground arith in
      let len = length-append bytes more in
      let longer : leb 8 (length (bytes ++ more)) ≡ true = ground arith in
      let same = head_of-append bytes more eight in
      elim (Bool-cases (is_neg (head_of bytes).msglen || ltb limit (head_of bytes).msglen)) [
        | inl bad ↦ rw (long, longer, same, bad)
        | inr good ↦ elim (Bool-cases (ltb (length bytes - 8) (head_of bytes).msglen)) [
          | inl less ↦ absurd (h (rw (long, good, less)))
          | inr full ↦
              let enough : ltb (length (bytes ++ more) - 8) (head_of bytes).msglen ≡ false =
                ground arith in
              let fits : (head_of bytes).msglen ≤ length (drop 8 bytes) =
                ground (arith, length-drop 8 bytes) in
              rw (long, longer, same, good, full, enough, drop-append_le 8 bytes more eight)
                (rw (
                  take-append_le (head_of bytes).msglen (drop 8 bytes) more fits,
                  drop-append_le (head_of bytes).msglen (drop 8 bytes) more fits,
                ))
        ]
      ]
]
