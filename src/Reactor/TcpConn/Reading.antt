-- ===== src/Reactor/TcpConn/Reading.antt =====
-- The read loop on the buffer is the reading of the stream that the buffer holds.
use ylars.Base.{
  ℕ, zero, suc, ◌-◌, ◌≤◌, ◌≡◌, refl, sym, ap, ◌∙◌, List, Option, some, arith, leb, ltb, true, false,
  Bool-cases, inl, inr, ◌||◌, length, take, drop, length-take, length-drop, take-take,
  take-append-drop,
}
use ylars.Base.Ints.{is_neg}
use ylars.Base.Memory.{read_at, read_at_lem}
use ylars.Reactor.IoBuf
use ylars.Reactor.IoBuf.{IoBuf, contents, IsWf}
use ylars.Reactor.IoBuf.Contents.{length-contents, pop-IsWf, contents-pop}
use ylars.Reactor.Message.{MsgHead, head_of}
use ylars.Reactor.Message.Frames.{
  next-head, head_of-append, Next, wait, abnormal, frame, next, next_of, Parsed, parse, parse_next,
}
use ylars.Reactor.TcpConn.{
  Step, waits, refused, delivers, front, front_of, frames, frames_step, Frames,
}

-- A step on the buffer, seen as what stands at the front of its bytes.
abbrev seen : Step → Next
seen waits = wait
seen refused = abnormal
seen (delivers i p b) = frame i p (contents b)

abbrev IsStep : Step → Type 0
IsStep waits = Unit
IsStep refused = Unit
IsStep (delivers i p b) = IsWf b

read-contents :
    (buf : IoBuf) (k : ℕ)
    → IsWf buf
    → k ≤ buf.datalen
    → read_at buf.head k buf.data' ≡ some (take k (contents buf))
read-contents buf k w h = rw (
  read_at_lem buf.head k buf.data' (omega (arith, h, w.0, w.1)),
  take-take k buf.datalen (drop buf.head buf.data') h,
)

head_of-take : (bytes : List ℕ) → 8 ≤ length bytes → head_of (take 8 bytes) ≡ head_of bytes
head_of-take bytes h =
    sym (head_of-append (take 8 bytes) (drop 8 bytes) (omega (arith, length-take 8 bytes, h)))
    ∙ ap head_of (take-append-drop 8 bytes)

-- What a function of the buffer yields is, on its bytes, what the reading of the stream says.
abbrev Agrees : Option Step → Next → Type 0
Agrees o n = (s : Step) × (o ≡ some s) × IsStep s × (seen s ≡ n)

front_of-Agrees :
    (limit : ℕ) (h : MsgHead) (buf : IoBuf)
    → IsWf buf
    → 8 ≤ buf.datalen
    → Agrees (front_of limit h buf) (next_of limit h (contents buf))
unfolding front_of
front_of-Agrees limit h buf w eight =
    let size = length-contents buf w in
    elim (Bool-cases (is_neg h.msglen || ltb limit h.msglen)) [
      | inl bad ↦ (refused, rw bad, tt, rw bad)
      | inr good ↦ elim (Bool-cases (ltb (buf.datalen - 8) h.msglen)) [
        | inl less ↦ (waits, rw (good, less), tt, rw (good, size, less))
        | inr full ↦
            let b : IoBuf = IoBuf.pop 8 buf in
            let b-w = pop-IsWf 8 buf w refl in
            let popped = contents-pop 8 buf w refl in
            let left = length-contents b b-w in
            let pos : is_neg h.msglen ≡ false = ground arith in
            let there : h.msglen ≤ b.datalen =
              ground (arith, left, ap length popped, length-drop 8 (contents buf), size) in
            (
              delivers h.msgid (take h.msglen (contents b)) (IoBuf.pop h.msglen b),
              rw (good, full, read-contents b h.msglen b-w there),
              pop-IsWf h.msglen b b-w pos,
              rw (good, size, full, contents-pop h.msglen b b-w pos, popped),
            )
      ]
    ]

front-Agrees :
    (limit : ℕ) (buf : IoBuf) → IsWf buf → Agrees (front limit buf) (next limit (contents buf))
unfolding front next
front-Agrees limit buf w =
    let size = length-contents buf w in
    elim (Bool-cases (leb 8 buf.datalen)) [
      | inr short ↦ (waits, rw short, tt, rw (size, short))
      | inl long ↦
          let eight : 8 ≤ buf.datalen = ground arith in
          let (s, e, sw, same) = front_of-Agrees limit (head_of (contents buf)) buf w eight in
          let head = head_of-take (contents buf) (omega (arith, size, eight)) in
          let enough : leb 8 (length (contents buf)) ≡ true = rw size long in
          (
            s,
            rw (long, read-contents buf 8 w eight, head) e,
            sw,
            same ∙ sym (next-head limit (head_of (contents buf)) (contents buf) enough refl),
          )
    ]

abbrev pub Handed : Option Frames → Parsed → Type 0
Handed o p = (buf' : IoBuf) × (o ≡ some (p.msgs, buf', p.ok)) × IsWf buf' × (contents buf' ≡ p.rest)

frames_step-Handed :
    (limit fuel : ℕ) (buf : IoBuf) (s : Step)
    → IsWf buf
    → IsStep s
    → ((b : IoBuf) → IsWf b → Handed (frames limit fuel b) (parse limit fuel (contents b)))
    → Handed
        (frames_step (frames limit fuel) buf s)
        (parse_next (parse limit fuel) (contents buf) (seen s))
frames_step-Handed limit fuel buf waits w sw more = (buf, refl, w, refl)
frames_step-Handed limit fuel buf refused w sw more = (buf, refl, w, refl)
frames_step-Handed limit fuel buf (delivers i p b) w sw more =
    let (buf', e, w', rest) = more b sw in (buf', rw e, w', rest)

-- Where the buffer is well formed, the loop has no fault: it hands on the messages that its bytes hold,
-- stops where the reading of these stops, and leaves what that leaves.
pub frames-Handed :
    (limit fuel : ℕ) (buf : IoBuf)
    → IsWf buf
    → Handed (frames limit fuel buf) (parse limit fuel (contents buf))
unfolding frames parse
frames-Handed limit zero buf w = (buf, refl, w, refl)
frames-Handed limit (suc fuel) buf w =
    let (s, e, sw, same) = front-Agrees limit buf w in
    rw (e, sym same) (frames_step-Handed limit fuel buf s w sw (frames-Handed limit fuel))
