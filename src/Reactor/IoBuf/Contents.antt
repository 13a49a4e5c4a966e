-- ===== src/Reactor/IoBuf/Contents.antt =====
-- What the operations of a buffer do to the bytes in it.
use ylars.Base.{
  ℕ, ◌+◌, ◌-◌, ◌≤◌, ◌≡◌, refl, sym, ap, ◌∙◌, min, List, ◌++◌, some, arith, leb, true, false,
  Bool-cases, inl, inr, length, take, drop, replicate, length-take, length-drop, length-replicate,
  take-append_eq, drop-drop, drop-min, take-drop,
}
use ylars.Base.Ints.{is_neg}
use ylars.Base.Memory.{
  written, read_at_lem, write_at_lem, length-block, length-written, take-written,
}
use ylars.Reactor.IoBuf.{IoBuf, io_buf, pop, moved, adjust, copy, append, contents, IsWf}

pub io_buf-IsWf :
    (junk : ℕ → ℕ) (capacity : ℕ) → leb 2147483648 capacity ≡ false → IsWf (io_buf junk capacity)
unfolding io_buf
io_buf-IsWf junk capacity h = (length-block capacity junk, omega arith, h)

-- A pop takes bytes from the front, all of them at most.
pub pop-IsWf : (n : ℕ) (buf : IoBuf) → IsWf buf → is_neg n ≡ false → IsWf (pop n buf)
unfolding pop
pop-IsWf n buf w h = rw h (w.0, omega (arith, w.1), w.2)

pub pop-capacity : (n : ℕ) (buf : IoBuf) → (pop n buf).capacity ≡ buf.capacity
unfolding pop
pop-capacity n buf = ground arith

pub length-contents : (buf : IoBuf) → IsWf buf → length (contents buf) ≡ buf.datalen
length-contents buf w = omega (
  arith,
  length-take buf.datalen (drop buf.head buf.data'),
  length-drop buf.head buf.data',
  w.0,
  w.1,
)

pub contents-pop :
    (n : ℕ) (buf : IoBuf)
    → IsWf buf
    → is_neg n ≡ false
    → contents (pop n buf) ≡ drop n (contents buf)
unfolding pop
contents-pop n buf w h =
    let m : ℕ = min n buf.datalen in
    let len = length-contents buf w in
    let rest : m + (buf.datalen - m) ≡ buf.datalen = omega arith in
    rw
      (
        h,
        sym (drop-drop buf.head m buf.data'),
        take-drop m (buf.datalen - m) (drop buf.head buf.data'),
        rest,
      )
      (ap (λ k. drop (min n k) (contents buf)) (sym len) ∙ drop-min n (contents buf))

-- Well-formed buffers with nothing in front of the bytes in use.
abbrev pub IsAdjusted : IoBuf → Type 0
IsAdjusted buf = IsWf buf × (buf.head ≡ 0)

pub moved_lem :
    (buf : IoBuf)
    → IsWf buf
    → (memory : List ℕ) × (moved buf ≡ some memory)
      × (length memory ≡ buf.capacity)
      × (take buf.datalen memory ≡ contents buf)
moved_lem buf w = elim (Bool-cases (leb 1 buf.datalen)) [
  | inl e ↦
      let len = length-contents buf w in
      let fits : 0 + length (contents buf) ≤ length buf.data' = omega (arith, w.0, w.1) in
      (
        written 0 (contents buf) buf.data',
        rw (e, read_at_lem buf.head buf.datalen buf.data' (omega (arith, w.0, w.1)))
            (write_at_lem 0 (contents buf) buf.data' fits),
        length-written 0 (contents buf) buf.data' fits ∙ w.0,
        take-append_eq buf.datalen (contents buf) (drop (0 + length (contents buf)) buf.data') len,
      )
  | inr e ↦ let z : buf.datalen ≡ 0 = ground arith in (buf.data', rw e, w.0, rw z)
]

-- An adjusted buffer holds the same bytes, from its front on.
pub adjust_lem :
    (buf : IoBuf)
    → IsWf buf
    → (buf' : IoBuf) × (adjust buf ≡ some buf')
      × IsAdjusted buf'
      × (buf'.capacity ≡ buf.capacity)
      × (buf'.datalen ≡ buf.datalen)
      × (contents buf' ≡ contents buf)
unfolding adjust
adjust_lem buf w = elim (Bool-cases (leb 1 buf.head)) [
  | inl e ↦
      let (memory, moves, len, same) = moved_lem buf w in
      let zeros : List ℕ = replicate (buf.capacity - buf.datalen) 0 in
      let fits : buf.datalen + length zeros ≤ length memory =
        omega (arith, w.1, len, length-replicate {A = ℕ} (buf.capacity - buf.datalen) 0) in
      let kept : length (take buf.datalen memory) ≡ buf.datalen =
        omega (arith, length-take buf.datalen memory, w.1, len) in
      (
        record buf { data' = written buf.datalen zeros memory; head = 0 },
        rw (e, moves, write_at_lem buf.datalen zeros memory fits),
        ((length-written buf.datalen zeros memory fits ∙ len, omega (arith, w.1), w.2), refl),
        refl,
        refl,
        take-append_eq buf.datalen (take buf.datalen memory) _ kept ∙ same,
      )
  | inr e ↦ (buf, rw e, (w, ground arith), refl, refl, refl)
]

pub append_lem :
    (bytes : List ℕ) (buf : IoBuf)
    → IsAdjusted buf
    → buf.datalen + length bytes ≤ buf.capacity
    → (buf' : IoBuf) × (append bytes buf ≡ some buf')
      × IsAdjusted buf'
      × (buf'.capacity ≡ buf.capacity)
      × (contents buf' ≡ contents buf ++ bytes)
unfolding append
append_lem bytes buf w h =
    let fits : buf.datalen + length bytes ≤ length buf.data' = omega (arith, w.0.0) in
    (
      record buf {
        data' = written buf.datalen bytes buf.data';
        datalen = buf.datalen + length bytes;
      },
      rw (write_at_lem buf.datalen bytes buf.data' fits),
      ((length-written buf.datalen bytes buf.data' fits ∙ w.0.0, omega (arith, w.1), w.0.2), w.1),
      refl,
      rw w.1 (take-written buf.datalen bytes buf.data' fits),
    )

-- A copy holds what the other buffer holds, and nothing of what was there before.
pub copy_lem :
    (buf self : IoBuf)
    → IsWf buf
    → IsWf self
    → buf.datalen ≤ self.capacity
    → (self' : IoBuf) × (copy (some buf) self ≡ some self')
      × IsAdjusted self'
      × (self'.capacity ≡ self.capacity)
      × (contents self' ≡ contents buf)
unfolding copy
copy_lem buf self w w' h =
    let drained : IsWf (pop self.datalen self) =
      pop-IsWf self.datalen self w' (ground (arith, w'.1, w'.2)) in
    let (clear, cleared, (wf, front), cap, len, same) =
      adjust_lem (pop self.datalen self) drained in
    let bytes = length-contents buf w in
    let size : clear.capacity ≡ self.capacity = cap ∙ pop-capacity self.datalen self in
    let fits : 0 + length (contents buf) ≤ length clear.data' = omega (arith, wf.0) in
    let test : leb buf.datalen self.capacity ≡ true = ground arith in
    let self_test : leb buf.datalen buf.datalen ≡ true = ground arith in
    (
      record clear { datalen = buf.datalen; data' = written 0 (contents buf) clear.data' },
      rw
          (
            self_test,
            test,
            cleared,
            read_at_lem buf.head buf.datalen buf.data' (omega (arith, w.0, w.1)),
          )
          (rw (write_at_lem 0 (contents buf) clear.data' fits)),
      ((length-written 0 (contents buf) clear.data' fits ∙ wf.0, omega (arith, wf.1), wf.2), front),
      size,
      rw front (take-append_eq buf.datalen (contents buf) _ bytes),
    )
