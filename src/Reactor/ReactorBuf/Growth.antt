-- ===== src/Reactor/ReactorBuf/Growth.antt =====
-- What a buffer holds stays when it gets room for more.
use ylars.Base.{
  ℕ, ◌+◌, ◌≤◌, ◌≡◌, ◌≢◌, refl, ap, List, [], Option, none, some, arith, ltb, ◌==◌, true, Bool-cases,
  Option-cases, inl, inr, length,
}
use mathlib.Core.Path.{subst}
use ylars.Reactor.IoBuf.{IoBuf, contents}
use ylars.Reactor.IoBuf.Contents.{IsAdjusted, length-contents, copy_lem}
use ylars.Reactor.BufPool.{BufPool, alloc_buf, IsPool}
use ylars.Reactor.BufPool.Sizes.{alloc_buf-IsPool, alloc_buf-cap, release-IsPool}
use ylars.Reactor.ReactorBuf.{make_room, replace}

abbrev pub held : Option IoBuf → List ℕ
held none = []
held (some buf) = contents buf

abbrev pub IsHeld : Option IoBuf → Type 0
IsHeld none = Unit
IsHeld (some buf) = IsAdjusted buf

-- Room for `n` bytes behind those of `bytes`, in a buffer that starts with these; 16M at most were
-- taken for it.
abbrev pub Room : ℕ → ℕ → List ℕ → IoBuf → BufPool → Type 0
Room cap n bytes buf pool =
    IsAdjusted buf
    × (pool.curr_cap ≤ cap + 16384)
    × IsPool pool
    × (contents buf ≡ bytes)
    × (buf.datalen + n ≤ buf.capacity)

fresh-Room :
    (junk : ℕ → ℕ) (n : ℕ) (pool : BufPool) (buf : IoBuf)
    → IsPool pool
    → n ≤ 16777216
    → (alloc_buf junk n pool).0 ≡ some buf
    → Room pool.curr_cap n [] buf (alloc_buf junk n pool).1
fresh-Room junk n pool buf w h e =
    let (pool-w, free, fits, size_of) = alloc_buf-IsPool junk n pool buf w (ground arith) e in
    (
      (free.0, free.1),
      alloc_buf-cap junk n pool,
      pool-w,
      rw free.2,
      omega (arith, fits.1 h, free.2),
    )

replaced :
    (junk : ℕ → ℕ) (n : ℕ) (old : IoBuf) (pool : BufPool) (new_buf : IoBuf)
    → IsAdjusted old
    → IsPool pool
    → n + old.datalen ≤ 16777216
    → (alloc_buf junk (n + old.datalen) pool).0 ≡ some new_buf
    → (buf : IoBuf) × (pool' : BufPool) × (replace old (alloc_buf junk (n + old.datalen) pool)
        ≡ some (some buf, pool'))
      × Room pool.curr_cap n (contents old) buf pool'
replaced junk n old pool new_buf a w h e =
    let (pool-w, free, fits, size_of) =
      alloc_buf-IsPool junk (n + old.datalen) pool new_buf w (ground arith) e in
    let big : n + old.datalen ≤ new_buf.capacity = fits.1 h in
    let (full, copies, adj, cap, same) = copy_lem old new_buf a.0 free.0 (omega (arith, big)) in
    let (pool', b, gives, pool'-w, b-free, cap-same, rest) =
      release-IsPool old (alloc_buf junk (n + old.datalen) pool).1 a.0 pool-w in
    let size = length-contents old a.0 in
    let size' = length-contents full adj.0 in
    (
      full,
      pool',
      rw (e, copies, gives),
      (
        adj,
        omega (arith, cap-same, alloc_buf-cap junk (n + old.datalen) pool),
        pool'-w,
        same,
        omega (arith, big, cap, size, size', ap length same),
      ),
    )

-- A buffer gets the room it is asked for and keeps what it holds, where the pool has a buffer for all
-- of it and all of it is at most 16M.
pub make_room_lem :
    (junk : ℕ → ℕ) (n : ℕ) (buf : Option IoBuf) (pool : BufPool)
    → IsHeld buf
    → IsPool pool
    → n + length (held buf) ≤ 16777216
    → (alloc_buf junk (n + length (held buf)) pool).0 ≢ none
    → (buf' : IoBuf) × (pool' : BufPool) × (make_room junk n (record { buf = buf; pool = pool })
        ≡ some (some buf', pool'))
      × Room pool.curr_cap n (held buf) buf' pool'
unfolding make_room
make_room_lem junk n none pool a w h there =
    let e : n + 0 ≡ n = omega arith in
    let more = subst (λ k. (alloc_buf junk k pool).0 ≢ none) e there in
    elim (Option-cases (alloc_buf junk n pool).0) [
      | inl null ↦ absurd (more null)
      | inr (buf, got) ↦ (
        buf,
        (alloc_buf junk n pool).1,
        ap (λ o. some (o, (alloc_buf junk n pool).1)) got,
        fresh-Room junk n pool buf w (omega arith) got,
      )
    ]
make_room_lem junk n (some old) pool a w h there =
    let size = length-contents old a.0 in
    let front : (old.head == 0) ≡ true = rw (a.1) in
    let more = subst (λ k. (alloc_buf junk (n + k) pool).0 ≢ none) size there in
    elim (Bool-cases (ltb old.capacity (n + old.datalen))) [
      | inr fits ↦ (old, pool, rw (front, fits), (a, omega arith, w, refl, ground arith))
      | inl full ↦ elim (Option-cases (alloc_buf junk (n + old.datalen) pool).0) [
        | inl null ↦ absurd (more null)
        | inr (new_buf, got) ↦
            let (buf, pool', e, room) =
              replaced junk n old pool new_buf a w (omega (arith, h, size)) got in
            (buf, pool', rw (front, full) e, room)
      ]
    ]
