-- ===== src/Reactor/ReactorBuf/Transfer.antt =====
-- What reading and sending do to the bytes that a buffer holds.
use ylars.Base.{
  ℕ, ◌+◌, ◌≤◌, ◌≡◌, ◌≢◌, refl, ap, ◌∙◌, List, [], ◌∷◌, ◌++◌, Option, none, some, arith, ◌==◌, false,
  length, ==_refl,
}
use ylars.Reactor.IoBuf
use ylars.Reactor.IoBuf.{IoBuf, append, adjust, contents, IsWf}
use ylars.Reactor.IoBuf.Contents.{IsAdjusted, append_lem}
use ylars.Reactor.BufPool.{BufPool, alloc_buf, IsPool}
use ylars.Reactor.BufPool.Sizes.{release-IsPool}
use ylars.Reactor.ReactorBuf.{clear, ReactorBuf, ok, Read, moved, take_in, readfd, send_data, retry}
use ylars.Reactor.ReactorBuf.Growth.{held, IsHeld, make_room_lem}

-- A buffer with its pool, both well formed.
abbrev pub IsReady : ReactorBuf → Type 0
IsReady b = IsHeld b.buf × IsPool b.pool

-- Bytes of data that are sent stand behind those that wait already.
pub send_data_lem :
    (junk : ℕ → ℕ) (bytes : List ℕ) (b : ReactorBuf)
    → IsReady b
    → length bytes ≢ 0
    → length bytes + length (held b.buf) ≤ 16777216
    → (alloc_buf junk (length bytes + length (held b.buf)) b.pool).0 ≢ none
    → (b' : ReactorBuf) × (send_data junk (some bytes) b ≡ some (ok 0, b'))
      × IsReady b'
      × (b'.pool.curr_cap ≤ b.pool.curr_cap + 16384)
      × (held b'.buf ≡ held b.buf ++ bytes)
unfolding send_data
send_data_lem junk [] b r some_bytes h there = absurd (some_bytes refl)
send_data_lem junk (d ∷ ds) b r some_bytes h there =
    let (buf, pool, e, (adj, more_cap, w, same, room)) =
      make_room_lem junk (length (d ∷ ds)) b.buf b.pool r.0 r.1 h there in
    let (full, appends, adj', cap, bytes) = append_lem (d ∷ ds) buf adj room in
    (
      record { buf = some full; pool = pool },
      rw (e, appends),
      (adj', w),
      more_cap,
      bytes ∙ ap (λ l. l ++ (d ∷ ds)) same,
    )

-- The bytes that were announced and have come stand behind those that were there, whatever signals
-- interrupted the call.
pub readfd_lem :
    (junk : ℕ → ℕ) (bytes : List ℕ) (reads : List Read) (b : ReactorBuf)
    → IsReady b
    → length bytes ≢ 0
    → retry reads ≡ some (moved bytes)
    → length bytes + length (held b.buf) ≤ 16777216
    → (alloc_buf junk (length bytes + length (held b.buf)) b.pool).0 ≢ none
    → (full : IoBuf) × (pool : BufPool) × (readfd junk (some (length bytes)) reads b
        ≡ some (ok (length bytes), record { buf = some full; pool = pool }))
      × (IsAdjusted full × IsPool pool)
      × (contents full ≡ held b.buf ++ bytes)
unfolding readfd take_in
readfd_lem junk bytes reads b r some_bytes got h there =
    let (buf, pool, e, (adj, more_cap, w, same, room)) =
      make_room_lem junk (length bytes) b.buf b.pool r.0 r.1 h there in
    let (full, appends, adj', cap, all) = append_lem bytes buf adj room in
    let more : (length bytes == 0) ≡ false = ground arith in
    (
      full,
      pool,
      rw (e, got, more, ==_refl (length bytes), appends),
      (adj', w),
      all ∙ ap (λ l. l ++ bytes) same,
    )

abbrev pub IsSound : Option IoBuf → Type 0
IsSound none = Unit
IsSound (some buf) = IsWf buf

pub IsHeld-IsSound : (buf : Option IoBuf) → IsHeld buf → IsSound buf
IsHeld-IsSound none h = tt
IsHeld-IsSound (some buf) h = h.0

-- The memory of a buffer that is cleared goes back to the pool.
pub clear_lem :
    (buf : Option IoBuf) (pool : BufPool)
    → IsSound buf
    → IsPool pool
    → (pool' : BufPool) × (clear (record { buf = buf; pool = pool })
        ≡ some (record { buf = none; pool = pool' }))
      × IsPool pool'
unfolding clear
clear_lem none pool s w = (pool, refl, w)
clear_lem (some buf) pool s w =
    let (pool', b, e, w', free, cap, rest) = release-IsPool buf pool s w in (pool', rw e, w')
