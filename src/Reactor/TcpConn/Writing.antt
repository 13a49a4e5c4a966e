-- ===== src/Reactor/TcpConn/Writing.antt =====
-- A connection reads and writes messages.
use ylars.Base.{
  append-nil, ℕ, ◌+◌, ◌≤◌, ◌≡◌, ◌≢◌, refl, sym, ap, ◌∙◌, List, [], ◌∷◌, ◌++◌, none, some, arith,
  Bool, true, false, if◌then◌else◌, length, length-append, append_assoc,
}
use ylars.Reactor.IoBuf.{IoBuf, contents, IsWf}
use ylars.Reactor.IoBuf.Contents.{length-contents, adjust_lem}
use ylars.Reactor.BufPool.{alloc_buf, IsPool, max_buf_pool_cap}
use ylars.Reactor.BufPool.Sizes.{alloc_buf-room}
use ylars.Reactor.ReactorBuf.{ReactorBuf, Read, moved, fail, ok, retry, send_data}
use ylars.Reactor.ReactorBuf.Growth.{held, IsHeld}
use ylars.Reactor.ReactorBuf.Transfer.{
  readfd_lem, send_data_lem, clear_lem, IsSound, IsHeld-IsSound,
}
use ylars.Reactor.Message.{head_bytes}
use ylars.Reactor.Message.Frames.{parse, encode}
use ylars.Reactor.TcpConn.{after_frames, TcpConn, clean, do_read, send_msg}
use ylars.Reactor.TcpConn.Reading.{frames-Handed}

-- The buffers and the pool of a connection are well formed.
abbrev pub IsConn : TcpConn → Type 0
IsConn c = IsHeld c.ibuf × IsHeld c.obuf × IsPool c.pool

clean_lem :
    (c : TcpConn)
    → IsSound c.ibuf
    → IsSound c.obuf
    → IsPool c.pool
    → (c' : TcpConn) × (clean c ≡ some c') × IsConn c' × (c'.is_open ≡ false) × (held c'.ibuf ≡ [])
unfolding clean
clean_lem c is os w =
    let (pool, i, iw) = clear_lem c.ibuf c.pool is w in
    let (pool', o, ow) = clear_lem c.obuf pool os iw in
    (
      record { ibuf = none; obuf = none; pool = pool'; is_open = false; writable = false },
      rw (i, o),
      (tt, tt, ow),
      refl,
      refl,
    )

after_frames_lem :
    (c : TcpConn) (msgs : List (ℕ × List ℕ)) (buf : IoBuf) (done : Bool)
    → IsHeld c.obuf
    → IsPool c.pool
    → c.is_open ≡ true
    → IsWf buf
    → (c' : TcpConn) × (after_frames c (msgs, buf, done) ≡ some (msgs, c'))
      × IsConn c'
      × (c'.is_open ≡ done)
      × (held c'.ibuf ≡ (if done then contents buf else []))
after_frames_lem c msgs buf true os w live bw =
    let (rest, e, adj, cap, size, same) = adjust_lem buf bw in
    (record c { ibuf = some rest }, rw e, (adj, os, w), live, same)
after_frames_lem c msgs buf false os w live bw =
    let (c', e, cw, closed, gone) =
      clean_lem (record c { ibuf = some buf }) bw (IsHeld-IsSound c.obuf os) w in
    (c', rw e, cw, closed, gone)

-- On an open connection with well-formed buffers, where read brings the bytes that ioctl
-- announced, these and what was left before are 16M at most, and the pool has a buffer for them: a
-- read delivers the messages in what was left before and what has come, in their order. What is
-- left is kept for the next read, and a length that is refused closes the connection.
pub do_read_lem :
    (limit : ℕ) (junk : ℕ → ℕ) (d : ℕ) (ds : List ℕ) (reads : List Read) (c : TcpConn)
    → IsConn c
    → c.is_open ≡ true
    → retry reads ≡ some (moved (d ∷ ds))
    → length (d ∷ ds) + length (held c.ibuf) ≤ 16777216
    → (alloc_buf junk (length (d ∷ ds) + length (held c.ibuf)) c.pool).0 ≢ none
    → let bytes = held c.ibuf ++ (d ∷ ds) in
      let p = parse limit (length bytes) bytes in
      (c' : TcpConn) × (do_read limit junk (some (length (d ∷ ds))) reads c ≡ some (p.msgs, c'))
      × IsConn c'
      × (c'.is_open ≡ p.ok)
      × (held c'.ibuf ≡ (if p.ok then p.rest else []))
unfolding do_read
do_read_lem limit junk d ds reads c w live got h there =
    let b : ReactorBuf = record { buf = c.ibuf; pool = c.pool } in
    let (full, pool, e, (adj, pw), bytes) =
      readfd_lem junk (d ∷ ds) reads b (w.0, w.2) (omega arith) got h there in
    let size = length-contents full adj.0 in
    let (buf, loop, bw, rest) = frames-Handed limit full.datalen full adj.0 in
    let whole = held c.ibuf ++ (d ∷ ds) in
    let len : full.datalen ≡ length whole = sym size ∙ ap length bytes in
    let (c', after, cw, live', left) =
      after_frames_lem (record c { ibuf = some full; pool = pool })
        (parse limit full.datalen (contents full)).msgs buf
        (parse limit full.datalen (contents full)).ok w.1 pw live bw in
    let same : parse limit full.datalen (contents full) ≡ parse limit (length whole) whole =
      ap (parse limit full.datalen) bytes ∙ ap (λ n. parse limit n whole) len in
    (c', rw (e, loop, after, same), cw, live' ∙ ap (λ p. p.ok) same, left ∙ rw (rest, same))

length-head_bytes :
    (msgid msglen : ℕ) → length (head_bytes (record { msgid = msgid; msglen = msglen })) ≡ 8
unfolding head_bytes
length-head_bytes msgid msglen = refl

-- What a sending leaves, and how much of the pool it takes at most.
pub send_msg-grown :
    (junk : ℕ → ℕ) (msgid d : ℕ) (ds : List ℕ) (c : TcpConn)
    → IsConn c
    → 8 + length (d ∷ ds) + length (held c.obuf) ≤ 16777216
    → c.pool.curr_cap + 32768 ≤ max_buf_pool_cap
    → (c' : TcpConn) × (send_msg junk msgid (d ∷ ds) c ≡ some (ok 0, c'))
      × IsConn c'
      × (c'.writable ≡ true)
      × (held c'.obuf ≡ held c.obuf ++ encode (msgid, d ∷ ds))
      × (c'.pool.curr_cap ≤ c.pool.curr_cap + 32768)
unfolding send_msg encode
send_msg-grown junk msgid d ds c w h room =
    let b : ReactorBuf = record { buf = c.obuf; pool = c.pool } in
    let head : List ℕ = head_bytes (record { msgid = msgid; msglen = length (d ∷ ds) }) in
    let eight : length head ≡ 8 = length-head_bytes msgid (length (d ∷ ds)) in
    let (b', head_sent, r', cap, bytes) =
      send_data_lem junk head b (w.1, w.2) (omega arith) (omega arith)
        (alloc_buf-room junk _ c.pool (omega arith)) in
    let total = length-append (held c.obuf) head in
    let all = ap length bytes in
    let (b'', sent, r'', cap', bytes') =
      send_data_lem junk (d ∷ ds) b' r' (omega arith) (omega arith)
        (alloc_buf-room junk _ b'.pool (omega arith)) in
    (
      record c { obuf = b''.buf; pool = b''.pool; writable = true },
      rw (head_sent, sent),
      (w.0, r''.0, r''.1),
      refl,
      bytes' ∙ ap (λ l. l ++ (d ∷ ds)) bytes ∙ append_assoc (held c.obuf) head (d ∷ ds),
      omega (arith, cap, cap'),
    )

-- Where the pool may still take 32M and no more than 16M wait to be written: a message with data
-- that is sent stands, header and data, behind what waits to be written, and the connection waits
-- for the socket to take it.
pub send_msg_lem :
    (junk : ℕ → ℕ) (msgid d : ℕ) (ds : List ℕ) (c : TcpConn)
    → IsConn c
    → 8 + length (d ∷ ds) + length (held c.obuf) ≤ 16777216
    → c.pool.curr_cap + 32768 ≤ max_buf_pool_cap
    → (c' : TcpConn) × (send_msg junk msgid (d ∷ ds) c ≡ some (ok 0, c'))
      × IsConn c'
      × (c'.writable ≡ true)
      × (held c'.obuf ≡ held c.obuf ++ encode (msgid, d ∷ ds))
send_msg_lem junk msgid d ds c w h room =
    let (c', sent, w', out, bytes, grown) = send_msg-grown junk msgid d ds c w h room in
    (c', sent, w', out, bytes)

-- Where the pool may still take 16M and no more than 16M wait to be written: a message without
-- data is refused after its header has been put behind what waits to be written, and the
-- connection does not come to wait for the socket on its account.
pub send_msg-nil :
    (junk : ℕ → ℕ) (msgid : ℕ) (c : TcpConn)
    → IsConn c
    → 8 + length (held c.obuf) ≤ 16777216
    → c.pool.curr_cap + 16384 ≤ max_buf_pool_cap
    → (c' : TcpConn) × (send_msg junk msgid [] c ≡ some (fail, c'))
      × IsConn c'
      × (c'.writable ≡ c.writable)
      × (held c'.obuf ≡ held c.obuf ++ encode (msgid, []))
unfolding send_msg encode send_data
send_msg-nil junk msgid c w h room =
    let b : ReactorBuf = record { buf = c.obuf; pool = c.pool } in
    let head : List ℕ = head_bytes (record { msgid = msgid; msglen = 0 }) in
    let eight : length head ≡ 8 = length-head_bytes msgid 0 in
    let (b', head_sent, r', cap, bytes) =
      send_data_lem junk head b (w.1, w.2) (omega arith) (omega arith)
        (alloc_buf-room junk _ c.pool (omega arith)) in
    (
      record c { obuf = b'.buf; pool = b'.pool },
      rw head_sent,
      (w.0, r'.0, r'.1),
      refl,
      bytes ∙ ap (λ l. held c.obuf ++ l) (sym (append-nil head)),
    )
