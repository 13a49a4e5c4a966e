-- ===== src/Reactor/TcpClient/Waiting.antt =====
-- Messages that are sent before the connection stands.
use ylars.Base.{
  ℕ, ◌+◌, ◌≤◌, ◌<◌, ◌≡◌, refl, sym, ap, List, [], ◌∷◌, ◌++◌, Option, none, some, true, false, arith,
  length, length-append,
}
use ylars.Reactor.IoBuf.{IoBuf}
use ylars.Reactor.IoBuf.Contents.{length-contents}
use ylars.Reactor.BufPool.{BufPool, max_buf_pool_cap}
use ylars.Reactor.ReactorBuf.{ok, len}
use ylars.Reactor.ReactorBuf.Growth.{held, IsHeld}
use ylars.Reactor.Message.Frames.{encode}
use ylars.Reactor.Udp.Transfer.{length-encode}
use ylars.Reactor.TcpConn.{TcpConn}
use ylars.Reactor.TcpConn.Writing.{IsConn, send_msg_lem}
use ylars.Reactor.TcpClient.{
  TcpClient, started, call, waits, start_hook_call, connect_ser, send_msg, on_writable,
}

len-held :
    (buf : Option IoBuf) (pool : BufPool)
    → IsHeld buf
    → len (record { buf = buf; pool = pool }) ≡ length (held buf)
len-held none pool h = refl
len-held (some buf) pool h = sym (length-contents buf h.0)

abbrev pub connected : TcpConn → TcpClient → TcpClient
connected conn c = record c {
  conn = record conn { writable = waits conn };
  connecting = false;
  reading = true;
  calls = c.calls ++ call started c.start_cb;
}

on_writable-connected :
    (c : TcpClient)
    → c.connecting ≡ true
    → c.conn.writable ≡ true
    → on_writable 0 [] c ≡ some (connected c.conn c)
unfolding on_writable connect_ser start_hook_call
on_writable-connected c e w = rw (e, w)

encode-some : (m : ℕ × List ℕ) → 0 < length (encode m)
encode-some m = omega (arith, length-encode m)

-- Where the pool may still take 32M and no more than 16M wait: a message with data that is sent while
-- the client is connecting does not disturb the connecting; when the connection stands, the start hook
-- is called once if there is one, the client reads, and the message waits to be written behind what
-- waited before, with EPOLLOUT waited for.
pub send_msg-on_writable :
    (junk : ℕ → ℕ) (msgid d : ℕ) (ds : List ℕ) (c : TcpClient)
    → IsConn c.conn
    → c.connecting ≡ true
    → 8 + length (d ∷ ds) + length (held c.conn.obuf) ≤ 16777216
    → c.conn.pool.curr_cap + 32768 ≤ max_buf_pool_cap
    → (sent : TcpClient) × (end : TcpClient) × (send_msg junk msgid (d ∷ ds) c ≡ some (ok 0, sent))
      × (on_writable 0 [] sent ≡ some end)
      × (end.calls ≡ c.calls ++ call started c.start_cb)
      × (end.connecting ≡ false)
      × (end.reading ≡ true)
      × (end.conn.writable ≡ true)
      × (held end.conn.obuf ≡ held c.conn.obuf ++ encode (msgid, d ∷ ds))
unfolding send_msg
send_msg-on_writable junk msgid d ds c w e h room =
    let (conn, ran, iw, out, bytes) = send_msg_lem junk msgid d ds c.conn w h room in
    let sent = record c { conn = conn } in
    let some_bytes : 0 < length (held conn.obuf) = omega (
      arith,
      ap length bytes,
      length-append (held c.conn.obuf) (encode (msgid, d ∷ ds)),
      encode-some (msgid, d ∷ ds),
    ) in
    let waiting : waits conn ≡ true = ground (arith, len-held conn.obuf conn.pool iw.1) in
    (
      sent,
      connected conn sent,
      rw ran,
      on_writable-connected sent e out,
      refl,
      refl,
      refl,
      waiting,
      bytes,
    )
