-- ===== src/Reactor/TcpConn.antt =====
-- reactor/src/tcp_conn.cpp, and the same operations of src/tcp_client.cpp: one end of a connection.
-- The two read loops differ in the longest message that they take, which is the argument `limit`.
-- The messages that go to the router are part of the result; a callback that closes the connection it
-- was called for is not modelled.
pub mod Reading
pub mod Writing
mod Tests
use ylars.Base.{
  ℕ, zero, suc, ◌+◌, ◌-◌, List, [], ◌∷◌, ◌++◌, Option, none, some, Bool, true, false, leb, ltb,
  ◌||◌, if◌then◌else◌, ◌>>=◌, length,
}
use ylars.Base.Ints.{is_neg}
use ylars.Base.Memory.{read_at}
use ylars.Reactor.IoBuf
use ylars.Reactor.IoBuf.{IoBuf, adjust}
use ylars.Reactor.BufPool.{BufPool}
use ylars.Reactor.ReactorBuf.{
  ReactorBuf, Ret, fail, ok, Read, Write, clear, len, readfd, send_data, write2fd,
}
use ylars.Reactor.Message.{MsgHead, head_of, head_bytes}

-- `is_open` until clean, `writable` while EPOLLOUT is waited for.
pub record TcpConn : Type 0 where
  pub ibuf : Option IoBuf
  pub obuf : Option IoBuf
  pub pool : BufPool
  pub is_open : Bool
  pub writable : Bool

-- Its guard, _sockfd > 0, holds of every socket that was accepted; clean does not reset it. The client's
-- clean does, and has the guard where TcpClient calls this one.
unfoldable pub clean : TcpConn → Option TcpConn
clean c = clear (record { buf = c.ibuf; pool = c.pool }) >>= λ i.
    clear (record { buf = c.obuf; pool = i.pool }) >>= λ o.
    some (record { ibuf = i.buf; obuf = o.buf; pool = o.pool; is_open = false; writable = false })

-- What stands at the front of the buffer: too little, a length that is refused, or a message, which
-- leaves the buffer.
pub data Step : Type 0 where
  waits refused : Step
  delivers : ℕ → List ℕ → IoBuf → Step

unfoldable pub front_of : ℕ → MsgHead → IoBuf → Option Step
front_of limit h buf =
    if is_neg h.msglen || ltb limit h.msglen
    then some refused
    else if ltb (buf.datalen - 8) h.msglen
    then some waits
    else (let b = IoBuf.pop 8 buf in
        read_at b.head h.msglen b.data' >>= λ payload.
        some (delivers h.msgid payload (IoBuf.pop h.msglen b)))

unfoldable pub front : ℕ → IoBuf → Option Step
front limit buf =
    if leb 8 buf.datalen
    then (read_at buf.head 8 buf.data' >>= λ h. front_of limit (head_of h) buf)
    else some waits

-- The messages that the loop hands to the router, the buffer it leaves, and whether it came to its end.
abbrev pub Frames : Type 0
Frames = List (ℕ × List ℕ) × IoBuf × Bool

abbrev pub frames_step : (IoBuf → Option Frames) → IoBuf → Step → Option Frames
frames_step more buf waits = some ([], buf, true)
frames_step more buf refused = some ([], buf, false)
frames_step more buf (delivers msgid payload rest) =
    more rest >>= λ (msgs, buf', done). some ((msgid, payload) ∷ msgs, buf', done)

-- Each turn of the loop takes eight bytes at least, so that their number is fuel enough.
unfoldable pub frames : ℕ → ℕ → IoBuf → Option Frames
frames limit zero buf = some ([], buf, true)
frames limit (suc fuel) buf = front limit buf >>= λ s. frames_step (frames limit fuel) buf s

abbrev pub Delivered : Type 0
Delivered = List (ℕ × List ℕ) × TcpConn

abbrev closed : TcpConn → Option Delivered
closed c = clean c >>= λ c'. some ([], c')

abbrev pub after_frames : TcpConn → Frames → Option Delivered
after_frames c (msgs, buf, true) = adjust buf >>= λ rest. some (msgs, record c { ibuf = some rest })
after_frames c (msgs, buf, false) = clean (record c { ibuf = some buf }) >>= λ c'. some (msgs, c')

-- After a read that has brought something the buffer is there.
abbrev after_read : ℕ → TcpConn → Ret × ReactorBuf → Option Delivered
after_read limit c (fail, b) = closed (record c { ibuf = b.buf; pool = b.pool })
after_read limit c (ok zero, b) = closed (record c { ibuf = b.buf; pool = b.pool })
after_read limit c (ok (suc n), b) = b.buf >>= λ buf.
    frames limit buf.datalen buf >>= λ f. after_frames (record c { ibuf = b.buf; pool = b.pool }) f

unfoldable pub do_read :
    ℕ → (ℕ → ℕ) → Option ℕ → List Read → TcpConn → Option (List (ℕ × List ℕ) × TcpConn)
do_read limit junk need_read reads c =
    readfd junk need_read reads (record { buf = c.ibuf; pool = c.pool }) >>= λ r.
    after_read limit c r

-- The header and the data are two pieces; where the second is refused, the first stays.
abbrev with_obuf : ReactorBuf → TcpConn → TcpConn
with_obuf b c = record c { obuf = b.buf; pool = b.pool }

unfoldable pub send_msg : (ℕ → ℕ) → ℕ → List ℕ → TcpConn → Option (Ret × TcpConn)
send_msg junk msgid data' c =
    let head = head_bytes (record { msgid = msgid; msglen = length data' }) in
    send_data junk (some head) (record { buf = c.obuf; pool = c.pool }) >>= λ (ret, b). elim ret [
      | fail ↦ some (fail, with_obuf b c)
      | ok n ↦ send_data junk (some data') b >>= λ (ret', b'). elim ret' [
        | fail ↦ some (fail, with_obuf b' c)
        | ok m ↦ some (ok m, record (with_obuf b' c) { writable = true })
      ]
    ]

-- What goes to the wire is part of the result.
abbrev pub Sent : Type 0
Sent = List ℕ × TcpConn

abbrev pub after_write : (TcpConn → Option Sent) → TcpConn → Ret × List ℕ × ReactorBuf → Option Sent
after_write more c (fail, wire, b) = clean (with_obuf b c) >>= λ c'. some (wire, c')
after_write more c (ok zero, wire, b) = some (wire, with_obuf b c)
after_write more c (ok (suc n), wire, b) =
    more (with_obuf b c) >>= λ (wire', c'). some (wire ++ wire', c')

-- Each list of outcomes is for one call of write2fd; `none` where they do not bring the loop to its end.
unfoldable pub do_write : List (List Write) → TcpConn → Option Sent
do_write [] c =
    if ltb 0 (len (record { buf = c.obuf; pool = c.pool }))
    then none
    else some ([], record c { writable = false })
do_write (w ∷ ws) c =
    if ltb 0 (len (record { buf = c.obuf; pool = c.pool }))
    then (write2fd w (record { buf = c.obuf; pool = c.pool }) >>= λ r.
        after_write (do_write ws) c r)
    else some ([], record c { writable = false })
