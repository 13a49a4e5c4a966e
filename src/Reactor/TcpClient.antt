-- ===== src/Reactor/TcpClient.antt =====
-- reactor/src/tcp_client.cpp: a client from its connect to its close. Its buffers, and reading and
-- writing them, are those of TcpConn, whose `writable` says that EPOLLOUT is waited for; `connecting`
-- tells that the callback for it is connect_ser and not write_cb. Messages are sent while the socket is
-- open.
pub mod Waiting
mod Tests
use ylars.Base.{
  ℕ, List, [], ◌∷◌, ◌++◌, Option, none, some, Bool, true, false, not, ltb, ◌==◌, ◌&&◌, ◌||◌,
  if◌then◌else◌, ◌>>=◌,
}
use ylars.Reactor.BufPool.{BufPool}
use ylars.Reactor.ReactorBuf.{Ret, Read, Write, len}
use ylars.Reactor.TcpConn
use ylars.Reactor.TcpConn.{TcpConn}

-- A hook that was called, by the number of its callback.
pub data HookCall : Type 0 where
  started ended : ℕ → HookCall

-- `reading` while EPOLLIN is waited for. A null hook is `none`.
pub record TcpClient : Type 0 where
  pub conn : TcpConn
  pub connecting : Bool
  pub reading : Bool
  pub start_cb : Option ℕ
  pub end_cb : Option ℕ
  pub calls : List HookCall

abbrev pub call : (ℕ → HookCall) → Option ℕ → List HookCall
call hook none = []
call hook (some cb) = hook cb ∷ []

unfoldable pub start_hook_call : TcpClient → TcpClient
start_hook_call c = record c { calls = c.calls ++ call started c.start_cb }

unfoldable pub end_hook_call : TcpClient → TcpClient
end_hook_call c = record c { calls = c.calls ++ call ended c.end_cb }

unfoldable pub register_conn_start : Option ℕ → TcpClient → TcpClient
register_conn_start cb c = record c { start_cb = cb }

unfoldable pub register_conn_end : Option ℕ → TcpClient → TcpClient
register_conn_end cb c = record c { end_cb = cb }

-- What is left of a client whose connection has been cleaned: its events go, and the end hook is called.
abbrev pub ended_with : TcpConn → TcpClient → TcpClient
ended_with conn c = end_hook_call (record c { conn = conn; connecting = false; reading = false })

unfoldable pub clean : TcpClient → Option TcpClient
clean c =
    if c.conn.is_open then (TcpConn.clean c.conn >>= λ conn. some (ended_with conn c)) else some c

-- A read or a write may have cleaned the connection.
unfoldable pub after : TcpConn → TcpClient → TcpClient
after conn c =
    if c.conn.is_open && not conn.is_open then ended_with conn c else record c { conn = conn }

abbrev pub waits : TcpConn → Bool
waits conn = ltb 0 (len (record { buf = conn.obuf; pool = conn.pool }))

-- del_event reads the entry of the descriptor in the event loop, which must be there.
unfoldable pub connect_ser : ℕ → TcpClient → Option TcpClient
connect_ser res c =
    if not (c.conn.writable || c.reading)
    then none
    else if res == 0
    then some (
        start_hook_call (record c {
          conn = record (c.conn) { writable = waits c.conn };
          connecting = false;
          reading = true;
        }))
    else clean (record c { conn = record (c.conn) { writable = false }; connecting = false })

-- What connect answers: 0, EINPROGRESS, or another error.
pub data Connecting : Type 0 where
  at_once in_progress refused : Connecting

abbrev pub unconnected : BufPool → TcpClient
unconnected pool = record {
  conn = record { ibuf = none; obuf = none; pool = pool; is_open = true; writable = false };
  connecting = false;
  reading = false;
  start_cb = none;
  end_cb = none;
  calls = [];
}

unfoldable pub tcp_client : Connecting → BufPool → Option TcpClient
tcp_client at_once pool = connect_ser 0 (unconnected pool)
tcp_client in_progress pool =
    let c = unconnected pool in
    some (record c { conn = record (c.conn) { writable = true }; connecting = true })
tcp_client refused pool = clean (unconnected pool)

-- add_event leaves the callback that EPOLLOUT has.
unfoldable pub send_msg : (ℕ → ℕ) → ℕ → List ℕ → TcpClient → Option (Ret × TcpClient)
send_msg junk msgid data' c =
    TcpConn.send_msg junk msgid data' c.conn >>= λ (ret, conn). some (ret, record c { conn = conn })

-- `sc_nl_msgmax` is _SC_NL_MSGMAX of the C library, the number of a sysconf parameter.
unfoldable pub do_read :
    ℕ → (ℕ → ℕ) → Option ℕ → List Read → TcpClient → Option (List (ℕ × List ℕ) × TcpClient)
do_read sc_nl_msgmax junk need_read reads c =
    TcpConn.do_read sc_nl_msgmax junk need_read reads c.conn >>= λ (msgs, conn).
    some (msgs, after conn c)

unfoldable pub do_write : List (List Write) → TcpClient → Option (List ℕ × TcpClient)
do_write writes c = TcpConn.do_write writes c.conn >>= λ (wire, conn). some (wire, after conn c)

-- EPOLLOUT fires; `res` is SO_ERROR. What goes to the wire is left to do_write.
unfoldable pub on_writable : ℕ → List (List Write) → TcpClient → Option TcpClient
on_writable res writes c =
    if c.connecting then connect_ser res c else do_write writes c >>= λ (wire, c'). some c'
