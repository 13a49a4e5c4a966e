-- ===== src/Reactor/TcpClient/Tests.antt =====
-- A client that sends a message while it is connecting.
use ylars.Base.{ℕ, ◌≡◌, refl, true, false, [], ◌∷◌, ◌++◌, none, some, arith}
use ylars.Reactor.BufPool.{BufPool}
use ylars.Reactor.ReactorBuf.{ok}
use ylars.Reactor.ReactorBuf.Growth.{held}
use ylars.Reactor.Message.Frames.{encode}
use ylars.Reactor.TcpConn.Writing.{IsConn}
use ylars.Reactor.TcpClient.{
  TcpClient, started, in_progress, at_once, unconnected, tcp_client, connect_ser, send_msg,
  on_writable,
}
use ylars.Reactor.TcpClient.Waiting.{send_msg-on_writable}

abbrev zeros : ℕ → ℕ
zeros i = 0

abbrev no_bufs : BufPool
no_bufs = record { pool = []; curr_cap = 0 }

abbrev client : TcpClient
client = record (unconnected no_bufs) {
  conn = record (unconnected no_bufs).conn { writable = true };
  connecting = true;
  start_cb = some 3;
}

is_client : tcp_client in_progress no_bufs ≡ some (record client { start_cb = none })
unfolding tcp_client
is_client = refl

-- A connect that succeeds at once reads the entry of a descriptor that is not in the event loop.
at_once_fault : tcp_client at_once no_bufs ≡ none
unfolding tcp_client connect_ser
at_once_fault = refl

client-IsConn : IsConn client.conn
client-IsConn = (tt, tt, ((λ size. tt), omega arith))

send_msg-on_writable_example :
    (sent : TcpClient) × (end : TcpClient) × (send_msg zeros 5 (9 ∷ []) client ≡ some (ok 0, sent))
    × (on_writable 0 [] sent ≡ some end)
    × (end.calls ≡ started 3 ∷ [])
    × (end.connecting ≡ false)
    × (end.reading ≡ true)
    × (end.conn.writable ≡ true)
    × (held end.conn.obuf ≡ held client.conn.obuf ++ encode (5, 9 ∷ []))
send_msg-on_writable_example =
    send_msg-on_writable zeros 5 9 [] client client-IsConn refl (omega arith) (omega arith)
