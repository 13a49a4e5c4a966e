-- ===== src/Reactor/TcpConn/Tests.antt =====
-- The theorems on connections at a concrete connection.
use ylars.Base.{ℕ, ◌≡◌, refl, true, false, List, [], ◌∷◌, ◌++◌, none, some, arith}
use ylars.Reactor.BufPool.{BufPool}
use ylars.Reactor.BufPool.Sizes.{alloc_buf-room}
use ylars.Reactor.ReactorBuf.{Read, moved, eintr, fail, ok, retry}
use ylars.Reactor.ReactorBuf.Growth.{held}
use ylars.Reactor.Message.{head_of, int_of, msg_max_limit}
use ylars.Reactor.Message.Frames.{encode, parse, next}
use ylars.Reactor.TcpConn.{TcpConn, do_read, send_msg}
use ylars.Reactor.TcpConn.Writing.{IsConn, do_read_lem, send_msg_lem, send_msg-nil}

abbrev zeros : ℕ → ℕ
zeros i = 0

abbrev no_bufs : BufPool
no_bufs = record { pool = []; curr_cap = 0 }

abbrev conn : TcpConn
conn = record { ibuf = none; obuf = none; pool = no_bufs; is_open = true; writable = false }

conn-IsConn : IsConn conn
conn-IsConn = (tt, tt, ((λ size. tt), omega arith))

-- Message 5 with one byte of data, and the first byte of the next one.
abbrev bytes : List ℕ
bytes = 5 ∷ 0 ∷ 0 ∷ 0 ∷ 1 ∷ 0 ∷ 0 ∷ 0 ∷ 9 ∷ 6 ∷ []

abbrev arrivals : List Read
arrivals = eintr ∷ moved bytes ∷ []

arrived : retry arrivals ≡ some (moved bytes)
unfolding retry
arrived = refl

do_read_lem_example :
    (c' : TcpConn) × (do_read msg_max_limit zeros (some 10) arrivals conn
      ≡ some ((5, 9 ∷ []) ∷ [], c'))
    × IsConn c'
    × (c'.is_open ≡ true)
    × (held c'.ibuf ≡ 6 ∷ [])
unfolding parse next head_of int_of
do_read_lem_example =
    do_read_lem msg_max_limit zeros 5 (0 ∷ 0 ∷ 0 ∷ 1 ∷ 0 ∷ 0 ∷ 0 ∷ 9 ∷ 6 ∷ []) arrivals conn
      conn-IsConn refl arrived (omega arith) (alloc_buf-room zeros 10 no_bufs (omega arith))

send_msg_lem_example :
    (c' : TcpConn) × (send_msg zeros 5 (9 ∷ []) conn ≡ some (ok 0, c'))
    × IsConn c'
    × (c'.writable ≡ true)
    × (held c'.obuf ≡ held conn.obuf ++ encode (5, 9 ∷ []))
send_msg_lem_example = send_msg_lem zeros 5 9 [] conn conn-IsConn (omega arith) (omega arith)

send_msg-nil_example :
    (c' : TcpConn) × (send_msg zeros 5 [] conn ≡ some (fail, c'))
    × IsConn c'
    × (c'.writable ≡ conn.writable)
    × (held c'.obuf ≡ held conn.obuf ++ encode (5, []))
send_msg-nil_example = send_msg-nil zeros 5 conn conn-IsConn (omega arith) (omega arith)
