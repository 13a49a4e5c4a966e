-- ===== src/Reactor/ReactorBuf/Tests.antt =====
-- The theorems on the buffers of a connection at concrete bytes.
use ylars.Base.{List, [], ◌∷◌}
use ylars.Reactor.IoBuf.{IoBuf}
use ylars.Reactor.BufPool.{BufPool}
use ylars.Reactor.ReactorBuf.{Write, moved, eintr}

abbrev no_bufs : BufPool
no_bufs = record { pool = []; curr_cap = 0 }

abbrev three : IoBuf
three = record { capacity = 4; datalen = 3; data' = 7 ∷ 8 ∷ 9 ∷ 0 ∷ []; head = 0 }

-- A write that a signal interrupts and that then takes two of three bytes.
abbrev writes : List Write
writes = eintr ∷ moved 2 ∷ []
