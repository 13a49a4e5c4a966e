-- ===== src/Reactor/Udp/Client.antt =====
-- reactor/src/udp_client.cpp: what a client reads and sends.
use ylars.Base.{ℕ, List, [], ◌∷◌, Option, none, some, ltb, if◌then◌else◌, ◌>>=◌, length}
use ylars.Reactor.Message.{msg_max_limit}
use ylars.Reactor.ReactorBuf.{Ret, fail}
use ylars.Reactor.Udp.{Heard, interrupted, would_block, broken, datagram, accept, lay_out, returned}

abbrev pub deliver : Option (ℕ × List ℕ) → List (ℕ × List ℕ) → List (ℕ × List ℕ)
deliver none calls = calls
deliver (some m) calls = m ∷ calls

-- The socket is connected, so that the sender is not asked for.
unfoldable pub do_read : List Heard → Option (List (ℕ × List ℕ))
do_read [] = none
do_read (interrupted ∷ heard) = do_read heard
do_read (would_block ∷ heard) = some []
do_read (broken ∷ heard) = some []
do_read (datagram from bytes ∷ heard) =
    let rest = do_read heard in accept bytes >>= λ m. rest >>= λ calls. some (deliver m calls)

unfoldable pub send_msg : ℕ → List ℕ → Option ℕ → Option (Ret × List (List ℕ))
send_msg msgid data' sent =
    if ltb msg_max_limit (length data')
    then some (fail, [])
    else lay_out msgid data' >>= λ bytes. some (returned sent, bytes ∷ [])
