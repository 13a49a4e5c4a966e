-- ===== src/Reactor/Udp/Server.antt =====
-- reactor/src/udp_server.cpp: what the server reads and answers.
use ylars.Base.{ℕ, List, [], ◌∷◌, Option, none, some, ltb, if◌then◌else◌, ◌>>=◌, length}
use ylars.Reactor.Message.{msg_max_limit}
use ylars.Reactor.ReactorBuf.{Ret, fail}
use ylars.Reactor.Udp.{Heard, interrupted, would_block, broken, datagram, accept, lay_out, returned}

-- The messages, each with its sender.
abbrev pub Calls : Type 0
Calls = List (ℕ × ℕ × List ℕ)

abbrev pub deliver : ℕ → Option (ℕ × List ℕ) → Calls → Calls
deliver from none calls = calls
deliver from (some (msgid, payload)) calls = (from, msgid, payload) ∷ calls

-- The calls of the router and the address that _cli_addr is left with; `none` where the answers do
-- not end the loop.
unfoldable pub do_read : ℕ → List Heard → Option (Calls × ℕ)
do_read cli_addr [] = none
do_read cli_addr (interrupted ∷ heard) = do_read cli_addr heard
do_read cli_addr (would_block ∷ heard) = some ([], cli_addr)
do_read cli_addr (broken ∷ heard) = some ([], cli_addr)
do_read cli_addr (datagram from bytes ∷ heard) =
    let rest = do_read from heard in
    accept bytes >>= λ m. rest >>= λ (calls, last). some (deliver from m calls, last)

-- The return value, and the datagram with the address that it goes to.
unfoldable pub send_msg : ℕ → ℕ → List ℕ → Option ℕ → Option (Ret × List (ℕ × List ℕ))
send_msg cli_addr msgid data' sent =
    if ltb msg_max_limit (length data')
    then some (fail, [])
    else lay_out msgid data' >>= λ bytes. some (returned sent, (cli_addr, bytes) ∷ [])
