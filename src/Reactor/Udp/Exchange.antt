-- ===== src/Reactor/Udp/Exchange.antt =====
-- The read loops of udp_server.cpp and udp_client.cpp over all that the socket brings.
use mathlib.Core.Option
use ylars.Base.{
  ℕ, ◌≤◌, ◌≡◌, ◌≢◌, refl, ◌∙◌, List, [], ◌∷◌, ◌++◌, Option, none, some, map, inl, inr, arith, All,
  length, Option-cases, Bool-cases, false, if◌then◌else◌, ltb,
}
use ylars.Reactor.Message.{msg_max_limit}
use ylars.Reactor.Message.Frames.{Fits, encode}
use ylars.Reactor.ReactorBuf.{fail}
use ylars.Reactor.Udp.{buf_len, Heard, interrupted, would_block, broken, datagram, accept, returned}
use ylars.Reactor.Udp.Transfer.{IsBytes, accept-encode, accept-noise, lay_out_lem}
use ylars.Reactor.Udp.Server
use ylars.Reactor.Udp.Client

-- What comes to a socket: a message from a sender, a datagram that is none, or a signal.
pub data Traffic : Type 0 where
  message : ℕ → ℕ × List ℕ → Traffic
  noise : ℕ → List ℕ → Traffic
  signal : Traffic

abbrev pub on_wire : Traffic → Heard
on_wire (message from m) = datagram from (encode m)
on_wire (noise from bytes) = datagram from bytes
on_wire signal = interrupted

abbrev pub carried : List Traffic → Server.Calls
carried [] = []
carried (message from m ∷ ts) = (from, m.0, m.1) ∷ carried ts
carried (noise from bytes ∷ ts) = carried ts
carried (signal ∷ ts) = carried ts

abbrev pub last_sender : ℕ → List Traffic → ℕ
last_sender cli [] = cli
last_sender cli (message from m ∷ ts) = last_sender from ts
last_sender cli (noise from bytes ∷ ts) = last_sender from ts
last_sender cli (signal ∷ ts) = last_sender cli ts

abbrev pub IsNoise : List ℕ → Type 0
IsNoise bytes =
    IsBytes bytes
    × (length bytes ≤ buf_len)
    × ((m : ℕ × List ℕ) → Fits msg_max_limit m → bytes ≢ encode m)

abbrev pub Sendable : Traffic → Type 0
Sendable (message from m) = Fits msg_max_limit m
Sendable (noise from bytes) = IsNoise bytes
Sendable signal = Unit {0}

pub Server-do_read :
    (cli_addr : ℕ) (ts : List Traffic) (later : List Heard)
    → All Sendable ts
    → Server.do_read cli_addr (map on_wire ts ++ (would_block ∷ later))
      ≡ some (carried ts, last_sender cli_addr ts)
unfolding Server.do_read
Server-do_read cli [] later s = refl
Server-do_read cli (message from m ∷ ts) later s =
    rw (accept-encode m s.0, Server-do_read from ts later s.1)
Server-do_read cli (noise from bytes ∷ ts) later s =
    rw (accept-noise bytes s.0.0 s.0.1 s.0.2, Server-do_read from ts later s.1)
Server-do_read cli (signal ∷ ts) later s = Server-do_read cli ts later s.1

-- The calls of a server without the senders.
abbrev pub forget_senders : Server.Calls × ℕ → List (ℕ × List ℕ)
forget_senders (calls, last) = map (λ c. (c.1, c.2)) calls

-- On whatever the socket brings, a client reads what a server reads, but for the senders.
pub Client-do_read :
    (cli_addr : ℕ) (heard : List Heard)
    → Client.do_read heard ≡ Option.map forget_senders (Server.do_read cli_addr heard)
unfolding Server.do_read Client.do_read
Client-do_read cli [] = refl
Client-do_read cli (interrupted ∷ heard) = Client-do_read cli heard
Client-do_read cli (would_block ∷ heard) = refl
Client-do_read cli (broken ∷ heard) = refl
Client-do_read cli (datagram from bytes ∷ heard) =
    let rest = Client-do_read from heard in
    elim (Option-cases (accept bytes)) [
      | inl e ↦ rw e
      | inr (m, e) ↦ elim (Option-cases (Server.do_read from heard)) [
        | inl f ↦ rw (e, rest, f)
        | inr (r, f) ↦ rw (e, rest, f) (deliver-forget from m r)
      ]
    ]
  where
    deliver-forget :
        (from : ℕ) (m : Option (ℕ × List ℕ)) (r : Server.Calls × ℕ)
        → some (Client.deliver m (forget_senders r))
          ≡ some (forget_senders (Server.deliver from m r.0, r.1))
    deliver-forget from none r = refl
    deliver-forget from (some m) r = refl

-- Of any traffic of messages that fit, datagrams that are no message, and signals, up to the moment
-- when nothing more is there, a server hands exactly the messages to its router, in their order and
-- each with its sender, and is left with the address of the last datagram; a client hands its router
-- the same messages.
pub do_read-carried :
    (cli_addr : ℕ) (ts : List Traffic) (later : List Heard)
    → All Sendable ts
    → (Server.do_read cli_addr (map on_wire ts ++ (would_block ∷ later))
        ≡ some (carried ts, last_sender cli_addr ts))
      × (Client.do_read (map on_wire ts ++ (would_block ∷ later))
          ≡ some (map (λ c. (c.1, c.2)) (carried ts)))
do_read-carried cli ts later s =
    let ran = Server-do_read cli ts later s in
    (ran, Client-do_read cli (map on_wire ts ++ (would_block ∷ later)) ∙ rw ran)

-- What send_msg of a server answers to a client goes out as that message, to the address of the last
-- datagram, and what sendto returns is returned; data beyond the limit is refused, and nothing goes out.
pub Server-send_msg :
    (cli_addr msgid : ℕ) (data' : List ℕ) (sent : Option ℕ)
    → Server.send_msg cli_addr msgid data' sent ≡ (
        if ltb msg_max_limit (length data')
        then some (fail, [])
        else some (returned sent, (cli_addr, encode (msgid, data')) ∷ []))
unfolding Server.send_msg
Server-send_msg cli msgid data' sent = elim (Bool-cases (ltb msg_max_limit (length data'))) [
  | inl e ↦ rw e
  | inr e ↦ rw (e, lay_out_lem msgid data' (ground arith))
]

pub Client-send_msg :
    (msgid : ℕ) (data' : List ℕ) (sent : Option ℕ)
    → length data' ≤ msg_max_limit
    → Client.send_msg msgid data' sent ≡ some (returned sent, encode (msgid, data') ∷ [])
unfolding Client.send_msg
Client-send_msg msgid data' sent h =
    let e : ltb msg_max_limit (length data') ≡ false = ground arith in
    rw (e, lay_out_lem msgid data' h)
