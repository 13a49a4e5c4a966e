-- ===== src/Reactor/Udp/Tests.antt =====
-- Datagrams at concrete messages.
use ylars.Base.{ℕ, ◌≡◌, ◌↔◌, ap, List, [], ◌∷◌, ◌++◌, some, map, arith, length}
use ylars.Reactor.Message.{msg_max_limit}
use ylars.Reactor.Message.Frames.{Fits, encode}
use ylars.Reactor.Udp.{would_block, accept}
use ylars.Reactor.Udp.Transfer.{length-encode, accept-encode_iff}
use ylars.Reactor.Udp.Exchange.{
  Traffic, message, noise, signal, on_wire, carried, last_sender, IsNoise, do_read-carried,
}
use ylars.Reactor.Udp.Server
use ylars.Reactor.Udp.Client

abbrev hello : List ℕ
hello = 5 ∷ 0 ∷ 0 ∷ 0 ∷ 2 ∷ 0 ∷ 0 ∷ 0 ∷ 72 ∷ 73 ∷ []

accept-encode_iff_example :
    (accept hello ≡ some (some (5, 72 ∷ 73 ∷ [])))
    ↔ ((hello ≡ encode (5, 72 ∷ 73 ∷ [])) × Fits msg_max_limit (5, 72 ∷ 73 ∷ []))
accept-encode_iff_example =
    accept-encode_iff hello (5, 72 ∷ 73 ∷ [])
      (
        omega arith,
        (
          omega arith,
          (
            omega arith,
            (
              omega arith,
              (
                omega arith,
                (omega arith, (omega arith, (omega arith, (omega arith, (omega arith, tt))))),
              ),
            ),
          ),
        ),
      )
      (omega arith)

abbrev traffic : List Traffic
traffic = message 21 (5, 72 ∷ []) ∷ signal ∷ noise 22 (1 ∷ []) ∷ message 23 (6, []) ∷ []

one-IsNoise : IsNoise (1 ∷ [])
one-IsNoise =
    ((omega arith, tt), omega arith, λ m fits e. omega (arith, ap length e, length-encode m))

do_read-carried_example :
    (Server.do_read 0 (map on_wire traffic ++ (would_block ∷ []))
      ≡ some (carried traffic, last_sender 0 traffic))
    × (Client.do_read (map on_wire traffic ++ (would_block ∷ []))
        ≡ some (map (λ c. (c.1, c.2)) (carried traffic)))
do_read-carried_example =
    do_read-carried 0 traffic []
      ((omega arith, omega arith), (tt, (one-IsNoise, ((omega arith, omega arith), tt))))
