-- ===== src/Agent/Clients/Tests.antt =====
-- An agent with two tasks for the DNS service, and a client that is connecting.
use ylars.Base.{ℕ, ◌≡◌, refl, true, List, [], ◌∷◌, ◌++◌, some, arith, length}
use ylars.Proto.{GetRouteRequest}
use ylars.Reactor.Message.{head_bytes, int_bytes}
use ylars.Reactor.Message.Stream.{reads, delivered, flat}
use ylars.Reactor.Message.Frames.{encode, encode_all, next, Next}
use ylars.Reactor.BufPool.{BufPool}
use ylars.Reactor.ReactorBuf.Growth.{held}
use ylars.Reactor.TcpClient.{TcpClient, unconnected}
use ylars.Agent.Server.{Agent, start_udp_server}
use ylars.Agent.Clients.{dns_task}
use ylars.Agent.Clients.Tasks.{asks, dns_task-delivered}

abbrev write : GetRouteRequest → List ℕ
write q = int_bytes q.modid ++ int_bytes q.cmdid

abbrev zeros : ℕ → ℕ
zeros i = 0

abbrev agent : Agent
agent = record start_udp_server {
  dns_queue = record { modid = 1; cmdid = 2 } ∷ record { modid = 3; cmdid = 4 } ∷ [];
}

abbrev no_bufs : BufPool
no_bufs = record { pool = []; curr_cap = 0 }

abbrev client : TcpClient
client = record (unconnected no_bufs) { connecting = true }

dns_task-delivered_example :
    (a' : Agent) × (c' : TcpClient) × (dns_task write zeros agent client ≡ some (a', c'))
    × (a'.dns_queue ≡ [])
    × ((pieces : List (List ℕ)) (tail : List ℕ)
        → next 65527 tail ≡ Next.wait
        → flat pieces ≡ held c'.conn.obuf ++ tail
        → delivered (reads 65527 (length (flat pieces)) [] pieces) ≡ (asks write agent, true))
unfolding encode_all encode head_bytes
dns_task-delivered_example =
    dns_task-delivered write zeros 65527 agent client (tt, tt, ((λ size. tt), omega arith)) refl
      (omega arith) (omega arith, (omega arith, tt))
      ((omega arith, omega arith), ((omega arith, omega arith), tt)) (omega arith) (omega arith)
