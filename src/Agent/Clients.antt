-- ===== src/Agent/Clients.antt =====
-- The two clients of the agent, ylars_lb_agent/src/agent_dns_client.cpp and agent_report_client.cpp: the
-- tasks of a queue go as messages to a TCP client, whose buffer takes them; what protobuf writes for a
-- task is a parameter.
pub mod Tasks
mod Tests
use ylars.Base.{ℕ, List, [], ◌∷◌, Option, some, ◌>>=◌, map}
use ylars.Proto.{GetRouteRequest, ReportStatusReq, id_get_route_request, id_report_status_request}
use ylars.Reactor.TcpClient.{TcpClient, send_msg}
use ylars.Agent.Server.{Agent}

-- What send_msg returns is not looked at.
unfoldable pub send_tasks : (ℕ → ℕ) → List (ℕ × List ℕ) → TcpClient → Option TcpClient
send_tasks junk [] c = some c
send_tasks junk ((msgid, body) ∷ tasks) c =
    send_msg junk msgid body c >>= λ (ret, c'). send_tasks junk tasks c'

unfoldable pub dns_task :
    (GetRouteRequest → List ℕ) → (ℕ → ℕ) → Agent → TcpClient → Option (Agent × TcpClient)
dns_task write junk a c =
    send_tasks junk (map (λ q. (id_get_route_request, write q)) a.dns_queue) c >>= λ c'.
    some (record a { dns_queue = [] }, c')

unfoldable pub report_task :
    (ReportStatusReq → List ℕ) → (ℕ → ℕ) → Agent → TcpClient → Option (Agent × TcpClient)
report_task write junk a c =
    send_tasks junk (map (λ q. (id_report_status_request, write q)) a.report_queue) c >>= λ c'.
    some (record a { report_queue = [] }, c')
