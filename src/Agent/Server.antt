-- ===== src/Agent/Server.antt =====
-- ylars_lb_agent/src/agent_server.cpp, agent_dns_client.cpp and agent_report_client.cpp: what the agent
-- does when a message or a task arrives. Parsing is protobuf's: a handler is given what it yields, `none`
-- where ParseFromArray fails. What is sent is part of the result.
pub mod Dispatch
pub mod Runs
mod Tests
use ylars.Base.{
  ℕ, ◌+◌, ◌%◌, ◌^◌, Bool, List, [], ◌∷◌, ◌++◌, Option, none, some, map, set, get_elem?, ◌>>=◌,
}
use ylars.Proto.{
  succ, GetRouteRequest, GetRouteResponse, GetHostRequest, GetHostResponse, ReportRequest,
  ReportStatusReq, id_get_route_request, id_get_route_response, id_get_host_response,
  id_report_status_request,
}
use ylars.Agent.HostInfo.{LbConfig}
use ylars.Agent.RouteLb.{RouteLb, get_host, get_route, report_host, update_host}

-- A message that the agent sends.
pub data Message : Type 0 where
  route_response : GetRouteResponse → Message
  host_response : GetHostResponse → Message
  route_request : GetRouteRequest → Message
  status_request : ReportStatusReq → Message

abbrev pub message_id : Message → ℕ
message_id (route_response m) = id_get_route_response
message_id (host_response m) = id_get_host_response
message_id (route_request m) = id_get_route_request
message_id (status_request m) = id_report_status_request

-- One route_lb for each UDP server, and the queues of the two clients.
pub record Agent : Type 0 where
  pub agent_routes : List RouteLb
  pub dns_queue : List GetRouteRequest
  pub report_queue : List ReportStatusReq

-- The answers before their hosts are filled in.
abbrev pub route_blank : GetRouteRequest → GetRouteResponse
route_blank req = record { modid = req.modid; cmdid = req.cmdid; host = [] }

abbrev pub host_blank : GetHostRequest → GetHostResponse
host_blank req = record {
  seq = req.seq;
  modid = req.modid;
  cmdid = req.cmdid;
  retcode = succ;
  host = record { ip = 0; port = 0 };
}

unfoldable pub route_req_cb :
    LbConfig → ℕ → ℕ → Option GetRouteRequest → Agent → Option (Agent × List Message)
route_req_cb c now index none a = some (a, [])
route_req_cb c now index (some req) a = get_elem? a.agent_routes index >>= λ rl.
    get_route c now req.modid req.cmdid (route_blank req) rl >>= λ (ret, res, rl', reqs). some (
      record a { agent_routes = set a.agent_routes index rl'; dns_queue = a.dns_queue ++ reqs },
      route_response res ∷ [],
    )

unfoldable pub host_req_cb :
    LbConfig → ℕ → ℕ → Option GetHostRequest → Agent → Option (Agent × List Message)
host_req_cb c now index none a = some (a, [])
host_req_cb c now index (some req) a = get_elem? a.agent_routes index >>= λ rl.
    get_host c now req.modid req.cmdid (host_blank req) rl >>= λ (ret, res, rl', reqs). some (
      record a { agent_routes = set a.agent_routes index rl'; dns_queue = a.dns_queue ++ reqs },
      host_response res ∷ [],
    )

-- The result of ParseFromArray is not looked at.
unfoldable pub report_req_cb :
    LbConfig → (ℕ → ℕ) → ℕ → ReportRequest → Agent → Option (Agent × List Message)
report_req_cb c clock index req a = get_elem? a.agent_routes index >>= λ rl.
    report_host c clock req rl >>= λ (rl', reqs). some (
      record a {
        agent_routes = set a.agent_routes index rl';
        report_queue = a.report_queue ++ reqs;
      },
      [],
    )

-- (modid + cmdid) % 3 over uint32_t.
abbrev pub route_index : ℕ → ℕ → ℕ
route_index modid cmdid = (modid + cmdid) % 2 ^ 32 % 3

unfoldable pub dns_res_cb :
    LbConfig → (ℕ → ℕ) → Option GetRouteResponse → Agent → Option (Agent × List Message)
dns_res_cb c clock none a = some (a, [])
dns_res_cb c clock (some res) a =
    get_elem? a.agent_routes (route_index res.modid res.cmdid) >>= λ rl.
    update_host c clock res rl >>= λ rl'.
    some (record a { agent_routes = set a.agent_routes (route_index res.modid res.cmdid) rl' }, [])

-- The task callbacks empty their queue and send each task on.
unfoldable pub dns_task_cb : Agent → Agent × List Message
dns_task_cb a = (record a { dns_queue = [] }, map route_request a.dns_queue)

unfoldable pub report_task_cb : Agent → Agent × List Message
report_task_cb a = (record a { report_queue = [] }, map status_request a.report_queue)

-- The port of each server, a uint16_t.
abbrev pub server_port : ℕ → ℕ
server_port index = (9995 + index) % 2 ^ 16

-- start_udp_server, when its three threads run: each server has a route_lb of its own. Until then the
-- vector holds null pointers.
abbrev pub start_udp_server : Agent
start_udp_server = record {
  agent_routes =
      record { route_map = [] } ∷ record { route_map = [] } ∷ record { route_map = [] } ∷ [];
  dns_queue = [];
  report_queue = [];
}
