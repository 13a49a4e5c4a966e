-- ===== src/Agent/Server/Dispatch.antt =====
-- agent_udp_server of ylars_lb_agent/src/agent_server.cpp: the handlers that each of the three UDP servers
-- registers, and the handler that a message goes to. What ParseFromArray yields is a parameter; for a
-- report, whose result is not looked at, it is what the message then holds.
use ylars.Base.{ℕ, List, [], Option, none, some, ◌≡◌, refl}
use ylars.Proto.{
  GetHostRequest, GetRouteRequest, ReportRequest, id_get_host_request, id_get_route_request,
  id_report_request,
}
use ylars.Reactor.Message.{MsgRouter, register_router, call}
use ylars.Agent.HostInfo.{LbConfig}
use ylars.Agent.Server.{Agent, Message, host_req_cb, route_req_cb, report_req_cb}

pub data Handler : Type 0 where
  asks_host asks_route reports : Handler

pub record Parsers : Type 0 where
  pub host_request : List ℕ → Option GetHostRequest
  pub route_request : List ℕ → Option GetRouteRequest
  pub report_request : List ℕ → ReportRequest

-- The argument of each handler is the index of its server.
unfoldable pub agent_udp_server : ℕ → MsgRouter Handler
agent_udp_server index = register_router id_report_request (some reports) index (
    register_router id_get_route_request (some asks_route) index (
      register_router id_get_host_request (some asks_host) index
        (record { router = []; args = [] })))

abbrev pub handle :
    Parsers → LbConfig → (ℕ → ℕ) → Handler → ℕ → List ℕ → Agent → Option (Agent × List Message)
handle p c clock asks_host index msg a = host_req_cb c (clock 0) index (p.host_request msg) a
handle p c clock asks_route index msg a = route_req_cb c (clock 0) index (p.route_request msg) a
handle p c clock reports index msg a = report_req_cb c clock index (p.report_request msg) a

-- The argument is there, since it is registered with its handler.
abbrev pub called :
    Parsers
    → LbConfig
    → (ℕ → ℕ)
    → Option (Handler × Option ℕ)
    → List ℕ
    → Agent
    → Option (Agent × List Message)
called p c clock none msg a = some (a, [])
called p c clock (some (h, none)) msg a = none
called p c clock (some (h, some index)) msg a = handle p c clock h index msg a

-- A message at one of the servers; a number without a handler is only printed.
unfoldable pub on_message :
    Parsers → LbConfig → (ℕ → ℕ) → ℕ → ℕ → List ℕ → Agent → Option (Agent × List Message)
on_message p c clock index msgid msg a =
    called p c clock (call msgid (agent_udp_server index)) msg a

-- A request for a host goes to its handler, with the index of the server.
pub on_message-host :
    (p : Parsers) (c : LbConfig) (clock : ℕ → ℕ) (index : ℕ) (msg : List ℕ) (a : Agent)
    → on_message p c clock index id_get_host_request msg a
      ≡ host_req_cb c (clock 0) index (p.host_request msg) a
unfolding on_message call agent_udp_server register_router
on_message-host p c clock index msg a = refl
