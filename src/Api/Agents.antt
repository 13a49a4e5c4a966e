-- ===== src/Api/Agents.antt =====
-- The client library against the agent: a request goes through the UDP server of the agent to the
-- route_lb of its module, and the answer comes back behind answers to earlier requests.
use ylars.Base.{
  ℕ, ◌+◌, ◌%◌, ◌≤◌, ◌<◌, ◌≡◌, ◌∙◌, true, false, List, [], ◌∷◌, ◌++◌, Option, none, some, map, arith,
  All, if◌then◌else◌, length, ==_refl, Option-cases, inl, inr, get_elem?, ltb,
}
use ylars.Proto.{
  RetCode, succ, GetHostRequest, GetHostResponse, id_get_host_request, id_get_host_response,
}
use ylars.Agent.HostInfo.{LbConfig}
use ylars.Agent.RouteLb
use ylars.Agent.RouteLb.Labels.{SameLabels, get_host-labels}
use ylars.Agent.Server.{
  Agent, message_id, host_response, host_blank, host_req_cb, route_index, server_port,
}
use ylars.Agent.Server.Dispatch.{Parsers, on_message, on_message-host}
use ylars.Reactor.Message.{msg_max_limit}
use ylars.Reactor.Message.Frames.{encode}
use ylars.Reactor.ReactorBuf.{ok}
use ylars.Reactor.Udp.{datagram, would_block}
use ylars.Reactor.Udp.Exchange.{Server-send_msg, Server-do_read, message}
use ylars.Reactor.Udp.Server
use ylars.Api.{
  Protobuf, Inet, YlarsApi, Socket, Host, Done, port, is_succ, host_entry, answer, get_host,
}
use ylars.Api.Answers.{IsStale, wire, request_lem, await_lem}

abbrev pub WordRequest : GetHostRequest → Type 0
WordRequest q = (q.seq < 4294967296) × (q.modid < 4294967296) × (q.cmdid < 4294967296)

abbrev pub WordResponse : GetHostResponse → Type 0
WordResponse r =
    (r.seq < 4294967296)
    × (r.modid < 4294967296)
    × (r.cmdid < 4294967296)
    × (r.host.ip < 4294967296)
    × (r.host.port < 4294967296)

-- What both sides rely on of protobuf: messages of 32-bit fields are read as they were written, and fit
-- the buffer of the client.
pub record IsFaithful (pb : Protobuf) (parsers : Parsers)
    (write_response : GetHostResponse → List ℕ) : Type 0 where
  pub request_small : (q : GetHostRequest) → length (pb.host_request q) ≤ 1016
  pub request_read :
      (q : GetHostRequest) → WordRequest q → parsers.host_request (pb.host_request q) ≡ some q
  pub response_small : (r : GetHostResponse) → length (write_response r) ≤ 1016
  pub response_read :
      (r : GetHostResponse) → WordResponse r → pb.parse_host_response (write_response r) ≡ some r

abbrev pub asked : YlarsApi → ℕ → ℕ → GetHostRequest
asked api modid cmdid = record { seq = api.check_seq; modid = modid; cmdid = cmdid }

-- What get_host returns for an answer to its request.
abbrev pub handed : Inet → GetHostResponse → RetCode × Option Host
handed inet res =
    if is_succ res.retcode then (succ, some (host_entry inet res.host)) else (res.retcode, none)

answer-handed :
    (inet : Inet) (q : GetHostRequest) (res : GetHostResponse)
    → SameLabels res (host_blank q)
    → answer inet q.modid q.cmdid q.seq (some res) ≡ handed inet res
unfolding answer
answer-handed inet q res (s, m, c) = rw (s, m, c, ==_refl q.seq, ==_refl q.modid, ==_refl q.cmdid)

host_req_cb-labels :
    (c : LbConfig) (now index : ℕ) (q : GetHostRequest) (a a' : Agent) (res : GetHostResponse)
    → host_req_cb c now index (some q) a ≡ some (a', host_response res ∷ [])
    → SameLabels res (host_blank q)
unfolding host_req_cb
host_req_cb-labels c now index q a a' res e = elim (Option-cases (get_elem? a.agent_routes index)) [
  | inl f ↦ ground (arith, f)
  | inr (rl, f) ↦ elim (Option-cases (RouteLb.get_host c now q.modid q.cmdid (host_blank q) rl)) [
    | inl g ↦ ground (arith, f, g)
    | inr (out, g) ↦ ground (arith, f, g, get_host-labels c now q.modid q.cmdid (host_blank q) rl g)
  ]
]

module _ (pb : Protobuf) (inet : Inet) (parsers : Parsers)
    (write_response : GetHostResponse → List ℕ)
    (faithful : IsFaithful pb parsers write_response) where
  -- The request on its way, and the answer.
  abbrev pub asking : YlarsApi → ℕ → ℕ → List ℕ
  asking api modid cmdid = encode (id_get_host_request, pb.host_request (asked api modid cmdid))

  abbrev pub answering : GetHostResponse → List ℕ
  answering res = encode (id_get_host_response, write_response res)

  -- The request is read by the server and goes to its handler, and the answer goes back to the address
  -- that the request came from.
  abbrev pub IsCarried :
      LbConfig → (ℕ → ℕ) → YlarsApi → ℕ → ℕ → ℕ → ℕ → GetHostResponse → Agent → Agent → Type 0
  IsCarried c clock api modid cmdid from n res a a' =
      (Server.do_read 0 (datagram from (asking api modid cmdid) ∷ would_block ∷ [])
        ≡ some ((from, id_get_host_request, pb.host_request (asked api modid cmdid)) ∷ [], from))
      × (on_message parsers c clock (route_index modid cmdid) id_get_host_request
            (pb.host_request (asked api modid cmdid)) a
          ≡ some (a', host_response res ∷ []))
      × (Server.send_msg from (message_id (host_response res)) (write_response res) (some n)
          ≡ some (ok n, (from, answering res) ∷ []))

  -- What the socket of the client brings: answers to earlier requests, the answer, and more.
  abbrev pub hearing : List (List ℕ) → GetHostResponse → List (Option (List ℕ)) → Socket
  hearing stale res later = record {
    connects = true;
    sends = true;
    hears = map wire stale ++ (some (answering res) ∷ later);
  }

  abbrev pub returned : YlarsApi → ℕ → ℕ → GetHostResponse → Done (RetCode × Option Host)
  returned api modid cmdid res = record {
    ret = handed inet res;
    sent = (server_port (route_index modid cmdid), asking api modid cmdid) ∷ [];
    api = record {
      check_seq = (api.check_seq + 1) % 4294967296;
      peer = some (server_port (route_index modid cmdid));
    };
  }

  carried :
      (c : LbConfig) (clock : ℕ → ℕ) (from n modid cmdid : ℕ) (api : YlarsApi) (a a' : Agent)
      (res : GetHostResponse)
      → WordRequest (asked api modid cmdid)
      → host_req_cb c (clock 0) (route_index modid cmdid) (some (asked api modid cmdid)) a
        ≡ some (a', host_response res ∷ [])
      → IsCarried c clock api modid cmdid from n res a a'
  carried c clock from n modid cmdid api a a' res w ran =
      let q = asked api modid cmdid in
      let fits : length (pb.host_request q) ≤ msg_max_limit =
        omega (arith, faithful.request_small q) in
      let small : ltb msg_max_limit (length (write_response res)) ≡ false =
        ground (arith, faithful.response_small res) in
      (
        Server-do_read 0 (message from (id_get_host_request, pb.host_request q) ∷ []) []
            ((omega arith, fits), tt),
        on_message-host parsers c clock (route_index modid cmdid) (pb.host_request q) a
            ∙ rw (faithful.request_read q w) ran,
        Server-send_msg from id_get_host_response (write_response res) (some n) ∙ rw small,
      )

  port_lem : (modid cmdid : ℕ) → port modid cmdid ≡ server_port (route_index modid cmdid)
  port_lem modid cmdid = omega arith

  returned_lem :
      (api : YlarsApi) (modid cmdid : ℕ) (res : GetHostResponse) (stale : List (List ℕ))
      (later : List (Option (List ℕ)))
      → WordResponse res
      → All (IsStale pb api.check_seq) stale
      → SameLabels res (host_blank (asked api modid cmdid))
      → get_host pb inet (hearing stale res later) modid cmdid api
        ≡ some (returned api modid cmdid res)
  unfolding get_host
  returned_lem api modid cmdid res stale later w old same =
      let q = asked api modid cmdid in
      let sends = request_lem id_get_host_request (pb.host_request q) (faithful.request_small q) in
      let hears =
        await_lem pb api.check_seq stale (write_response res) res later old
          (faithful.response_small res, faithful.response_read res w) (omega (arith, same.0)) in
      rw (sends, hears, port_lem modid cmdid, answer-handed inet q res same)

  -- A client that asks for a host of a module, with the agent at whatever state its histories lead to:
  -- the request goes to the port of the one server whose route_lb the agent keeps that module in, is
  -- read there as it was sent and handed to its handler, and the agent's answer goes back to the address of the request; get_host
  -- drops any answers to earlier requests that are before it, and returns the return code and the host
  -- that the agent chose. The numbers of the request and of the answer are of 32 bits, protobuf
  -- reads what it wrote, and every message fits the client's buffer.
  pub get_host-served :
      (c : LbConfig) (clock : ℕ → ℕ) (from n modid cmdid : ℕ) (api : YlarsApi) (a a' : Agent)
      (res : GetHostResponse) (stale : List (List ℕ)) (later : List (Option (List ℕ)))
      → WordRequest (asked api modid cmdid)
      → WordResponse res
      → All (IsStale pb api.check_seq) stale
      → host_req_cb c (clock 0) (route_index modid cmdid) (some (asked api modid cmdid)) a
        ≡ some (a', host_response res ∷ [])
      → IsCarried c clock api modid cmdid from n res a a'
        × (get_host pb inet (hearing stale res later) modid cmdid api
            ≡ some (returned api modid cmdid res))
  get_host-served c clock from n modid cmdid api a a' res stale later w v old ran =
      let same =
        host_req_cb-labels c (clock 0) (route_index modid cmdid) (asked api modid cmdid) a a' res
          ran in
      (
        carried c clock from n modid cmdid api a a' res w ran,
        returned_lem api modid cmdid res stale later v old same,
      )
