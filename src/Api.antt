-- ===== src/Api.antt =====
-- api/ylars_api/ylars_api.cpp: the client library, which asks the agent of its machine by UDP. What
-- protobuf, inet_ntoa and inet_aton do is a parameter; what the socket answers is an argument. A call
-- that waits for a datagram that does not come is `none`, and so is a read of an unset address.
pub mod Answers
pub mod Agents
pub mod Hosts
mod Tests
use ylars.Base.{
  ℕ, zero, suc, ◌+◌, ◌*◌, ◌/◌, ◌%◌, ◌^◌, Bool, true, false, not, List, [], ◌∷◌, ◌++◌, Option, none,
  some, map, ltb, leb, ◌==◌, ◌||◌, if◌then◌else◌, ◌>>=◌, length, take, drop,
}
use ylars.Proto.{
  RetCode, succ, system_error, noexist, HostAddr, GetHostRequest, GetHostResponse, GetRouteRequest,
  GetRouteResponse, ReportRequest, id_get_host_request, id_get_host_response, id_get_route_request,
  id_get_route_response, id_report_request,
}
use ylars.Reactor.Message.{head_of, head_bytes, msg_head_len}

-- ParseFromArray is `none` where it fails; for a route, what it leaves in the message, failed or not.
pub record Protobuf : Type 0 where
  pub host_request : GetHostRequest → List ℕ
  pub route_request : GetRouteRequest → List ℕ
  pub report_request : ReportRequest → List ℕ
  pub parse_host_response : List ℕ → Option GetHostResponse
  pub parse_route_response : List ℕ → GetRouteResponse

-- The text of an address in network order, and back.
pub record Inet : Type 0 where
  pub inet_ntoa : ℕ → List ℕ
  pub inet_aton : List ℕ → Option ℕ

-- The four bytes of a uint32_t, in the other order.
unfoldable pub htonl : ℕ → ℕ
htonl n =
    n / 16777216 % 256 + 256 * (n / 65536 % 256) + 65536 * (n / 256 % 256) + 16777216 * (n % 256)

-- check_seq, which is static in get_host, so that all objects of a process share it, and the port to which
-- the socket is connected. There is one object.
pub record YlarsApi : Type 0 where
  pub check_seq : ℕ
  pub peer : Option ℕ

-- Whether connect and sendto succeed, and what the calls of recvfrom bring, `none` for an error.
pub record Socket : Type 0 where
  pub connects : Bool
  pub sends : Bool
  pub hears : List (Option (List ℕ))

abbrev pub Sent : Type 0
Sent = List (ℕ × List ℕ)

-- sizeof(_tmp_buf)
abbrev pub tmp_len : ℕ
tmp_len = 1024

-- 9995 + ((modid + cmdid) % 3) over uint32_t.
abbrev pub port : ℕ → ℕ → ℕ
port modid cmdid = (9995 + (modid + cmdid) % 2 ^ 32 % 3) % 2 ^ 16

-- The header and the message in the buffer; a message that does not fit it is a fault.
unfoldable pub request : ℕ → List ℕ → Option (List ℕ)
request msgid body =
    if leb (msg_head_len + length body) tmp_len
    then some (head_bytes (record { msgid = msgid; msglen = length body }) ++ body)
    else none

-- The checks of a datagram: the message behind the header, where the length and the number fit.
unfoldable pub answer_body : ℕ → List ℕ → Option (List ℕ)
answer_body msgid bytes =
    let got = take tmp_len bytes in
    let head = head_of got in
    if ltb (length got) msg_head_len
    then none
    else if not (length got == (head.msglen + msg_head_len) % 2 ^ 32) || not (head.msgid == msgid)
    then none
    else some (take head.msglen (drop msg_head_len got))

-- An answer to an earlier request is dropped.
abbrev pub unless_stale :
    ℕ → Option (Option GetHostResponse) → Option GetHostResponse → Option (Option GetHostResponse)
unless_stale seq more none = some none
unless_stale seq more (some res) = if ltb res.seq seq then more else some (some res)

-- The loop over the answers: `some none` is an error.
unfoldable pub await : Protobuf → ℕ → List (Option (List ℕ)) → Option (Option GetHostResponse)
await pb seq [] = none
await pb seq (none ∷ hears) = some none
await pb seq (some bytes ∷ hears) =
    unless_stale seq (await pb seq hears)
      (answer_body id_get_host_response bytes >>= pb.parse_host_response)

-- The text of an address and a port.
abbrev pub Host : Type 0
Host = List ℕ × ℕ

abbrev pub is_succ : RetCode → Bool
is_succ succ = true
is_succ code = false

-- The return value, and the host where there is one.
unfoldable pub answer : Inet → ℕ → ℕ → ℕ → Option GetHostResponse → RetCode × Option Host
answer inet modid cmdid seq none = (system_error, none)
answer inet modid cmdid seq (some res) =
    if not (res.seq == seq) || (not (res.modid == modid) || not (res.cmdid == cmdid))
    then (system_error, none)
    else if is_succ res.retcode
    then (succ, some (inet.inet_ntoa (htonl res.host.ip), res.host.port % 2 ^ 16))
    else (res.retcode, none)

-- What a call returns, what it has sent, and the state after it.
pub record Done (R : Type 0) : Type 0 where
  pub ret : R
  pub sent : Sent
  pub api : YlarsApi

unfoldable pub get_host :
    Protobuf → Inet → Socket → ℕ → ℕ → YlarsApi → Option (Done (RetCode × Option Host))
get_host pb inet s modid cmdid api =
    let seq = api.check_seq in
    let next = record api { check_seq = (seq + 1) % 2 ^ 32 } in
    let joined = record next { peer = some (port modid cmdid) } in
    if not s.connects
    then some (record { ret = (system_error, none); sent = []; api = next })
    else (request id_get_host_request
          (pb.host_request (record { seq = seq; modid = modid; cmdid = cmdid }))
        >>= λ bytes.
            if not s.sends
            then some (record { ret = (system_error, none); sent = []; api = joined })
            else (await pb seq s.hears >>= λ res. some (record {
              ret = answer inet modid cmdid seq res;
              sent = (port modid cmdid, bytes) ∷ [];
              api = joined;
            })))

abbrev pub host_entry : Inet → HostAddr → Host
host_entry inet h = (inet.inet_ntoa (htonl h.ip), h.port % 2 ^ 16)

-- The hosts of an answer; a parse that fails is only printed.
unfoldable pub route_of : Protobuf → Inet → ℕ → ℕ → List ℕ → List Host
route_of pb inet modid cmdid bytes = elim (answer_body id_get_route_response bytes) [
  | none ↦ []
  | some body ↦
      let res = pb.parse_route_response body in
      if not (res.modid == modid) || not (res.cmdid == cmdid)
      then []
      else map (host_entry inet) res.host
]

abbrev pub heard_route : Protobuf → Inet → ℕ → ℕ → List (Option (List ℕ)) → Option (List Host)
heard_route pb inet modid cmdid [] = none
heard_route pb inet modid cmdid (none ∷ hears) = some []
heard_route pb inet modid cmdid (some bytes ∷ hears) = some (route_of pb inet modid cmdid bytes)

-- The hosts go behind those that `route` holds.
unfoldable pub get_route :
    Protobuf → Inet → Socket → ℕ → ℕ → List Host → YlarsApi → Option (Done (List Host))
get_route pb inet s modid cmdid route api =
    let joined = record api { peer = some (port modid cmdid) } in
    if not s.connects
    then some (record { ret = route; sent = []; api = api })
    else (request id_get_route_request (pb.route_request (record { modid = modid; cmdid = cmdid }))
        >>= λ bytes.
            if not s.sends
            then some (record { ret = route; sent = []; api = joined })
            else (heard_route pb inet modid cmdid s.hears >>= λ hosts. some (record {
              ret = route ++ hosts;
              sent = (port modid cmdid, bytes) ∷ [];
              api = joined;
            })))

abbrev pub empty {ℓ} : {A : Type ℓ} → List A → Bool
empty [] = true
empty (x ∷ xs) = false

-- The tries of reg_init, each with what the socket does then; the third is the last one.
unfoldable pub try_route :
    Protobuf → Inet → ℕ → ℕ → List Socket → List Host → YlarsApi → Option (Done (List Host))
try_route pb inet modid cmdid [] route api = some (record { ret = route; sent = []; api = api })
try_route pb inet modid cmdid (s ∷ ss) route api =
    get_route pb inet s modid cmdid route api >>= λ first.
    let more = try_route pb inet modid cmdid ss first.ret first.api in
    if empty first.ret
    then (more >>= λ rest. some (record rest { sent = first.sent ++ rest.sent }))
    else some first

unfoldable pub reg_init :
    Protobuf → Inet → (Socket × Socket × Socket) → ℕ → ℕ → YlarsApi → Option (Done RetCode)
reg_init pb inet (s1, s2, s3) modid cmdid api =
    try_route pb inet modid cmdid (s1 ∷ s2 ∷ s3 ∷ []) [] api >>= λ d.
    some (record { ret = if empty d.ret then noexist else succ; sent = d.sent; api = d.api })

-- Where the socket is not connected, sendto fails.
abbrev pub to_peer : Option ℕ → Bool → List ℕ → Sent
to_peer (some p) true bytes = (p, bytes) ∷ []
to_peer p sends bytes = []

-- A connect that fails is only printed, and leaves the socket with its peer.
unfoldable pub report :
    Protobuf → Inet → Socket → ℕ → ℕ → Host → Bool → YlarsApi → Option (Done Unit)
report pb inet s modid cmdid (ip, host_port) ok api =
    let joined = if s.connects then record api { peer = some (port modid cmdid) } else api in
    inet.inet_aton ip >>= λ addr.
    request id_report_request (
      pb.report_request (record {
        modid = modid;
        cmdid = cmdid;
        host = record { ip = htonl addr; port = host_port };
        is_succ = ok;
      }))
    >>= λ bytes. some (record { ret = tt; sent = to_peer joined.peer s.sends bytes; api = joined })
