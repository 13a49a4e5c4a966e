-- ===== src/Api/Tests.antt =====
-- The client library with a concrete encoding of messages: four bytes for each number.
use mathlib.Core.Option
use ylars.Base.{
  ℕ, zero, suc, ◌≤◌, ◌≡◌, refl, true, false, List, [], ◌∷◌, ◌++◌, Option, none, some, map, arith,
  length, drop, get_or_else, if◌then◌else◌, ◌*◌, leb,
}
use ylars.Proto.{
  RetCode, succ, overloaded, system_error, noexist, GetHostRequest, GetHostResponse,
  id_report_request, id_get_route_response,
}
use ylars.Agent.HostInfo.{LbConfig, host_info}
use ylars.Agent.RouteLb
use ylars.Agent.RouteLb.{first_pull, refresh, update_host}
use ylars.Agent.LoadBalance.{
  load_balance, choice_one_host, get_host_from_list, update, add_hosts, add_host, remote_hosts,
  need_delete, del_hosts,
}
use ylars.Agent.Server.{
  Agent, host_response, host_req_cb, dns_res_cb, route_index, start_udp_server, server_port,
}
use ylars.Agent.Server.Dispatch.{Parsers}
use ylars.Reactor.Message.{int_bytes, int_of, head_of, head_bytes}
use ylars.Reactor.Message.Frames.{encode, int_of-int_bytes}
use ylars.Api.{
  Protobuf, Inet, YlarsApi, Socket, Host, Done, host_entry, answer_body, route_of, await, answer,
  request, get_host, report, reg_init, htonl, empty,
}
use ylars.Api.Agents.{IsFaithful, asked, IsCarried, hearing, returned, get_host-served}
use ylars.Api.Hosts.{
  Brings, reported, report-host_entry, Heard, IsAnswer, get_host-IsAnswer, first_found,
  reg_init-first_found,
}

abbrev write_request : GetHostRequest → List ℕ
write_request q = int_bytes q.seq ++ (int_bytes q.modid ++ (int_bytes q.cmdid ++ []))

abbrev parse_request : List ℕ → Option GetHostRequest
parse_request bytes =
    some
      (record { seq = int_of bytes; modid = int_of (drop 4 bytes); cmdid = int_of (drop 8 bytes) })

abbrev code : RetCode → ℕ
code succ = 0
code overloaded = 1
code system_error = 2
code noexist = 3

abbrev code_of : ℕ → RetCode
code_of zero = succ
code_of (suc zero) = overloaded
code_of (suc (suc zero)) = system_error
code_of (suc (suc (suc n))) = noexist

code_of-code : (r : RetCode) → code_of (code r) ≡ r
code_of-code succ = refl
code_of-code overloaded = refl
code_of-code system_error = refl
code_of-code noexist = refl

abbrev write_response : GetHostResponse → List ℕ
write_response r =
    code r.retcode
    ∷ (int_bytes r.seq
        ++ (int_bytes r.modid
            ++ (int_bytes r.cmdid ++ (int_bytes r.host.ip ++ (int_bytes r.host.port ++ [])))))

abbrev parse_response : List ℕ → Option GetHostResponse
parse_response [] = none
parse_response (k ∷ bytes) = some (record {
  seq = int_of bytes;
  modid = int_of (drop 4 bytes);
  cmdid = int_of (drop 8 bytes);
  retcode = code_of k;
  host = record { ip = int_of (drop 12 bytes); port = int_of (drop 16 bytes) };
})

abbrev plain : Protobuf
plain = record {
  host_request = write_request;
  route_request = λ q. int_bytes q.modid ++ int_bytes q.cmdid;
  report_request = λ q. int_bytes q.host.ip ++ int_bytes q.host.port;
  parse_host_response = parse_response;
  parse_route_response = λ bytes. record {
    modid = 1;
    cmdid = 2;
    host = map (λ b. record { ip = b; port = 80 }) bytes;
  };
}

-- The text of an address is here the list of its one number.
abbrev texts : Inet
texts = record { inet_ntoa = λ n. n ∷ []; inet_aton = λ t. elim t [ [] ↦ none | n ∷ ns ↦ some n ] }

abbrev parsers : Parsers
parsers = record {
  host_request = parse_request;
  route_request = λ bytes. none;
  report_request =
      λ bytes. record { modid = 0; cmdid = 0; host = record { ip = 0; port = 0 }; is_succ = true };
}

plain-IsFaithful : IsFaithful plain parsers write_response
plain-IsFaithful = record {
  request_small = λ q. omega arith;
  request_read = λ q w. rw (
    int_of-int_bytes q.seq (int_bytes q.modid ++ (int_bytes q.cmdid ++ [])) w.0,
    int_of-int_bytes q.modid (int_bytes q.cmdid ++ []) w.1,
    int_of-int_bytes q.cmdid [] w.2,
  );
  response_small = λ r. omega arith;
  response_read = λ r w.
      let port = int_bytes r.host.port ++ [] in
      let ip = int_bytes r.host.ip ++ port in
      let cmdid = int_bytes r.cmdid ++ ip in
      rw (
        int_of-int_bytes r.seq (int_bytes r.modid ++ cmdid) w.0,
        int_of-int_bytes r.modid cmdid w.1,
        int_of-int_bytes r.cmdid ip w.2,
        int_of-int_bytes r.host.ip port w.3,
        int_of-int_bytes r.host.port [] w.4,
        code_of-code r.retcode,
      );
}

abbrev config : LbConfig
config = record {
  probe_num = 2;
  init_succ_cnt = 10;
  init_err_cnt = 5;
  succ_rate = λ n d. leb (9 * d) (10 * n);
  err_rate = λ n d. leb d (10 * n);
  contin_succ_limit = 3;
  contin_err_limit = 3;
  idle_timeout = 15;
  overload_timeout = 15;
  update_timeout = 15;
}

abbrev client : YlarsApi
client = record { check_seq = 8; peer = none }

-- The agent after a first request for the module and the answer of the DNS service.
abbrev pulled : Agent
pulled =
    get_or_else
      (Option.map (λ o. o.0)
        (host_req_cb config 10 0 (some (record { seq = 7; modid = 1; cmdid = 2 }))
          start_udp_server))
      start_udp_server

abbrev served : Agent
served =
    get_or_else
      (Option.map (λ o. o.0)
        (dns_res_cb config (λ i. 11)
          (some (record { modid = 1; cmdid = 2; host = record { ip = 9; port = 80 } ∷ [] }))
          pulled))
      pulled

abbrev asked_again : Agent
asked_again =
    get_or_else (Option.map (λ o. o.0) (host_req_cb config 12 0 (some (asked client 1 2)) served))
      served

abbrev chosen : GetHostResponse
chosen = record {
  seq = 8;
  modid = 1;
  cmdid = 2;
  retcode = succ;
  host = record { ip = 9; port = 80 };
}

abbrev earlier : GetHostResponse
earlier = record chosen { seq = 7; retcode = noexist }

ran :
    host_req_cb config 12 (route_index 1 2) (some (asked client 1 2)) served
    ≡ some (asked_again, host_response chosen ∷ [])
unfolding host_req_cb dns_res_cb RouteLb.get_host update_host first_pull refresh load_balance
    choice_one_host get_host_from_list update add_hosts add_host remote_hosts need_delete del_hosts
    host_info
ran = refl

get_host-served_example :
    IsCarried plain texts parsers write_response plain-IsFaithful config
      (λ i. 12)
      client
      1
      2
      40001
      60
      chosen
      served
      asked_again
    × (get_host plain texts
          (hearing plain texts parsers write_response plain-IsFaithful
            (write_response earlier ∷ [])
            chosen
            [])
          1
          2
          client
        ≡ some (returned plain texts parsers write_response plain-IsFaithful client 1 2 chosen))
get_host-served_example =
    get_host-served plain texts parsers write_response plain-IsFaithful config (λ i. 12) 40001 60 1
      2 client served asked_again chosen (write_response earlier ∷ []) []
      (omega arith, omega arith, omega arith)
      (omega arith, omega arith, omega arith, omega arith, omega arith)
      (
        (
          earlier,
          (
            omega arith,
            plain-IsFaithful.response_read earlier
                (omega arith, omega arith, omega arith, omega arith, omega arith),
          ),
          omega arith,
        ),
        tt,
      )
      ran

abbrev hearing_chosen : Socket
hearing_chosen =
    hearing plain texts parsers write_response plain-IsFaithful (write_response earlier ∷ []) chosen
      []

abbrev done : Done (RetCode × Option Host)
done = returned plain texts parsers write_response plain-IsFaithful client 1 2 chosen

answered : get_host plain texts hearing_chosen 1 2 client ≡ some done
unfolding get_host request answer_body await answer encode head_bytes head_of int_of
answered = refl

get_host-IsAnswer_example :
    (res : GetHostResponse) × Heard plain res hearing_chosen.hears
    × IsAnswer texts 1 2 8 res (host_entry texts chosen.host)
get_host-IsAnswer_example =
    get_host-IsAnswer plain texts hearing_chosen 1 2 client {d = done}
      {host = host_entry texts chosen.host} answered refl

abbrev working : List (Option (List ℕ)) → Socket
working hears = record { connects = true; sends = true; hears = hears }

report-host_entry_example :
    report plain texts (working []) 1 2 (host_entry texts chosen.host) false client
    ≡ some (record {
      ret = tt;
      sent =
          (
            server_port (route_index 1 2),
            encode (id_report_request, plain.report_request (reported 1 2 chosen.host false)),
          )
          ∷ [];
      api = record client { peer = some (server_port (route_index 1 2)) };
    })
report-host_entry_example =
    report-host_entry plain texts (working []) 1 2 chosen.host false client (λ n h. refl)
      (omega arith) (omega arith) refl refl

-- The first try cannot connect, the second brings nothing, the third a host.
abbrev tries : List (List Host)
tries = [] ∷ [] ∷ ((htonl 7 ∷ [], 80) ∷ []) ∷ []

abbrev down : Socket
down = record { connects = false; sends = true; hears = [] }

abbrev route_answer : List ℕ
route_answer = encode (id_get_route_response, 7 ∷ [])

brought :
    Brings plain texts 1 2
      (down ∷ working (none ∷ []) ∷ working (some route_answer ∷ []) ∷ [])
      tries
unfolding route_of answer_body encode head_bytes head_of int_of
brought = (refl, (refl, (refl, refl)))

reg_init-first_found_example :
    (d : Done RetCode) × (reg_init plain texts
        (down, working (none ∷ []), working (some route_answer ∷ []))
        1
        2
        client
      ≡ some d)
    × (d.ret ≡ (if empty (first_found tries) then noexist else succ))
    × (length d.sent ≤ 3)
reg_init-first_found_example =
    reg_init-first_found plain texts down (working (none ∷ [])) (working (some route_answer ∷ [])) 1
      2 tries client (omega arith) brought
