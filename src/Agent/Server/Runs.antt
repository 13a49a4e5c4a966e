-- ===== src/Agent/Server/Runs.antt =====
-- Every history of the agent.
use ylars.Base.{
  in_range, ℕ, suc, zero, ◌<◌, ◌≡◌, refl, ◌∙◌, List, [], ◌∷◌, ◌++◌, Option, none, some, arith, All,
  length, length-set, set, get_elem?, ◌>>=◌,
}
use ylars.Proto.{GetRouteRequest, GetRouteResponse, GetHostRequest, ReportRequest, ReportStatusReq}
use ylars.Agent.HostInfo.{LbConfig}
use ylars.Agent.RouteLb.{RouteLb}
use ylars.Agent.RouteLb.Invariant.{
  IsServing, get_host-IsServing, get_route-IsServing, report_host-IsServing, update_host-IsServing,
}
use ylars.Agent.Server.{
  Agent, Message, route_response, host_response, route_req_cb, host_req_cb, report_req_cb,
  route_index, dns_res_cb, dns_task_cb, report_task_cb, route_blank, host_blank, start_udp_server,
}

-- What can happen to the agent: a request at one of the three servers, an answer of the DNS service, or
-- a client thread that takes its tasks.
pub data Event : Type 0 where
  asks_route : ℕ → (index : ℕ) → index < 3 → Option GetRouteRequest → Event
  asks_host : ℕ → (index : ℕ) → index < 3 → Option GetHostRequest → Event
  reports : (ℕ → ℕ) → (index : ℕ) → index < 3 → ReportRequest → Event
  answers : (ℕ → ℕ) → Option GetRouteResponse → Event
  dns_tasks report_tasks : Event

unfoldable pub step : LbConfig → Event → Agent → Option (Agent × List Message)
step c (asks_route now index _ req) a = route_req_cb c now index req a
step c (asks_host now index _ req) a = host_req_cb c now index req a
step c (reports clock index _ req) a = report_req_cb c clock index req a
step c (answers clock res) a = dns_res_cb c clock res a
step c dns_tasks a = some (dns_task_cb a)
step c report_tasks a = some (report_task_cb a)

unfoldable pub run : LbConfig → List Event → Agent → Option (Agent × List Message)
run c [] a = some (a, [])
run c (e ∷ es) a =
    step c e a >>= λ (a', out). run c es a' >>= λ (end, rest). some (end, out ++ rest)

-- Three servers, each well formed.
pub record IsRunning (a : Agent) : Type 0 where
  pub three : length a.agent_routes ≡ 3
  pub serving : All IsServing a.agent_routes

All-get_elem? {ℓ κ} :
    {A : Type ℓ} (P : A → Type κ) (xs : List A) (i : ℕ) {x : A}
    → All P xs
    → get_elem? xs i ≡ some x
    → P x
All-get_elem? P [] i a e = ground arith
All-get_elem? P (y ∷ xs) zero {x} a e = let p : y ≡ x = ground arith in rw (← p) (a.0)
All-get_elem? P (y ∷ xs) (suc i) a e = All-get_elem? P xs i a.1 e

All-set {ℓ κ} :
    {A : Type ℓ} (P : A → Type κ) (xs : List A) (i : ℕ) (x : A)
    → All P xs
    → P x
    → All P (set xs i x)
All-set P [] i x a p = tt
All-set P (y ∷ xs) zero x a p = (p, a.1)
All-set P (y ∷ xs) (suc i) x a p = (a.0, All-set P xs i x a.1 p)

module _ (a : Agent) (v : IsRunning a) (index : ℕ) (within : index < 3) where
  server : (rl : RouteLb) × (get_elem? a.agent_routes index ≡ some rl) × IsServing rl
  server =
      let (rl, at) = in_range a.agent_routes index (rw (v.three) within) in
      (rl, at, All-get_elem? IsServing a.agent_routes index v.serving at)

  replaced :
      (rl : RouteLb) (dns : List GetRouteRequest) (rep : List ReportStatusReq)
      → IsServing rl
      → IsRunning (record a {
        agent_routes = set a.agent_routes index rl;
        dns_queue = dns;
        report_queue = rep;
      })
  replaced rl dns rep s = record {
    three = length-set a.agent_routes index rl ∙ v.three;
    serving = All-set IsServing a.agent_routes index rl v.serving s;
  }

step-IsRunning :
    (c : LbConfig) (e : Event) (a : Agent)
    → IsRunning a
    → (out : Agent × List Message) × (step c e a ≡ some out) × IsRunning out.0
unfolding step route_req_cb host_req_cb report_req_cb dns_res_cb dns_task_cb report_task_cb
step-IsRunning c (asks_route now index h none) a v = ((a, []), refl, v)
step-IsRunning c (asks_route now index h (some req)) a v =
    let (rl, at, s) = server a v index h in
    let (out, run, s') = get_route-IsServing c now req.modid req.cmdid (route_blank req) rl s in
    (
      (
        record a {
          agent_routes = set a.agent_routes index (out.2);
          dns_queue = a.dns_queue ++ out.3;
        },
        route_response (out.1) ∷ [],
      ),
      rw (at, run),
      replaced a v index h out.2 _ _ s',
    )
step-IsRunning c (asks_host now index h none) a v = ((a, []), refl, v)
step-IsRunning c (asks_host now index h (some req)) a v =
    let (rl, at, s) = server a v index h in
    let (out, run, s', _) = get_host-IsServing c now req.modid req.cmdid (host_blank req) rl s in
    (
      (
        record a {
          agent_routes = set a.agent_routes index (out.2);
          dns_queue = a.dns_queue ++ out.3;
        },
        host_response (out.1) ∷ [],
      ),
      rw (at, run),
      replaced a v index h out.2 _ _ s',
    )
step-IsRunning c (reports clock index h req) a v =
    let (rl, at, s) = server a v index h in
    let (out, run, s') = report_host-IsServing c clock req rl s in
    (
      (
        record a {
          agent_routes = set a.agent_routes index (out.0);
          report_queue = a.report_queue ++ out.1;
        },
        [],
      ),
      rw (at, run),
      replaced a v index h out.0 _ _ s',
    )
step-IsRunning c (answers clock none) a v = ((a, []), refl, v)
step-IsRunning c (answers clock (some res)) a v =
    let h : route_index res.modid res.cmdid < 3 = omega arith in
    let (rl, at, s) = server a v (route_index res.modid res.cmdid) h in
    let (rl', run, s') = update_host-IsServing c clock res rl s in
    (
      (record a { agent_routes = set a.agent_routes (route_index res.modid res.cmdid) rl' }, []),
      rw (at, run),
      replaced a v (route_index res.modid res.cmdid) h rl' _ _ s',
    )
step-IsRunning c dns_tasks a v =
    (dns_task_cb a, refl, record { three = v.three; serving = v.serving })
step-IsRunning c report_tasks a v =
    (report_task_cb a, refl, record { three = v.three; serving = v.serving })

start-IsRunning : IsRunning start_udp_server
start-IsRunning = record { three = refl; serving = (tt, (tt, (tt, tt))) }

run-IsRunning :
    (c : LbConfig) (es : List Event) (a : Agent)
    → IsRunning a
    → (out : Agent × List Message) × (run c es a ≡ some out) × IsRunning out.0
unfolding run
run-IsRunning c [] a v = ((a, []), refl, v)
run-IsRunning c (e ∷ es) a v =
    let (mid, ran, v') = step-IsRunning c e a v in
    let (end, ran', v'') = run-IsRunning c es (mid.0) v' in
    ((end.0, mid.1 ++ end.1), rw (ran, ran'), v'')

-- No history of requests, reports, answers and tasks, from the start of the agent, leads to a fault: no
-- front of an empty list, no read of an unset status or time, no missing object. All modules of its
-- three servers stay well formed.
pub run_start :
    (c : LbConfig) (es : List Event)
    → (out : Agent × List Message) × (run c es start_udp_server ≡ some out) × IsRunning out.0
run_start c es = run-IsRunning c es start_udp_server start-IsRunning
