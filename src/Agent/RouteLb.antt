-- ===== src/Agent/RouteLb.antt =====
-- ylars_lb_agent/include/route_lb.h and src/route_lb.cpp: the modules that one agent thread serves. The
-- mutex makes each call one step. What a call puts on the queues of the DNS and the report client is
-- part of its result; `none` is a step into undefined behaviour.
pub mod Invariant
pub mod Labels
use ylars.Base.{
  ℕ, ◌+◌, Bool, true, false, List, [], ◌∷◌, ◌++◌, Option, none, some, map, leb, if◌then◌else◌,
  ◌>>=◌,
}
use ylars.Base.Map
use ylars.Base.Map.{Map}
use ylars.Proto.{
  RetCode, noexist, HostAddr, GetRouteRequest, GetRouteResponse, GetHostResponse, ReportRequest,
  ReportStatusReq, pack,
}
use ylars.Agent.HostInfo.{LbConfig, HostInfo}
use ylars.Agent.LoadBalance.{
  LoadBalance, Status, pulling, new, load_balance, empty, is_nil, pull, choice_one_host,
  get_all_host, report, commit, update,
}

pub record RouteLb : Type 0 where
  pub route_map : Map LoadBalance

-- The first request for a module creates it and asks the DNS service for its hosts.
unfoldable pub first_pull : ℕ → ℕ → RouteLb → RouteLb × List GetRouteRequest
unfolding pull
first_pull modid cmdid rl =
    let (lb, req) = pull (load_balance modid cmdid) in
    (record rl { route_map = Map.insert (pack modid cmdid) lb rl.route_map }, req ∷ [])

-- A module whose hosts are old is asked for anew.
unfoldable pub refresh : LbConfig → ℕ → LoadBalance → Option (LoadBalance × List GetRouteRequest)
unfolding pull
refresh c now lb = lb.status >>= λ s. elim s [
  | pulling ↦ some (lb, [])
  | new ↦ lb.last_update_ts >>= λ ts.
      let (lb', req) = pull lb in
      some (if leb (ts + c.update_timeout) now then (lb', req ∷ []) else (lb, []))
]

abbrev pub choose :
    LbConfig → GetHostResponse → LoadBalance → Option (RetCode × GetHostResponse × LoadBalance)
choose c res lb = if empty lb then some (noexist, res, lb) else choice_one_host c res lb

unfoldable pub get_host :
    LbConfig
    → ℕ
    → ℕ
    → ℕ
    → GetHostResponse
    → RouteLb
    → Option (RetCode × GetHostResponse × RouteLb × List GetRouteRequest)
get_host c now modid cmdid res rl = elim (Map.lookup (pack modid cmdid) rl.route_map) [
  | none ↦
      let (rl', reqs) = first_pull modid cmdid rl in
      some (noexist, record res { retcode = noexist }, rl', reqs)
  | some lb ↦ choose c res lb >>= λ (ret, res', lb'). refresh c now lb' >>= λ (lb'', reqs). some (
    ret,
    record res' { retcode = ret },
    record rl { route_map = Map.insert (pack modid cmdid) lb'' rl.route_map },
    reqs,
  )
]

abbrev pub addr_of : HostInfo → HostAddr
addr_of h = record { ip = h.ip; port = h.port }

abbrev pub all_hosts : LoadBalance → Option (RetCode × List HostInfo)
all_hosts lb = if empty lb then some (noexist, []) else get_all_host lb

unfoldable pub get_route :
    LbConfig
    → ℕ
    → ℕ
    → ℕ
    → GetRouteResponse
    → RouteLb
    → Option (RetCode × GetRouteResponse × RouteLb × List GetRouteRequest)
get_route c now modid cmdid res rl = elim (Map.lookup (pack modid cmdid) rl.route_map) [
  | none ↦ let (rl', reqs) = first_pull modid cmdid rl in some (noexist, res, rl', reqs)
  | some lb ↦ all_hosts lb >>= λ (ret, hosts). refresh c now lb >>= λ (lb', reqs). some (
    ret,
    record res { host = res.host ++ map addr_of hosts },
    record rl { route_map = Map.insert (pack modid cmdid) lb' rl.route_map },
    reqs,
  )
]

-- `clock 3` is the reading of `commit`.
unfoldable pub report_host :
    LbConfig → (ℕ → ℕ) → ReportRequest → RouteLb → Option (RouteLb × List ReportStatusReq)
report_host c clock req rl = elim (Map.lookup (pack req.modid req.cmdid) rl.route_map) [
  | none ↦ some (rl, [])
  | some lb ↦ report c clock req.host.ip req.host.port req.is_succ lb >>= λ lb'.
      commit (clock 3) lb' >>= λ reqs.
      some (record rl { route_map = Map.insert (pack req.modid req.cmdid) lb' rl.route_map }, reqs)
]

-- A response without hosts takes the module away.
unfoldable pub update_host : LbConfig → (ℕ → ℕ) → GetRouteResponse → RouteLb → Option RouteLb
update_host c clock res rl = elim (Map.lookup (pack res.modid res.cmdid) rl.route_map) [
  | none ↦ some rl
  | some lb ↦
      if is_nil res.host
      then some (record rl { route_map = Map.erase (pack res.modid res.cmdid) rl.route_map })
      else update c clock res lb >>= λ lb'.
          some (record rl { route_map = Map.insert (pack res.modid res.cmdid) lb' rl.route_map })
]
