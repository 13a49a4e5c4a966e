-- ===== src/Agent/RouteLb/Labels.antt =====
-- route_lb::get_host leaves the numbers of a request in its answer.
use ylars.Base.{ℕ, ◌≡◌, List, some, arith, Option-cases, inl, inr}
use ylars.Base.Map
use ylars.Proto.{RetCode, GetRouteRequest, GetHostResponse, pack}
use ylars.Agent.HostInfo.{LbConfig}
use ylars.Agent.LoadBalance.{LoadBalance, choice_one_host, get_host_from_list}
use ylars.Agent.RouteLb.{RouteLb, choose, refresh, get_host}

-- Two answers with the same sequence number and module.
abbrev pub SameLabels : GetHostResponse → GetHostResponse → Type 0
SameLabels r s = (r.seq ≡ s.seq) × (r.modid ≡ s.modid) × (r.cmdid ≡ s.cmdid)

choose-labels :
    (c : LbConfig) (res : GetHostResponse) (lb : LoadBalance)
    {out : RetCode × GetHostResponse × LoadBalance}
    → choose c res lb ≡ some out
    → SameLabels out.1 res
unfolding choice_one_host get_host_from_list
choose-labels c res lb e = ground arith

pub get_host-labels :
    (c : LbConfig) (now modid cmdid : ℕ) (res : GetHostResponse) (rl : RouteLb)
    {out : RetCode × GetHostResponse × RouteLb × List GetRouteRequest}
    → get_host c now modid cmdid res rl ≡ some out
    → SameLabels out.1 res
unfolding get_host
get_host-labels c now modid cmdid res rl e =
    elim (Option-cases (Map.lookup (pack modid cmdid) rl.route_map)) [
      | inl f ↦ ground (arith, f)
      | inr (lb, f) ↦ elim (Option-cases (choose c res lb)) [
        | inl g ↦ ground (arith, f, g)
        | inr (mid, g) ↦ elim (Option-cases (refresh c now mid.2)) [
          | inl h ↦ ground (arith, f, g, h)
          | inr (end, h) ↦ ground (arith, f, g, h, choose-labels c res lb g)
        ]
      ]
    ]
