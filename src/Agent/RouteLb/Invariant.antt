-- ===== src/Agent/RouteLb/Invariant.antt =====
-- The invariant of route_lb, and that every call of it keeps it.
use ylars.Base.{
  ℕ, ◌+◌, ◌≡◌, ◌≢◌, refl, sym, ◌∙◌, Bool, true, List, [], ◌∷◌, none, some, arith, leb, All,
  Bool-cases, Option-cases, inl, inr, is_some, ◌++◌, map,
}
use ylars.Base.Map
use ylars.Base.Map.{Map, All-lookup, All-insert, All-erase}
use ylars.Proto.{
  RetCode, succ, noexist, GetRouteRequest, GetRouteResponse, GetHostResponse, ReportRequest,
  ReportStatusReq, pack,
}
use ylars.Agent.HostInfo.{LbConfig, HostInfo}
use ylars.Agent.LoadBalance.{
  LoadBalance, is_nil, pulling, new, load_balance, empty, choice_one_host, get_host_from_list,
  get_all_host, report, switch_status, to_overload, to_idle, expire,
}
use ylars.Agent.LoadBalance.Invariant.{IsWf, load_balance-IsWf}
use ylars.Agent.LoadBalance.Choice.{choice_one_host-IsWf}
use ylars.Agent.LoadBalance.Report.{report_steps}
use ylars.Agent.LoadBalance.Update.{update-Updated}
use ylars.Agent.LoadBalance.Commit.{deref-Owned, commit-total}
use ylars.Agent.RouteLb.{
  RouteLb, choose, all_hosts, addr_of, first_pull, refresh, get_host, get_route, report_host,
  update_host,
}

-- A module in the map is well formed, has its status, and has its time once it has hosts.
pub record IsServed (lb : LoadBalance) : Type 0 where
  pub wf : IsWf lb
  pub status : is_some lb.status ≡ true
  pub stamp : lb.status ≡ some new → is_some lb.last_update_ts ≡ true

abbrev pub IsServing : RouteLb → Type 0
IsServing rl = All (λ e. IsServed (e.1)) rl.route_map

-- Choosing and reporting leave the status and its time alone.
choice-stamps :
    (c : LbConfig) (res : GetHostResponse) (lb : LoadBalance)
    {out : RetCode × GetHostResponse × LoadBalance}
    → choice_one_host c res lb ≡ some out
    → (out.2.status ≡ lb.status) × (out.2.last_update_ts ≡ lb.last_update_ts)
unfolding choice_one_host get_host_from_list
choice-stamps c res lb e = ground arith

report-stamps :
    (c : LbConfig) (clock : ℕ → ℕ) (ip port : ℕ) (b : Bool) (lb : LoadBalance) {lb' : LoadBalance}
    → report c clock ip port b lb ≡ some lb'
    → (lb'.status ≡ lb.status) × (lb'.last_update_ts ≡ lb.last_update_ts)
unfolding report switch_status to_overload to_idle expire
report-stamps c clock ip port b lb e = ground arith

pulled : LoadBalance → LoadBalance
pulled lb = record lb { status = some pulling }

pulled-IsServed : (lb : LoadBalance) → IsWf lb → IsServed (pulled lb)
unfolding pulled
pulled-IsServed lb w = record {
  wf = record {
    sorted = w.sorted;
    owned = w.owned;
    fresh = w.fresh;
    distinct = w.distinct;
    split = w.split;
    idle = w.idle;
    loaded = w.loaded;
  };
  status = refl;
  stamp = λ e. cc;
}

-- `refresh` finds what it reads, and asks for nothing while an answer is awaited.
abbrev pub Refreshed : LbConfig → ℕ → LoadBalance → LoadBalance × List GetRouteRequest → Type 0
Refreshed c now lb out =
    (refresh c now lb ≡ some out)
    × IsServed out.0
    × (lb.status ≡ some pulling → out.1 ≡ [])
    × (out.1 ≢ [] → out.0.status ≡ some pulling)

refresh-IsServed :
    (c : LbConfig) (now : ℕ) (lb : LoadBalance)
    → IsServed lb
    → (out : LoadBalance × List GetRouteRequest) × Refreshed c now lb out
unfolding refresh pulled
refresh-IsServed c now lb v = elim (Option-cases lb.status) [
  | inl e ↦ absurd (missing e)
  | inr (pulling, e) ↦ ((lb, []), (ground arith, v, (λ h. refl), (λ h. absurd (h refl))))
  | inr (new, e) ↦ elim (Option-cases lb.last_update_ts) [
    | inl t ↦ absurd (unset e t)
    | inr (ts, t) ↦ elim (Bool-cases (leb (ts + c.update_timeout) now)) [
      | inl old ↦ (
        (pulled lb, record { modid = lb.modid; cmdid = lb.cmdid } ∷ []),
        (ground arith, pulled-IsServed lb v.wf, (λ h. let h' = (rw e at h) in cc), (λ h. refl)),
      )
      | inr young ↦ ((lb, []), (ground arith, v, (λ h. refl), (λ h. absurd (h refl))))
    ]
  ]
]
  where
    missing : lb.status ≡ none → ⊥
    missing e = ground (arith, v.status)

    unset : lb.status ≡ some new → lb.last_update_ts ≡ none → ⊥
    unset e t = ground (arith, v.stamp e)

first_pull-IsServing :
    (modid cmdid : ℕ) (rl : RouteLb) → IsServing rl → IsServing (first_pull modid cmdid rl).0
unfolding first_pull pulled
first_pull-IsServing modid cmdid rl v =
    All-insert _ (pack modid cmdid) (pulled (load_balance modid cmdid)) rl.route_map
      (pulled-IsServed (load_balance modid cmdid) (load_balance-IsWf modid cmdid)) v

same_stamps :
    {lb lb' : LoadBalance}
    → IsServed lb
    → IsWf lb'
    → (lb'.status ≡ lb.status) × (lb'.last_update_ts ≡ lb.last_update_ts)
    → IsServed lb'
same_stamps v w s = record {
  wf = w;
  status = rw (s.0) (v.status);
  stamp = λ e. rw (s.1) (v.stamp (sym (s.0) ∙ e));
}

choose-IsServed :
    (c : LbConfig) (res : GetHostResponse) (lb : LoadBalance)
    → IsServed lb
    → (out : RetCode × GetHostResponse × LoadBalance) × (choose c res lb ≡ some out)
      × IsServed out.2
choose-IsServed c res lb v = elim (Bool-cases (empty lb)) [
  | inl e ↦ ((noexist, res, lb), rw e, v)
  | inr e ↦
      let (out, run, w, _) = choice_one_host-IsWf c res lb v.wf in
      (out, rw e run, same_stamps v w (choice-stamps c res lb run))
]

-- A request for a host is answered without a fault, with its return code in the answer, and leaves the
-- modules well formed.
pub get_host-IsServing :
    (c : LbConfig) (now modid cmdid : ℕ) (res : GetHostResponse) (rl : RouteLb)
    → IsServing rl
    → (out : RetCode × GetHostResponse × RouteLb × List GetRouteRequest) × (get_host c now modid
          cmdid res rl
        ≡ some out)
      × IsServing out.2
      × (out.1.retcode ≡ out.0)
unfolding get_host
get_host-IsServing c now modid cmdid res rl v =
    elim (Option-cases (Map.lookup (pack modid cmdid) rl.route_map)) [
      | inl e ↦
          let (rl', reqs) = first_pull modid cmdid rl in
          (
            (noexist, record res { retcode = noexist }, rl', reqs),
            rw (e, get_host),
            first_pull-IsServing modid cmdid rl v,
            refl,
          )
      | inr (lb, e) ↦
          let (mid, run, s) =
            choose-IsServed c res lb (All-lookup _ (pack modid cmdid) rl.route_map v e) in
          let (end, r) = refresh-IsServed c now mid.2 s in
          (
            (
              mid.0,
              record (mid.1) { retcode = mid.0 },
              record rl { route_map = Map.insert (pack modid cmdid) (end.0) rl.route_map },
              end.1,
            ),
            rw (e, get_host, run, r.0),
            All-insert _ (pack modid cmdid) end.0 rl.route_map r.1 v,
            refl,
          )
    ]

all_hosts-total :
    (lb : LoadBalance) → IsWf lb → (out : RetCode × List HostInfo) × (all_hosts lb ≡ some out)
unfolding get_all_host
all_hosts-total lb w = elim (Bool-cases (empty lb)) [
  | inl e ↦ ((noexist, []), rw e)
  | inr e ↦ let (hs, run) = deref-Owned lb.objects lb.host_map w.owned in ((succ, hs), rw (e, run))
]

-- A request for the route of a module is answered without a fault.
pub get_route-IsServing :
    (c : LbConfig) (now modid cmdid : ℕ) (res : GetRouteResponse) (rl : RouteLb)
    → IsServing rl
    → (out : RetCode × GetRouteResponse × RouteLb × List GetRouteRequest) × (get_route c now modid
          cmdid res rl
        ≡ some out)
      × IsServing out.2
unfolding get_route
get_route-IsServing c now modid cmdid res rl v =
    elim (Option-cases (Map.lookup (pack modid cmdid) rl.route_map)) [
      | inl e ↦
          let (rl', reqs) = first_pull modid cmdid rl in
          ((noexist, res, rl', reqs), rw (e, get_route), first_pull-IsServing modid cmdid rl v)
      | inr (lb, e) ↦
          let s = All-lookup _ (pack modid cmdid) rl.route_map v e in
          let (mid, run) = all_hosts-total lb s.wf in
          let (end, r) = refresh-IsServed c now lb s in
          (
            (
              mid.0,
              record res { host = res.host ++ map addr_of (mid.1) },
              record rl { route_map = Map.insert (pack modid cmdid) (end.0) rl.route_map },
              end.1,
            ),
            rw (e, get_route, run, r.0),
            All-insert _ (pack modid cmdid) end.0 rl.route_map r.1 v,
          )
    ]

-- So is a report of a call.
pub report_host-IsServing :
    (c : LbConfig) (clock : ℕ → ℕ) (req : ReportRequest) (rl : RouteLb)
    → IsServing rl
    → (out : RouteLb × List ReportStatusReq) × (report_host c clock req rl ≡ some out)
      × IsServing out.0
unfolding report_host
report_host-IsServing c clock req rl v =
    elim (Option-cases (Map.lookup (pack req.modid req.cmdid) rl.route_map)) [
      | inl e ↦ ((rl, []), rw (e, report_host), v)
      | inr (lb, e) ↦
          let s = All-lookup _ (pack req.modid req.cmdid) rl.route_map v e in
          let (lb', run, w, _) =
            report_steps c clock req.host.ip req.host.port req.is_succ lb s.wf in
          let served = same_stamps s w (report-stamps c clock _ _ req.is_succ lb run) in
          let (reqs, sent) = commit-total (clock 3) lb' w in
          (
            (
              record rl { route_map = Map.insert (pack req.modid req.cmdid) lb' rl.route_map },
              reqs,
            ),
            rw (e, report_host, run, sent),
            All-insert _ (pack req.modid req.cmdid) lb' rl.route_map served v,
          )
    ]

-- And an answer of the DNS service.
pub update_host-IsServing :
    (c : LbConfig) (clock : ℕ → ℕ) (res : GetRouteResponse) (rl : RouteLb)
    → IsServing rl
    → (rl' : RouteLb) × (update_host c clock res rl ≡ some rl') × IsServing rl'
unfolding update_host
update_host-IsServing c clock res rl v =
    elim (Option-cases (Map.lookup (pack res.modid res.cmdid) rl.route_map)) [
      | inl e ↦ (rl, rw (e, update_host), v)
      | inr (lb, e) ↦ elim (Bool-cases (is_nil res.host)) [
        | inl nobody ↦ (
          record rl { route_map = Map.erase (pack res.modid res.cmdid) rl.route_map },
          rw (e, update_host, nobody),
          All-erase _ (pack res.modid res.cmdid) rl.route_map v,
        )
        | inr listed ↦
            let s = All-lookup _ (pack res.modid res.cmdid) rl.route_map v e in
            let (lb', run, u) = update-Updated c clock res lb s.wf in
            (
              record rl { route_map = Map.insert (pack res.modid res.cmdid) lb' rl.route_map },
              rw (e, update_host, listed, run),
              All-insert _ (pack res.modid res.cmdid) lb' rl.route_map
                  (record {
                    wf = u.wf;
                    status = rw (u.status) refl;
                    stamp = λ h. rw (u.stamp) refl;
                  })
                  v,
            )
      ]
    ]
