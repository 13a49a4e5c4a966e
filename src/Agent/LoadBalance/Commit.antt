-- ===== src/Agent/LoadBalance/Commit.antt =====
-- load_balance::commit and get_all_host: what is told of the hosts of a module.
use ylars.Base.{
  ℕ, ◌≡◌, refl, Bool, true, false, List, [], ◌∷◌, ◌++◌, Option, none, some, arith, Bool-cases,
  Option-cases, inl, inr, map,
}
use mathlib.Core.List.{map-append}
use ylars.Base.Map
use ylars.Base.Map.{Map}
use ylars.Base.Refs.{count, count-append}
use ylars.Proto.{HostCallResult, ReportStatusReq}
use ylars.Agent.HostInfo.{HostInfo}
use ylars.Agent.LoadBalance.{LoadBalance, empty, deref, result_of, commit}
use ylars.Agent.LoadBalance.Store.{AllAt}
use ylars.Agent.LoadBalance.Invariant.{IsWf, IsIdle, IsLoaded, Owned}

-- The line of a host, with the flag that the host has.
abbrev pub line : Option HostInfo → HostCallResult
line none = record { ip = 0; port = 0; succ = 0; err = 0; overload = false }
line (some h) = record {
  ip = h.ip;
  port = h.port;
  succ = h.rsucc_cnt;
  err = h.rerr_cnt;
  overload = h.overload;
}

abbrev HasFlag : Bool → Option HostInfo → Type 0
HasFlag b none = ⊥
HasFlag b (some h) = h.overload ≡ b

abbrev pub lines : Map HostInfo → List ℕ → List HostCallResult
lines objs = map (λ r. line (Map.lookup r objs))

deref-lines :
    (b : Bool) (objs : Map HostInfo) (xs : List ℕ)
    → AllAt (HasFlag b) objs xs
    → (hs : List HostInfo) × (deref objs xs ≡ some hs) × (map (result_of b) hs ≡ lines objs xs)
unfolding deref
deref-lines b objs [] a = ([], refl, refl)
deref-lines b objs (x ∷ xs) a = elim (Option-cases (Map.lookup x objs)) [
  | inl e ↦ let a' = (rw e at (a.0)) in absurd a'
  | inr (h, e) ↦
      let (hs, run, eq) = deref-lines b objs xs a.1 in
      let flag : h.overload ≡ b = (rw e at (a.0)) in (h ∷ hs, rw (e, run), rw (e, eq, flag))
]

flags :
    (P : Option HostInfo → Type 0) (b : Bool) (objs : Map HostInfo)
    → ((o : Option HostInfo) → P o → HasFlag b o)
    → (xs : List ℕ) → AllAt P objs xs
    → AllAt (HasFlag b) objs xs
flags P b objs f [] a = tt
flags P b objs f (x ∷ xs) a = (f _ a.0, flags P b objs f xs a.1)

idle_flag : (o : Option HostInfo) → IsIdle o → HasFlag false o
idle_flag none p = absurd p
idle_flag (some h) p = p

loaded_flag : (o : Option HostInfo) → IsLoaded o → HasFlag true o
loaded_flag none p = absurd p
loaded_flag (some h) p = p.0

-- A module with hosts reports once, and its report has one line for each host of the map, with the
-- host's own counts and flag; no read on the way meets a missing object.
pub commit_lem :
    (now : ℕ) (lb : LoadBalance)
    → IsWf lb
    → empty lb ≡ false
    → (refs : List ℕ) × (commit now lb
        ≡ some (
            record {
              modid = lb.modid;
              cmdid = lb.cmdid;
              caller = 123;
              result = lines lb.objects refs;
              ts = now;
            }
            ∷ []))
      × ((r : ℕ) → count r refs ≡ count r (Map.values lb.host_map))
unfolding commit
commit_lem now lb w full =
    let (idle, run, eq) =
      deref-lines false lb.objects lb.idle_list (flags IsIdle false _ idle_flag _ w.idle) in
    let (loaded, run', eq') =
      deref-lines true lb.objects lb.overload_list (flags IsLoaded true _ loaded_flag _ w.loaded) in
    (
      lb.idle_list ++ lb.overload_list,
      rw (full, run, run', eq, eq') (rw map-append),
      λ r. omega (arith, count-append r lb.idle_list lb.overload_list, w.split r),
    )

-- The report of any well-formed module is made without a fault.
pub commit-total :
    (now : ℕ) (lb : LoadBalance)
    → IsWf lb
    → (reqs : List ReportStatusReq) × (commit now lb ≡ some reqs)
unfolding commit
commit-total now lb w = elim (Bool-cases (empty lb)) [
  | inl e ↦ ([], rw e)
  | inr e ↦ let (refs, run, _) = commit_lem now lb w e in (_, run)
]

-- The hosts that the map owns can all be read.
pub deref-Owned :
    (objs : Map HostInfo) (m : Map ℕ)
    → Owned objs m
    → (hs : List HostInfo) × (deref objs (Map.values m) ≡ some hs)
unfolding deref
deref-Owned objs [] o = ([], refl)
deref-Owned objs ((k, r) ∷ m) o = elim (Option-cases (Map.lookup r objs)) [
  | inl e ↦ let o' = (rw e at (o.0)) in absurd o'
  | inr (h, e) ↦ let (hs, run) = deref-Owned objs m o.1 in (h ∷ hs, rw (e, run))
]
