-- ===== src/Agent/LoadBalance/Update.antt =====
-- load_balance::update: the map follows the response of the DNS service.
pub mod Leaving
pub mod Joining
use ylars.Base.{
  ℕ, suc, ◌+◌, ◌≤◌, ◌<◌, ◌≡◌, refl, ◌∙◌, Bool, true, false, not, ◌&&◌, ◌||◌, List, [], ◌∷◌, ◌++◌,
  none, some, arith, ◌==◌, ==_iff, if◌then◌else◌, All, Bool-cases, Option-cases, inl, inr,
}
use ylars.Base.Map
use ylars.Base.Map.{
  Map, lookup-insert, lookup-insert_self, lookup-erase, All-lookup, All-insert, All-erase,
  insert-IsSorted, erase-IsSorted,
}
use ylars.Base.NatSet
use ylars.Base.NatSet.{NatSet, contains-insert}
use ylars.Base.Refs.{
  count, remove, count-append, count-insert, count-erase, count-removed, All-append, All-remove,
}
use ylars.Proto.{HostAddr, GetRouteResponse, pack}
use ylars.Agent.HostInfo.{LbConfig, HostInfo, host_info}
use ylars.Agent.LoadBalance.{
  LoadBalance, new, add_host, add_hosts, remote_hosts, need_delete, del_host, del_hosts, update,
}
use ylars.Agent.LoadBalance.Store.{AllAt, AllAt-insert_absent}
use ylars.Agent.LoadBalance.Invariant.{
  IsWf, IsIdle, IsLoaded, Owned, Fresh, count-lookup, only_idle, only_loaded,
}
use ylars.Agent.LoadBalance.Hosts.{host_at, host_of_ref}
use ylars.Agent.LoadBalance.Update.Leaving.{
  contains-need_delete, need_delete-IsSorted, Dropped, need_delete-Present, del_hosts-Dropped,
}
use ylars.Agent.LoadBalance.Update.Joining.{
  Extends, add_hosts-Extends, listed, contains-add_hosts, contains-remote_hosts,
}

-- What an update comes to.
pub record Updated (c : LbConfig) (now : ℕ) (res : GetRouteResponse) (lb lb' : LoadBalance)
    : Type 0 where
  pub wf : IsWf lb'
  -- The hosts are those that the response lists.
  pub hosts : (k : ℕ) → Map.contains k lb'.host_map ≡ listed k res.host
  -- Those that stay keep their counts, their flag and their times.
  pub kept :
      (k : ℕ)
      → Map.contains k lb.host_map ≡ true
      → listed k res.host ≡ true
      → host_at k lb' ≡ host_at k lb
  pub status : lb'.status ≡ some new
  pub stamp : lb'.last_update_ts ≡ some now

-- An update meets no fault, keeps the module well formed, leaves exactly the hosts that the response
-- lists, and leaves those that stay as they were.
pub update-Updated :
    (c : LbConfig) (clock : ℕ → ℕ) (res : GetRouteResponse) (lb : LoadBalance)
    → IsWf lb
    → (lb' : LoadBalance) × (update c clock res lb ≡ some lb') × Updated c (clock 0) res lb lb'
unfolding update
update-Updated c clock res lb w =
    let (end, ran, d) =
      del_hosts-Dropped (need_delete (remote_hosts res.host []) mid.host_map) mid e.wf
        (need_delete-IsSorted _ mid.host_map e.wf.sorted) (need_delete-Present _ mid.host_map) in
    (record end { status = some new }, rw ran, finish end d)
  where
    start : LoadBalance
    start = record lb { last_update_ts = some (clock 0) }

    start-IsWf : IsWf start
    start-IsWf = record {
      sorted = w.sorted;
      owned = w.owned;
      fresh = w.fresh;
      distinct = w.distinct;
      split = w.split;
      idle = w.idle;
      loaded = w.loaded;
    }

    mid : LoadBalance
    mid = add_hosts c (λ i. clock (i + 1)) res.host start

    e : Extends start mid
    e = add_hosts-Extends c (λ i. clock (i + 1)) res.host start start-IsWf

    finish :
        (end : LoadBalance)
        → Dropped (need_delete (remote_hosts res.host []) mid.host_map) mid end
        → Updated c (clock 0) res lb (record end { status = some new })
    finish end d = record {
      wf = record {
        sorted = d.wf.sorted;
        owned = d.wf.owned;
        fresh = d.wf.fresh;
        distinct = d.wf.distinct;
        split = d.wf.split;
        idle = d.wf.idle;
        loaded = d.wf.loaded;
      };
      hosts = λ k. ground (
        arith,
        d.host_map k,
        contains-need_delete (remote_hosts res.host []) k mid.host_map,
        contains-remote_hosts k res.host [],
        contains-add_hosts c (λ i. clock (i + 1)) k res.host start,
      );
      kept = λ k there here.
          let stays : NatSet.contains k (need_delete (remote_hosts res.host []) mid.host_map)
              ≡ false =
            ground (
              arith,
              contains-need_delete (remote_hosts res.host []) k mid.host_map,
              contains-remote_hosts k res.host [],
            ) in
          rw (d.host_map k, stays, d.objects) ((e.keeps k there).1);
      status = refl;
      stamp = d.stamp ∙ e.stamp;
    }
