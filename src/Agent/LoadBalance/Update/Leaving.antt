-- ===== src/Agent/LoadBalance/Update/Leaving.antt =====
-- load_balance::update, lines 46 to 67 of src/load_balance.cpp: the hosts that go.
use ylars.Base.{
  ℕ, ◌+◌, ◌≤◌, ◌≡◌, refl, ◌∙◌, true, not, ◌&&◌, List, [], ◌∷◌, none, some, arith, ◌==◌, ==_iff,
  if◌then◌else◌, All, Bool-cases, Option-cases, inl, inr,
}
use ylars.Base.Map
use ylars.Base.Map.{
  Map, lookup-insert, lookup-insert_self, lookup-erase, All-lookup, All-insert, All-erase,
  insert-IsSorted, erase-IsSorted,
}
use ylars.Base.NatSet
use ylars.Base.NatSet.{NatSet, contains-insert}
use ylars.Base.Refs.{count, remove, count-erase, count-removed, All-remove}
use ylars.Agent.HostInfo.{HostInfo}
use ylars.Agent.LoadBalance.{LoadBalance, need_delete, del_host, del_hosts}
use ylars.Agent.LoadBalance.Store.{AllAt}
use ylars.Agent.LoadBalance.Invariant.{IsWf, IsIdle, IsLoaded, count-lookup, only_idle, only_loaded}
use ylars.Agent.LoadBalance.Hosts.{host_of_ref}

-- The keys to delete are those of the map that the response does not list, in rising order.
pub contains-need_delete :
    (remote : NatSet) (k : ℕ) (m : Map ℕ)
    → NatSet.contains k (need_delete remote m)
      ≡ (Map.contains k m && not (NatSet.contains k remote))
unfolding need_delete
contains-need_delete remote k [] = refl
contains-need_delete remote k ((j, r) ∷ m) = elim (Bool-cases (j == k)) [
  | inl hit ↦ rw ((==_iff j k).0 hit) (ground (arith, contains-need_delete remote k m))
  | inr miss ↦ ground (arith, contains-need_delete remote k m)
]

need_delete-Above :
    (remote : NatSet) (lo : ℕ) (m : Map ℕ) → Map.Above lo m → NatSet.Above lo (need_delete remote m)
unfolding need_delete
need_delete-Above remote lo [] s = tt
need_delete-Above remote lo ((j, r) ∷ m) s = ground (
  arith,
  need_delete-Above remote j m s.1,
  need_delete-Above remote lo m (Map.Above-mono {a = lo} {b = j} m (omega arith) s.1),
)

pub need_delete-IsSorted :
    (remote : NatSet) (m : Map ℕ) → Map.IsSorted m → NatSet.IsSorted (need_delete remote m)
unfolding need_delete
need_delete-IsSorted remote [] s = tt
need_delete-IsSorted remote ((j, r) ∷ m) s = ground (
  arith,
  need_delete-Above remote j m s,
  need_delete-IsSorted remote m (Map.Above-IsSorted j m s),
)

-- `lb'` is well formed, and is `lb` without the hosts of `ks`.
pub record Dropped (ks : List ℕ) (lb lb' : LoadBalance) : Type 0 where
  pub wf : IsWf lb'
  pub stamp : lb'.last_update_ts ≡ lb.last_update_ts
  pub objects : lb'.objects ≡ lb.objects
  pub host_map :
      (k : ℕ)
      → Map.lookup k lb'.host_map
        ≡ (if NatSet.contains k ks then none else Map.lookup k lb.host_map)

module _ (lb : LoadBalance) (w : IsWf lb) (k r : ℕ) (h : HostInfo)
    (mapped : Map.lookup k lb.host_map ≡ some r) (found : Map.lookup r lb.objects ≡ some h) where
  without : List ℕ → List ℕ → LoadBalance
  without idle loaded = record lb {
    idle_list = idle;
    overload_list = loaded;
    host_map = Map.erase k lb.host_map;
  }

  erased :
      (q : ℕ)
      → count q (Map.values (Map.erase k lb.host_map)) + count q (r ∷ [])
        ≡ count q (Map.values lb.host_map)
  erased q = count-erase q k r lb.host_map w.sorted mapped

  without-Dropped :
      (idle loaded : List ℕ)
      → ((q : ℕ)
          → count q idle + count q loaded + count q (r ∷ [])
            ≡ count q lb.idle_list + count q lb.overload_list)
      → AllAt IsIdle lb.objects idle
      → AllAt IsLoaded lb.objects loaded
      → Dropped (k ∷ []) lb (without idle loaded)
  unfolding without
  without-Dropped idle loaded counts i l = record {
    wf = record {
      sorted = erase-IsSorted k lb.host_map w.sorted;
      owned = All-erase _ k lb.host_map w.owned;
      fresh = All-erase _ k lb.host_map w.fresh;
      distinct = λ q. omega (arith, erased q, w.distinct q);
      split = λ q. omega (arith, erased q, w.split q, counts q);
      idle = i;
      loaded = l;
    };
    stamp = refl;
    objects = refl;
    host_map = λ j. ground (arith, lookup-erase j k lb.host_map);
  }

  del_host-Dropped : (lb' : LoadBalance) × (del_host k lb ≡ some lb') × Dropped (k ∷ []) lb lb'
  unfolding del_host without
  del_host-Dropped = elim (Bool-cases h.overload) [
    | inl e ↦
        let once = only_loaded lb w r h h (count-lookup k r lb.host_map mapped) found refl e in
        (
          without lb.idle_list (remove r lb.overload_list),
          rw (mapped, found, e),
          without-Dropped lb.idle_list (remove r lb.overload_list)
              (λ q. omega (arith, count-removed q r lb.overload_list once)) w.idle
              (All-remove _ r lb.overload_list w.loaded),
        )
    | inr e ↦
        let once = only_idle lb w r h h (count-lookup k r lb.host_map mapped) found refl e in
        (
          without (remove r lb.idle_list) lb.overload_list,
          rw (mapped, found, e),
          without-Dropped (remove r lb.idle_list) lb.overload_list
              (λ q. omega (arith, count-removed q r lb.idle_list once))
              (All-remove _ r lb.idle_list w.idle) w.loaded,
        )
  ]

abbrev Present : Map ℕ → List ℕ → Type 0
Present m = All (λ k. Map.contains k m ≡ true)

Present-Dropped :
    (lb lb' : LoadBalance) (k lo : ℕ) (ks : List ℕ)
    → Dropped (k ∷ []) lb lb'
    → k ≤ lo
    → NatSet.Above lo ks
    → Present lb.host_map ks
    → Present lb'.host_map ks
Present-Dropped lb lb' k lo [] d h s p = tt
Present-Dropped lb lb' k lo (j ∷ ks) d h s p =
    (ground (arith, d.host_map j), Present-Dropped lb lb' k j ks d (omega arith) s.1 p.1)

Present-cons : (j r : ℕ) (m : Map ℕ) (ks : List ℕ) → Present m ks → Present ((j, r) ∷ m) ks
Present-cons j r m [] p = tt
Present-cons j r m (k ∷ ks) p = (ground arith, Present-cons j r m ks p.1)

pub need_delete-Present : (remote : NatSet) (m : Map ℕ) → Present m (need_delete remote m)
unfolding need_delete
need_delete-Present remote [] = tt
need_delete-Present remote ((j, r) ∷ m) = elim (Bool-cases (NatSet.contains j remote)) [
  | inl e ↦ rw e (Present-cons j r m _ (need_delete-Present remote m))
  | inr e ↦ rw e (ground arith, Present-cons j r m _ (need_delete-Present remote m))
]

-- Deleting the keys of a rising list that are all in the map meets no fault.
pub del_hosts-Dropped :
    (ks : List ℕ) (lb : LoadBalance)
    → IsWf lb
    → NatSet.IsSorted ks
    → All (λ k. Map.contains k lb.host_map ≡ true) ks
    → (lb' : LoadBalance) × (del_hosts ks lb ≡ some lb') × Dropped ks lb lb'
unfolding del_hosts
del_hosts-Dropped [] lb w s a =
    (lb, refl, record { wf = w; stamp = refl; objects = refl; host_map = λ k. refl })
del_hosts-Dropped (k ∷ ks) lb w s a = elim (Option-cases (Map.lookup k lb.host_map)) [
  | inl e ↦ let a' = (rw e at (a.0)) in absurd (ground arith)
  | inr (r, e) ↦
      let (h, found, key) = host_of_ref lb w k r e in
      let (one, ran, d) = del_host-Dropped lb w k r h e found in
      let (end, ran', d') =
        del_hosts-Dropped ks one d.wf (NatSet.Above-IsSorted k ks s)
          (Present-Dropped lb one k k ks d (omega arith) s a.1) in
      (
        end,
        rw (ran, del_hosts) ran',
        record {
          wf = d'.wf;
          stamp = d'.stamp ∙ d.stamp;
          objects = d'.objects ∙ d.objects;
          host_map = λ j. ground (arith, d.host_map j, d'.host_map j);
        },
      )
]
