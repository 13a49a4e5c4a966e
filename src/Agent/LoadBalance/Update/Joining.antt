-- ===== src/Agent/LoadBalance/Update/Joining.antt =====
-- load_balance::update, lines 23 to 45 of src/load_balance.cpp: the hosts that come.
use ylars.Base.{
  ℕ, suc, ◌+◌, ◌<◌, ◌≡◌, refl, ◌∙◌, Bool, true, false, ◌||◌, List, [], ◌∷◌, ◌++◌, none, some, arith,
  ◌==◌, ==_iff, if◌then◌else◌, Bool-cases, Option-cases, inl, inr,
}
use ylars.Base.Map
use ylars.Base.Map.{
  Map, lookup-insert, lookup-insert_self, lookup-erase, All-lookup, All-insert, All-erase,
  insert-IsSorted, erase-IsSorted,
}
use ylars.Base.NatSet
use ylars.Base.NatSet.{NatSet, contains-insert}
use ylars.Base.Refs.{count, count-append, count-insert, All-append}
use ylars.Proto.{HostAddr, pack}
use ylars.Agent.HostInfo.{LbConfig, HostInfo, host_info}
use ylars.Agent.LoadBalance.{LoadBalance, add_host, add_hosts, remote_hosts}
use ylars.Agent.LoadBalance.Store.{AllAt-insert_absent}
use ylars.Agent.LoadBalance.Invariant.{IsWf, IsIdle, IsLoaded, Owned, Fresh}
use ylars.Agent.LoadBalance.Hosts.{host_at}

-- A reference that no entry has reached yet stands nowhere.
count-Fresh : (n : ℕ) (m : Map ℕ) → Fresh n m → count n (Map.values m) ≡ 0
count-Fresh n [] f = refl
count-Fresh n ((k, r) ∷ m) f = ground (arith, count-Fresh n m f.1)

Fresh-suc : (n : ℕ) (m : Map ℕ) → Fresh n m → Fresh (suc n) m
Fresh-suc n [] f = tt
Fresh-suc n ((k, r) ∷ m) f = (omega arith, Fresh-suc n m f.1)

Owned-insert-Fresh :
    (objs : Map HostInfo) (n : ℕ) (h : HostInfo) (m : Map ℕ)
    → Fresh n m
    → Owned objs m
    → Owned (Map.insert n h objs) m
Owned-insert-Fresh objs n h [] f o = tt
Owned-insert-Fresh objs n h ((k, r) ∷ m) f o =
    let miss : (n == r) ≡ false = ground arith in
    (rw (lookup-insert r n h objs, miss) (o.0), Owned-insert-Fresh objs n h m f.1 o.1)

-- `lb'` is well formed, and each host of `lb` is in it as it was.
pub record Extends (lb lb' : LoadBalance) : Type 0 where
  pub wf : IsWf lb'
  pub stamp : lb'.last_update_ts ≡ lb.last_update_ts
  pub keeps :
      (k : ℕ)
      → Map.contains k lb.host_map ≡ true
      → (Map.contains k lb'.host_map ≡ true) × (host_at k lb' ≡ host_at k lb)

module _ (c : LbConfig) (now : ℕ) (host : HostAddr) (lb : LoadBalance) (w : IsWf lb)
    (absent : Map.lookup (pack host.ip host.port) lb.host_map ≡ none) where
  abbrev fresh_host : HostInfo
  fresh_host = host_info host.ip host.port c.init_succ_cnt now

  abbrev added : LoadBalance
  added = record lb {
    host_map = Map.insert (pack host.ip host.port) lb.next_ref lb.host_map;
    objects = Map.insert lb.next_ref fresh_host lb.objects;
    idle_list = lb.idle_list ++ (lb.next_ref ∷ []);
    next_ref = suc lb.next_ref;
  }

  added-IsWf : IsWf added
  unfolding host_info
  added-IsWf = record {
    sorted = insert-IsSorted _ lb.next_ref lb.host_map w.sorted;
    owned =
        All-insert _ (pack host.ip host.port) lb.next_ref lb.host_map
          (rw (lookup-insert_self lb.next_ref fresh_host lb.objects) refl)
          (Owned-insert-Fresh lb.objects lb.next_ref fresh_host lb.host_map w.fresh w.owned);
    fresh =
        All-insert _ (pack host.ip host.port) lb.next_ref lb.host_map (omega arith)
          (Fresh-suc lb.next_ref lb.host_map w.fresh);
    distinct = λ q. ground (arith, counted q, w.distinct q, nowhere);
    split =
        λ q. omega (arith, counted q, w.split q, count-append q lb.idle_list (lb.next_ref ∷ []));
    idle =
        All-append _ lb.idle_list (lb.next_ref ∷ [])
          (AllAt-insert_absent IsIdle lb.objects lb.next_ref fresh_host lb.idle_list
            (omega (arith, nowhere, w.split lb.next_ref)) w.idle)
          (rw (lookup-insert_self lb.next_ref fresh_host lb.objects) refl, tt);
    loaded =
        AllAt-insert_absent IsLoaded lb.objects lb.next_ref fresh_host lb.overload_list
          (omega (arith, nowhere, w.split lb.next_ref)) w.loaded;
  }
    where
      nowhere : count lb.next_ref (Map.values lb.host_map) ≡ 0
      nowhere = count-Fresh lb.next_ref lb.host_map w.fresh

      counted :
          (q : ℕ)
          → count q (Map.values added.host_map)
            ≡ count q (lb.next_ref ∷ []) + count q (Map.values lb.host_map)
      counted q = count-insert q _ lb.next_ref lb.host_map absent

  added-keeps :
      (k : ℕ)
      → Map.contains k lb.host_map ≡ true
      → (Map.contains k added.host_map ≡ true) × (host_at k added ≡ host_at k lb)
  added-keeps k h = elim (Option-cases (Map.lookup k lb.host_map)) [
    | inl e ↦ let h' = (rw e at h) in absurd (ground arith)
    | inr (r, e) ↦
        let far : (pack host.ip host.port == k) ≡ false = apart e in
        let old : r < lb.next_ref = All-lookup _ k lb.host_map w.fresh e in
        let older : (lb.next_ref == r) ≡ false = ground arith in
        (
          rw (lookup-insert k (pack host.ip host.port) lb.next_ref lb.host_map, far) h,
          rw (
            lookup-insert k (pack host.ip host.port) lb.next_ref lb.host_map,
            far,
            e,
            lookup-insert r lb.next_ref fresh_host lb.objects,
            older,
          ),
        )
  ]
    where
      apart : {r : ℕ} → Map.lookup k lb.host_map ≡ some r → (pack host.ip host.port == k) ≡ false
      apart e = elim (Bool-cases (pack host.ip host.port == k)) [
        | inl hit ↦
            let at = (rw ((==_iff (pack host.ip host.port) k).0 hit) at absent) in
            absurd (ground arith)
        | inr far ↦ far
      ]

Extends-refl : (lb : LoadBalance) → IsWf lb → Extends lb lb
Extends-refl lb w = record { wf = w; stamp = refl; keeps = λ k h. (h, refl) }

Extends-trans : (a b d : LoadBalance) → Extends a b → Extends b d → Extends a d
Extends-trans a b d e f = record {
  wf = f.wf;
  stamp = f.stamp ∙ e.stamp;
  keeps = λ k h.
      let (there, same) = e.keeps k h in
      let (there', same') = f.keeps k there in (there', same' ∙ same);
}

add_host-Extends :
    (c : LbConfig) (now : ℕ) (host : HostAddr) (lb : LoadBalance)
    → IsWf lb
    → Extends lb (add_host c now host lb)
unfolding add_host
add_host-Extends c now host lb w =
    elim (Option-cases (Map.lookup (pack host.ip host.port) lb.host_map)) [
      | inl e ↦
          rw (e, add_host)
            (record {
              wf = added-IsWf c now host lb w e;
              stamp = refl;
              keeps = added-keeps c now host lb w e;
            })
      | inr (r, e) ↦ rw (e, add_host) (Extends-refl lb w)
    ]

-- The map has the new key, and the keys that it had.
contains-add_host :
    (c : LbConfig) (now k : ℕ) (host : HostAddr) (lb : LoadBalance)
    → Map.contains k (add_host c now host lb).host_map
      ≡ (if pack host.ip host.port == k then true else Map.contains k lb.host_map)
unfolding add_host
contains-add_host c now k host lb =
    elim (Option-cases (Map.lookup (pack host.ip host.port) lb.host_map)) [
      | inl e ↦
          rw (e, lookup-insert k (pack host.ip host.port) lb.next_ref lb.host_map) (ground arith)
      | inr (r, e) ↦ elim (Bool-cases (pack host.ip host.port == k)) [
        | inl hit ↦
            let at = (rw ((==_iff (pack host.ip host.port) k).0 hit) at e) in rw (e, hit) (rw at)
        | inr miss ↦ rw (e, miss)
      ]
    ]

pub add_hosts-Extends :
    (c : LbConfig) (clock : ℕ → ℕ) (hosts : List HostAddr) (lb : LoadBalance)
    → IsWf lb
    → Extends lb (add_hosts c clock hosts lb)
unfolding add_hosts
add_hosts-Extends c clock [] lb w = Extends-refl lb w
add_hosts-Extends c clock (host ∷ hosts) lb w =
    let one = add_host-Extends c (clock 0) host lb w in
    Extends-trans lb (add_host c (clock 0) host lb) _ one
      (add_hosts-Extends c (λ i. clock (i + 1)) hosts (add_host c (clock 0) host lb) one.wf)

-- Whether a response lists the host with a key.
unfoldable pub listed : ℕ → List HostAddr → Bool
listed k [] = false
listed k (host ∷ hosts) = if pack host.ip host.port == k then true else listed k hosts

pub contains-add_hosts :
    (c : LbConfig) (clock : ℕ → ℕ) (k : ℕ) (hosts : List HostAddr) (lb : LoadBalance)
    → Map.contains k (add_hosts c clock hosts lb).host_map
      ≡ (listed k hosts || Map.contains k lb.host_map)
unfolding add_hosts listed
contains-add_hosts c clock k [] lb = refl
contains-add_hosts c clock k (host ∷ hosts) lb =
    rw
      (
        contains-add_hosts c (λ i. clock (i + 1)) k hosts (add_host c (clock 0) host lb),
        contains-add_host c (clock 0) k host lb,
      )
      (ground arith)

pub contains-remote_hosts :
    (k : ℕ) (hosts : List HostAddr) (s : NatSet)
    → NatSet.contains k (remote_hosts hosts s) ≡ (listed k hosts || NatSet.contains k s)
unfolding remote_hosts listed
contains-remote_hosts k [] s = refl
contains-remote_hosts k (host ∷ hosts) s =
    rw
      (
        contains-remote_hosts k hosts (NatSet.insert (pack host.ip host.port) s),
        contains-insert k (pack host.ip host.port) s,
      )
      (ground arith)
