-- ===== src/Agent/LoadBalance/Invariant.antt =====
-- The invariant of load_balance: the map and the two lists share the hosts as they should.
use ylars.Base.{
  ℕ, ◌+◌, ◌≤◌, ◌<◌, ◌≡◌, ◌≢◌, refl, ◌∙◌, true, false, [], ◌∷◌, Option, none, some, arith, ◌==◌,
  ==_iff, All, Bool-cases, inl, inr, is_some,
}
use ylars.Base.Map
use ylars.Base.Map.{Map, lookup-insert, lookup-insert_self}
use ylars.Base.Refs.{count, remove, count-move, All-append, All-remove}
use ylars.Proto.{pack}
use ylars.Agent.HostInfo.{LbConfig, HostInfo, set_overload, set_idle}
use ylars.Agent.LoadBalance.{LoadBalance, store, to_overload, to_idle, load_balance}
use ylars.Agent.LoadBalance.Store.{
  AllAt, AllAt-insert, AllAt-insert_absent, AllAt-count, count-remove_self,
}

abbrev pub IsIdle : Option HostInfo → Type 0
IsIdle none = ⊥
IsIdle (some h) = h.overload ≡ false

abbrev pub IsLoaded : Option HostInfo → Type 0
IsLoaded none = ⊥
IsLoaded (some h) = (h.overload ≡ true) × (is_some h.overload_ts ≡ true)

abbrev pub HasKey : ℕ → Option HostInfo → Type 0
HasKey k none = ⊥
HasKey k (some h) = pack h.ip h.port ≡ k

abbrev pub Owned : Map HostInfo → Map ℕ → Type 0
Owned objs = All (λ e. HasKey e.0 (Map.lookup e.1 objs))

abbrev pub Fresh : ℕ → Map ℕ → Type 0
Fresh n = All (λ e. e.1 < n)

pub record IsWf (lb : LoadBalance) : Type 0 where
  -- The map is a map, and files each host under its own key.
  pub sorted : Map.IsSorted lb.host_map
  pub owned : Owned lb.objects lb.host_map
  -- Its references are in use, and each stands there once.
  pub fresh : Fresh lb.next_ref lb.host_map
  pub distinct : (r : ℕ) → count r (Map.values lb.host_map) ≤ 1
  -- Each host of the map stands once in one of the lists, and no other host does.
  pub split :
      (r : ℕ) → count r lb.idle_list + count r lb.overload_list ≡ count r (Map.values lb.host_map)
  -- The list is that of the host's flag, and an overloaded host has its time.
  pub idle : AllAt IsIdle lb.objects lb.idle_list
  pub loaded : AllAt IsLoaded lb.objects lb.overload_list

pub load_balance-IsWf : (modid cmdid : ℕ) → IsWf (load_balance modid cmdid)
unfolding load_balance
load_balance-IsWf modid cmdid = record {
  sorted = tt;
  owned = tt;
  fresh = tt;
  distinct = λ r. omega arith;
  split = λ r. omega arith;
  idle = tt;
  loaded = tt;
}

pub count-lookup : (k r : ℕ) (m : Map ℕ) → Map.lookup k m ≡ some r → count r (Map.values m) ≢ 0
count-lookup k r [] e = ground arith
count-lookup k r ((j, q) ∷ m) e = ground (arith, count-lookup k r m)

-- A write that keeps the address keeps the keys.
pub Owned-insert :
    (objs : Map HostInfo) (r : ℕ) (h old : HostInfo) (m : Map ℕ)
    → Map.lookup r objs ≡ some old
    → pack h.ip h.port ≡ pack old.ip old.port
    → Owned objs m
    → Owned (Map.insert r h objs) m
Owned-insert objs r h old [] e p a = tt
Owned-insert objs r h old ((k, q) ∷ m) e p a = elim (Bool-cases (r == q)) [
  | inl hit ↦
      let at_q : Map.lookup q objs ≡ some old = rw (← (==_iff r q).0 hit) e in
      let key : HasKey k (some old) = rw at_q at (a.0) in
      (rw (lookup-insert q r h objs, hit) (p ∙ key), Owned-insert objs r h old m e p a.1)
  | inr miss ↦ (rw (lookup-insert q r h objs, miss) (a.0), Owned-insert objs r h old m e p a.1)
]

-- `r` is the reference of a host of the map, whose object is `old`.
module _ (lb : LoadBalance) (w : IsWf lb) (r : ℕ) (h old : HostInfo)
    (mapped : count r (Map.values lb.host_map) ≢ 0) (found : Map.lookup r lb.objects ≡ some old)
    (same : pack h.ip h.port ≡ pack old.ip old.port) where
  absent_loaded : old.overload ≡ false → count r lb.overload_list ≡ 0
  absent_loaded e = elim (Bool-cases (count r lb.overload_list == 0)) [
    | inl z ↦ (==_iff (count r lb.overload_list) 0).0 z
    | inr n ↦
        let at : IsLoaded (Map.lookup r lb.objects) =
          AllAt-count IsLoaded lb.objects r lb.overload_list (ground arith) w.loaded in
        let at' : IsLoaded (some old) = rw found at at in absurd (ground arith)
  ]

  absent_idle : old.overload ≡ true → count r lb.idle_list ≡ 0
  absent_idle e = elim (Bool-cases (count r lb.idle_list == 0)) [
    | inl z ↦ (==_iff (count r lb.idle_list) 0).0 z
    | inr n ↦
        let at : IsIdle (Map.lookup r lb.objects) =
          AllAt-count IsIdle lb.objects r lb.idle_list (ground arith) w.idle in
        let at' : IsIdle (some old) = rw found at at in absurd (ground arith)
  ]

  pub only_idle : old.overload ≡ false → count r lb.idle_list ≡ 1
  only_idle e = omega (arith, absent_loaded e, w.split r, w.distinct r)

  pub only_loaded : old.overload ≡ true → count r lb.overload_list ≡ 1
  only_loaded e = omega (arith, absent_idle e, w.split r, w.distinct r)

  pub store-IsWf : h.overload ≡ old.overload → h.overload_ts ≡ old.overload_ts → IsWf (store r h lb)
  store-IsWf flag stamp = record {
    sorted = w.sorted;
    owned = Owned-insert lb.objects r h old lb.host_map found same w.owned;
    fresh = w.fresh;
    distinct = w.distinct;
    split = w.split;
    idle = AllAt-insert IsIdle lb.objects r h old lb.idle_list found (λ p. flag ∙ p) w.idle;
    loaded =
        AllAt-insert IsLoaded lb.objects r h old lb.overload_list found
          (λ p. (flag ∙ p.0, rw stamp (p.1))) w.loaded;
  }

  pub to_overload-IsWf :
      (c : LbConfig) (now : ℕ) → old.overload ≡ false → IsWf (to_overload c now r h lb)
  unfolding to_overload set_overload
  to_overload-IsWf c now e = record {
    sorted = w.sorted;
    owned = Owned-insert lb.objects r (set_overload c now h) old lb.host_map found same w.owned;
    fresh = w.fresh;
    distinct = w.distinct;
    split =
        λ q. omega (arith, count-move q r lb.idle_list lb.overload_list (only_idle e), w.split q);
    idle =
        AllAt-insert_absent IsIdle lb.objects r (set_overload c now h) (remove r lb.idle_list)
          (count-remove_self r lb.idle_list) (All-remove _ r lb.idle_list w.idle);
    loaded =
        All-append _ lb.overload_list (r ∷ [])
          (AllAt-insert_absent IsLoaded lb.objects r (set_overload c now h) lb.overload_list
            (absent_loaded e) w.loaded)
          (rw (lookup-insert_self r (set_overload c now h) lb.objects) (refl, refl), tt);
  }

  pub to_idle-IsWf : (c : LbConfig) (now : ℕ) → old.overload ≡ true → IsWf (to_idle c now r h lb)
  unfolding to_idle set_idle
  to_idle-IsWf c now e = record {
    sorted = w.sorted;
    owned = Owned-insert lb.objects r (set_idle c now h) old lb.host_map found same w.owned;
    fresh = w.fresh;
    distinct = w.distinct;
    split =
        λ q. omega (arith, count-move q r lb.overload_list lb.idle_list (only_loaded e), w.split q);
    idle =
        All-append _ lb.idle_list (r ∷ [])
          (AllAt-insert_absent IsIdle lb.objects r (set_idle c now h) lb.idle_list (absent_idle e)
            w.idle)
          (rw (lookup-insert_self r (set_idle c now h) lb.objects) refl, tt);
    loaded =
        AllAt-insert_absent IsLoaded lb.objects r (set_idle c now h) (remove r lb.overload_list)
          (count-remove_self r lb.overload_list) (All-remove _ r lb.overload_list w.loaded);
  }
