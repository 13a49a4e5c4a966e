-- ===== src/Agent/LoadBalance/Hosts.antt =====
-- What load_balance::report does to the object of one host, and the hosts that a module files under their
-- keys.
use ylars.Base.{
  ℕ, ◌+◌, ◌≡◌, refl, Bool, not, ◌&&◌, Option, none, some, arith, leb, if◌then◌else◌, get_or_else,
  ◌>>=◌,
}
use ylars.Base.Map
use ylars.Base.Map.{Map, lookup-insert, lookup-insert_self, All-lookup}
use ylars.Proto.{pack}
use ylars.Agent.HostInfo.{LbConfig, HostInfo, set_overload, set_idle}
use ylars.Agent.LoadBalance.{LoadBalance, count_call, fails_too_often, succeeds_enough}
use ylars.Agent.LoadBalance.Invariant.{IsWf, HasKey}

-- The steps of the code on the object of one host, whatever list it is in.
unfoldable pub switch_host : LbConfig → ℕ → Bool → HostInfo → HostInfo
switch_host c now is_succ h =
    if not h.overload && not is_succ
    then (if fails_too_often c h then set_overload c now h else h)
    else if h.overload && is_succ
    then (if succeeds_enough c h then set_idle c now h else h)
    else h

unfoldable pub expire_host : LbConfig → ℕ → ℕ → HostInfo → HostInfo
expire_host c curr_time now h =
    if h.overload
    then (if leb (get_or_else h.overload_ts 0 + c.overload_timeout) curr_time
        then set_idle c now h
        else h)
    else if leb (h.idle_ts + c.idle_timeout) curr_time
    then set_idle c now h
    else h

unfoldable pub host_step : LbConfig → (ℕ → ℕ) → Bool → HostInfo → HostInfo
host_step c clock is_succ h =
    expire_host c (clock 0) (clock 2) (switch_host c (clock 1) is_succ (count_call is_succ h))

-- The host that is filed under a key.
abbrev pub host_at : ℕ → LoadBalance → Option HostInfo
host_at k lb = Map.lookup k lb.host_map >>= λ r. Map.lookup r lb.objects

-- The object of a host of the map.
pub host_of_ref :
    (lb : LoadBalance)
    → IsWf lb
    → (k r : ℕ) → Map.lookup k lb.host_map ≡ some r
    → (h : HostInfo) × (Map.lookup r lb.objects ≡ some h) × (pack h.ip h.port ≡ k)
host_of_ref lb w k r e =
    go (Map.lookup r lb.objects) refl
      (All-lookup (λ e. HasKey e.0 (Map.lookup e.1 lb.objects)) k lb.host_map w.owned e)
  where
    go :
        (o : Option HostInfo)
        → Map.lookup r lb.objects ≡ o
        → HasKey k (Map.lookup r lb.objects)
        → (h : HostInfo) × (Map.lookup r lb.objects ≡ some h) × (pack h.ip h.port ≡ k)
    go none e' p = let p' : HasKey k none = rw e' at p in absurd p'
    go (some h) e' p = (h, e', rw e' at p)

-- Two keys with one reference are one key.
pub key_of_ref :
    (lb : LoadBalance)
    → IsWf lb
    → (j k r : ℕ) → Map.lookup j lb.host_map ≡ some r
    → Map.lookup k lb.host_map ≡ some r
    → j ≡ k
key_of_ref lb w j k r ej ek = ground (arith, host_of_ref lb w j r ej, host_of_ref lb w k r ek)
