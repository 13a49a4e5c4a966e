-- ===== src/Agent/LoadBalance/Report.antt =====
-- load_balance::report: it keeps the invariant, and does to the host what a state machine of one host
-- does.
use ylars.Base.{
  ap, Option, ℕ, ◌+◌, ◌≡◌, ◌≢◌, refl, sym, ◌∙◌, Bool, true, false, none, some, arith, leb, ◌==◌,
  ==_iff, if◌then◌else◌, Bool-cases, Option-cases, inl, inr, is_some, get_or_else,
}
use mathlib.Core.Option
use ylars.Base.Map
use ylars.Base.Map.{Map, lookup-insert, lookup-insert_self, All-lookup}
use ylars.Base.Refs.{count}
use ylars.Proto.{pack}
use ylars.Agent.HostInfo.{LbConfig, HostInfo, set_overload, set_idle}
use ylars.Agent.LoadBalance.{
  LoadBalance, store, to_overload, to_idle, count_call, switch_status, expire, report, report_ref,
}
use ylars.Agent.LoadBalance.Hosts.{
  switch_host, expire_host, host_step, host_at, host_of_ref, key_of_ref,
}
use ylars.Agent.LoadBalance.Machine.{IsCounting, after_call, host_step-after_call}
use ylars.Agent.LoadBalance.Store.{AllAt-count}
use ylars.Agent.LoadBalance.Invariant.{
  IsWf, IsLoaded, only_loaded, store-IsWf, to_overload-IsWf, to_idle-IsWf, count-lookup,
}

-- `lb'` is well formed, and is `lb` but for the object behind `r`, which is `h`, and for the lists.
record Settled (lb : LoadBalance) (r : ℕ) (h : HostInfo) (lb' : LoadBalance) : Type 0 where
  wf : IsWf lb'
  host_map : lb'.host_map ≡ lb.host_map
  written :
      (q : ℕ) → Map.lookup q lb'.objects ≡ (if r == q then some h else Map.lookup q lb.objects)

switch_cases :
    (P : HostInfo → LoadBalance → Type 0) (c : LbConfig) (now : ℕ) (b : Bool) (r : ℕ) (h : HostInfo)
    (lb : LoadBalance)
    → P h (store r h lb)
    → (h.overload ≡ false → P (set_overload c now h) (to_overload c now r h lb))
    → (h.overload ≡ true → P (set_idle c now h) (to_idle c now r h lb))
    → P (switch_host c now b h) (switch_status c now b r h lb)
unfolding switch_host switch_status
switch_cases P c now b r h lb s o i = ground arith

-- What `expire` leaves where the time of an overloaded host is set.
expire_to : LbConfig → ℕ → ℕ → ℕ → HostInfo → LoadBalance → LoadBalance
expire_to c curr_time now r h lb =
    if h.overload
    then (if leb (get_or_else h.overload_ts 0 + c.overload_timeout) curr_time
        then to_idle c now r h lb
        else lb)
    else if leb (h.idle_ts + c.idle_timeout) curr_time
    then store r (set_idle c now h) lb
    else lb

expire-eq :
    (c : LbConfig) (curr_time now r : ℕ) (h : HostInfo) (lb : LoadBalance)
    → (h.overload ≡ true → is_some h.overload_ts ≡ true)
    → expire c curr_time now r h lb ≡ some (expire_to c curr_time now r h lb)
unfolding expire expire_to
expire-eq c curr_time now r h lb t = ground arith

expire_cases :
    (P : HostInfo → LoadBalance → Type 0) (c : LbConfig) (curr_time now r : ℕ) (h : HostInfo)
    (lb : LoadBalance)
    → P h lb
    → (h.overload ≡ true → P (set_idle c now h) (to_idle c now r h lb))
    → (h.overload ≡ false → P (set_idle c now h) (store r (set_idle c now h) lb))
    → P (expire_host c curr_time now h) (expire_to c curr_time now r h lb)
unfolding expire_host expire_to
expire_cases P c curr_time now r h lb s o i = ground arith

-- `r` is the reference of a host of the map, and `old` is its object.
module _ (lb : LoadBalance) (w : IsWf lb) (r : ℕ) (old : HostInfo)
    (mapped : count r (Map.values lb.host_map) ≢ 0)
    (found : Map.lookup r lb.objects ≡ some old) where
  -- An overloaded host of a well-formed module has its time.
  stamped : old.overload ≡ true → is_some old.overload_ts ≡ true
  stamped e =
      let at : IsLoaded (Map.lookup r lb.objects) =
        AllAt-count IsLoaded lb.objects r lb.overload_list
          (omega (arith, only_loaded lb w r old old mapped found refl e)) w.loaded in
      let at' : IsLoaded (some old) = rw found at at in at'.1

  module _ (h : HostInfo) (same : pack h.ip h.port ≡ pack old.ip old.port)
      (flag : h.overload ≡ old.overload) (stamp : h.overload_ts ≡ old.overload_ts) where
    store-Settled : Settled lb r h (store r h lb)
    store-Settled = record {
      wf = store-IsWf lb w r h old mapped found same flag stamp;
      host_map = refl;
      written = λ q. lookup-insert q r h lb.objects;
    }

    to_overload-Settled :
        (c : LbConfig) (now : ℕ)
        → h.overload ≡ false
        → Settled lb r (set_overload c now h) (to_overload c now r h lb)
    to_overload-Settled c now e = record {
      wf = to_overload-IsWf lb w r h old mapped found same c now (sym flag ∙ e);
      host_map = unfold to_overload in refl;
      written = λ q. unfold to_overload in lookup-insert q r (set_overload c now h) lb.objects;
    }

    to_idle-Settled :
        (c : LbConfig) (now : ℕ)
        → h.overload ≡ true
        → Settled lb r (set_idle c now h) (to_idle c now r h lb)
    to_idle-Settled c now e = record {
      wf = to_idle-IsWf lb w r h old mapped found same c now (sym flag ∙ e);
      host_map = unfold to_idle in refl;
      written = λ q. unfold to_idle in lookup-insert q r (set_idle c now h) lb.objects;
    }

    switch_status-Settled :
        (c : LbConfig) (now : ℕ) (b : Bool)
        → Settled lb r (switch_host c now b h) (switch_status c now b r h lb)
    switch_status-Settled c now b =
        switch_cases (Settled lb r) c now b r h lb store-Settled (to_overload-Settled c now)
          (to_idle-Settled c now)

Settled-trans :
    {lb lb' lb'' : LoadBalance} {r : ℕ} {h h' : HostInfo}
    → Settled lb r h lb'
    → Settled lb' r h' lb''
    → Settled lb r h' lb''
Settled-trans s t = record {
  wf = t.wf;
  host_map = t.host_map ∙ s.host_map;
  written = λ q. ground (arith, s.written q, t.written q);
}

count_call_same :
    (b : Bool) (h : HostInfo)
    → (pack (count_call b h).ip (count_call b h).port ≡ pack h.ip h.port)
      × ((count_call b h).overload ≡ h.overload)
      × ((count_call b h).overload_ts ≡ h.overload_ts)
unfolding count_call
count_call_same true h = (refl, refl, refl)
count_call_same false h = (refl, refl, refl)

host_step-address :
    (c : LbConfig) (clock : ℕ → ℕ) (b : Bool) (h : HostInfo)
    → ((host_step c clock b h).ip ≡ h.ip) × ((host_step c clock b h).port ≡ h.port)
unfolding host_step switch_host expire_host count_call set_overload set_idle
host_step-address c clock b h = ground arith

report_ref-Settled :
    (c : LbConfig) (clock : ℕ → ℕ) (b : Bool) (lb : LoadBalance)
    → IsWf lb
    → (r : ℕ) (old : HostInfo) → count r (Map.values lb.host_map) ≢ 0
    → Map.lookup r lb.objects ≡ some old
    → (lb' : LoadBalance) × (report_ref c clock b r lb ≡ some lb')
      × Settled lb r (host_step c clock b old) lb'
unfolding host_step
report_ref-Settled c clock b lb w r old mapped found = (
  expire_to c (clock 0) (clock 2) r h₁ mid,
  rw (found, found₁) (expire-eq c _ _ r h₁ mid at_mid),
  expire_cases (Settled lb r) c (clock 0) (clock 2) r h₁ mid s
      (λ e.
        Settled-trans s
          (to_idle-Settled mid s.wf r h₁ mapped₁ found₁ h₁ refl refl refl c (clock 2) e))
      (λ e. Settled-trans s (
        store-Settled mid s.wf r h₁ mapped₁ found₁ (set_idle c (clock 2) h₁)
          (unfold set_idle in refl) (unfold set_idle in sym e) (unfold set_idle in refl))),
)
  where
    h : HostInfo
    h = count_call b old

    h₁ : HostInfo
    h₁ = switch_host c (clock 1) b h

    mid : LoadBalance
    mid = switch_status c (clock 1) b r h lb

    s : Settled lb r h₁ mid
    s =
        switch_status-Settled lb w r old mapped found h (count_call_same b old).0
          (count_call_same b old).1 (count_call_same b old).2 c (clock 1) b

    found₁ : Map.lookup r mid.objects ≡ some h₁
    found₁ = ground (arith, s.written r)

    mapped₁ : count r (Map.values mid.host_map) ≢ 0
    mapped₁ = rw (s.host_map) mapped

    at_mid : h₁.overload ≡ true → is_some h₁.overload_ts ≡ true
    at_mid = stamped mid s.wf r h₁ mapped₁ found₁

host_at_absent :
    (f : HostInfo → HostInfo) (j k : ℕ) (lb : LoadBalance)
    → Map.lookup j lb.host_map ≡ none
    → host_at k lb ≡ (if j == k then Option.map f (host_at k lb) else host_at k lb)
host_at_absent f j k lb e = elim (Bool-cases (j == k)) [
  | inl hit ↦ let at : Map.lookup k lb.host_map ≡ none = rw (← (==_iff j k).0 hit) e in rw (hit, at)
  | inr miss ↦ rw miss
]

host_at-Settled :
    (f : HostInfo → HostInfo) (j k r : ℕ) (old : HostInfo) (lb lb' : LoadBalance)
    → IsWf lb
    → Map.lookup j lb.host_map ≡ some r
    → Map.lookup r lb.objects ≡ some old
    → Settled lb r (f old) lb'
    → host_at k lb' ≡ (if j == k then Option.map f (host_at k lb) else host_at k lb)
host_at-Settled f j k r old lb lb' w e found s = elim (Option-cases (Map.lookup k lb.host_map)) [
  | inl at ↦ rw (s.host_map, at) (ground arith)
  | inr (q, at) ↦ elim (Bool-cases (r == q)) [
    | inl hit ↦
        let rq : r ≡ q = (==_iff r q).0 hit in
        let jk : j ≡ k = key_of_ref lb w j k r e (rw rq at) in
        let found' : Map.lookup q lb.objects ≡ some old = rw (← rq) found in
        rw (s.host_map, at, s.written q, hit, found', (==_iff j k).1 jk)
    | inr miss ↦
        let far : (j == k) ≡ false = apart at miss in rw (s.host_map, at, s.written q, miss, far)
  ]
]
  where
    apart : {q : ℕ} → Map.lookup k lb.host_map ≡ some q → (r == q) ≡ false → (j == k) ≡ false
    apart {q} at miss = elim (Bool-cases (j == k)) [
      | inl hit ↦
          let at' : Map.lookup k lb.host_map ≡ some r = rw (← (==_iff j k).0 hit) e in
          absurd (ground arith)
      | inr far ↦ far
    ]

-- Whatever the counts are, a report comes to its end, keeps the module well formed, and changes exactly the
-- host that it is about.
pub report_steps :
    (c : LbConfig) (clock : ℕ → ℕ) (ip port : ℕ) (b : Bool) (lb : LoadBalance)
    → IsWf lb
    → (lb' : LoadBalance) × (report c clock ip port b lb ≡ some lb')
      × IsWf lb'
      × ((k : ℕ)
          → host_at k lb' ≡ (
              if pack ip port == k
              then Option.map (host_step c clock b) (host_at k lb)
              else host_at k lb))
unfolding report
report_steps c clock ip port b lb w = elim (Option-cases (Map.lookup (pack ip port) lb.host_map)) [
  | inl e ↦ (lb, rw (e, report), w, λ k. host_at_absent (host_step c clock b) _ k lb e)
  | inr (r, e) ↦
      let (old, found, key) = host_of_ref lb w (pack ip port) r e in
      let (lb', ran, s) =
        report_ref-Settled c clock b lb w r old (count-lookup _ r lb.host_map e) found in
      (
        lb',
        rw (e, report) ran,
        s.wf,
        λ k. host_at-Settled (host_step c clock b) (pack ip port) k r old lb lb' w e found s,
      )
]

-- What is asked of the host that a report is about, if the map has it.
abbrev pub IsCountingAt : LbConfig → Option HostInfo → Type 0
IsCountingAt c none = Unit
IsCountingAt c (some h) = IsCounting c h

after_call-map :
    (c : LbConfig) (clock : ℕ → ℕ) (b : Bool) (o : Option HostInfo)
    → IsCountingAt c o
    → Option.map (host_step c clock b) o ≡ Option.map (after_call c clock b) o
after_call-map c clock b none w = refl
after_call-map c clock b (some h) w = ap some (host_step-after_call c clock b h w)

after_call-at :
    (c : LbConfig) (clock : ℕ → ℕ) (b : Bool) (j k : ℕ) (lb : LoadBalance)
    → IsCountingAt c (host_at j lb)
    → (if j == k then Option.map (host_step c clock b) (host_at k lb) else host_at k lb)
      ≡ (if j == k then Option.map (after_call c clock b) (host_at k lb) else host_at k lb)
after_call-at c clock b j k lb w = elim (Bool-cases (j == k)) [
  | inl hit ↦
      let at : IsCountingAt c (host_at k lb) = rw (← (==_iff j k).0 hit) w in
      rw (hit, after_call-map c clock b (host_at k lb) at)
  | inr miss ↦ rw miss
]

-- Of a well-formed module, where no count of the host that a report is about is at the end of an int and
-- neither limit of consecutive calls is negative: the report comes to its end without a fault, keeps the
-- module well formed, and changes exactly that host, to what the state machine of a host over unbounded
-- counts says; of a host that is not in the map, nothing.
pub report_refines :
    (c : LbConfig) (clock : ℕ → ℕ) (ip port : ℕ) (b : Bool) (lb : LoadBalance)
    → IsWf lb
    → IsCountingAt c (host_at (pack ip port) lb)
    → (lb' : LoadBalance) × (report c clock ip port b lb ≡ some lb')
      × IsWf lb'
      × ((k : ℕ)
          → host_at k lb' ≡ (
              if pack ip port == k
              then Option.map (after_call c clock b) (host_at k lb)
              else host_at k lb))
report_refines c clock ip port b lb w n =
    let (lb', ran, w', hosts) = report_steps c clock ip port b lb w in
    (lb', ran, w', λ k. hosts k ∙ after_call-at c clock b (pack ip port) k lb n)
