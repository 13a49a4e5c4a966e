-- ===== src/Agent/LoadBalance/Choice.antt =====
-- load_balance::choice_one_host: which host is answered, and how the lists turn.
pub mod Turns
use ylars.Base.{
  ℕ, zero, suc, ◌+◌, ◌≤◌, ◌<◌, ◌≡◌, ◌≢◌, refl, sym, ◌∙◌, ap, true, false, List, [], ◌∷◌, ◌++◌,
  Option, none, some, arith, leb, All, Bool-cases, inl, inr, is_some, ◌>>=◌, length, map,
  List-cases, append-nil, append_assoc,
}
use ylars.Base.Map
use ylars.Base.Map.{Map}
use ylars.Base.Refs.{count, count-append, count-cons_self, All-append}
use ylars.Proto.{RetCode, succ, overloaded, noexist, HostAddr, GetHostResponse}
use ylars.Agent.HostInfo.{LbConfig, HostInfo}
use ylars.Agent.LoadBalance.{LoadBalance, empty, get_host_from_list, choice_one_host}
use ylars.Agent.LoadBalance.Store.{AllAt}
use ylars.Agent.LoadBalance.Invariant.{IsWf, IsIdle, IsLoaded}

-- The address behind a reference.
abbrev pub address : Option HostInfo → HostAddr
address none = record { ip = 0; port = 0 }
address (some h) = record { ip = h.ip; port = h.port }

abbrev pub IsThere : Option HostInfo → Type 0
IsThere o = is_some o ≡ true

abbrev pub answer : Map HostInfo → ℕ → GetHostResponse → GetHostResponse
answer objs r res = record res { host = address (Map.lookup r objs) }

IsIdle-IsThere : (o : Option HostInfo) → IsIdle o → IsThere o
IsIdle-IsThere none h = absurd h
IsIdle-IsThere (some o) h = refl

IsLoaded-IsThere : (o : Option HostInfo) → IsLoaded o → IsThere o
IsLoaded-IsThere none h = absurd h
IsLoaded-IsThere (some o) h = refl

All-imp {κ λ'} :
    {P : ℕ → Type κ} {Q : ℕ → Type λ'} (f : (r : ℕ) → P r → Q r) (xs : List ℕ) → All P xs → All Q xs
All-imp f [] a = tt
All-imp f (x ∷ xs) a = (f x a.0, All-imp f xs a.1)

pub idle-AllAt : (lb : LoadBalance) → IsWf lb → AllAt IsThere lb.objects lb.idle_list
idle-AllAt lb w = All-imp (λ r. IsIdle-IsThere (Map.lookup r lb.objects)) lb.idle_list w.idle

pub loaded-AllAt : (lb : LoadBalance) → IsWf lb → AllAt IsThere lb.objects lb.overload_list
loaded-AllAt lb w =
    All-imp (λ r. IsLoaded-IsThere (Map.lookup r lb.objects)) lb.overload_list w.loaded

pub get_host-cons :
    (objs : Map HostInfo) (res : GetHostResponse) (r : ℕ) (rest : List ℕ)
    → IsThere (Map.lookup r objs)
    → get_host_from_list objs res (r ∷ rest) ≡ some (answer objs r res, rest ++ (r ∷ []))
unfolding get_host_from_list
get_host-cons objs res r rest t = ground arith

-- A well-formed module with a host in a list has a host in the map.
pub map_of_idle :
    (lb : LoadBalance)
    → IsWf lb
    → (r : ℕ) (rest : List ℕ) → lb.idle_list ≡ r ∷ rest
    → empty lb ≡ false
map_of_idle lb w r rest e = nonempty lb.host_map (w.split r)
  where
    nonempty :
        (m : Map ℕ)
        → count r lb.idle_list + count r lb.overload_list ≡ count r (Map.values m)
        → Map.is_empty m ≡ false
    nonempty [] s = let s' = (rw e at s) in absurd (ground arith)
    nonempty (x ∷ m) s = refl

pub rotate_idle-IsWf :
    (lb : LoadBalance) (r n : ℕ) (rest : List ℕ)
    → lb.idle_list ≡ r ∷ rest
    → IsWf lb
    → IsWf (record lb { idle_list = rest ++ (r ∷ []); access_cnt = n })
rotate_idle-IsWf lb r n rest e w = record {
  sorted = w.sorted;
  owned = w.owned;
  fresh = w.fresh;
  distinct = w.distinct;
  split = λ q. omega (arith, count-append q rest (r ∷ []), w.split q, ap (count q) e);
  idle = let a = (rw e at (w.idle)) in All-append _ rest (r ∷ []) a.1 (a.0, tt);
  loaded = w.loaded;
}

rotate_overload-IsWf :
    (lb : LoadBalance) (r n : ℕ) (rest : List ℕ)
    → lb.overload_list ≡ r ∷ rest
    → IsWf lb
    → IsWf (record lb { overload_list = rest ++ (r ∷ []); access_cnt = n })
rotate_overload-IsWf lb r n rest e w = record {
  sorted = w.sorted;
  owned = w.owned;
  fresh = w.fresh;
  distinct = w.distinct;
  split = λ q. omega (arith, count-append q rest (r ∷ []), w.split q, ap (count q) e);
  idle = w.idle;
  loaded = let a = (rw e at (w.loaded)) in All-append _ rest (r ∷ []) a.1 (a.0, tt);
}

access-IsWf : (lb : LoadBalance) (n : ℕ) → IsWf lb → IsWf (record lb { access_cnt = n })
access-IsWf lb n w = record {
  sorted = w.sorted;
  owned = w.owned;
  fresh = w.fresh;
  distinct = w.distinct;
  split = w.split;
  idle = w.idle;
  loaded = w.loaded;
}

-- What an outcome says of the module that it was asked of.
abbrev pub Answered :
    LoadBalance → GetHostResponse → RetCode × GetHostResponse × LoadBalance → Type 0
Answered lb res out = elim (out.0) [
  | succ ↦ (r : ℕ) × (count r (Map.values lb.host_map) ≢ 0) × (out.1 ≡ answer lb.objects r res)
  | overloaded ↦ (lb.idle_list ≡ []) × (empty lb ≡ false) × (out.1 ≡ res)
  | noexist ↦ (empty lb ≡ true) × (out.1 ≡ res)
  | _ ↦ ⊥
]

-- Some host is overloaded where there are hosts and none is idle.
loaded_of_map :
    (lb : LoadBalance) → IsWf lb → empty lb ≡ false → lb.idle_list ≡ [] → lb.overload_list ≢ []
loaded_of_map lb w h i e = go lb.host_map h w.split
  where
    go :
        (m : Map ℕ)
        → Map.is_empty m ≡ false
        → ((r : ℕ) → count r lb.idle_list + count r lb.overload_list ≡ count r (Map.values m))
        → ⊥
    go [] h s = ground arith
    go ((k, r) ∷ m) h s = let s' = (rw (i, e) at (s r)) in ground arith

module _ (c : LbConfig) (res : GetHostResponse) (lb : LoadBalance) (w : IsWf lb) where
  abbrev pub Outcome : Type 0
  Outcome =
      (out : RetCode × GetHostResponse × LoadBalance) × (choice_one_host c res lb ≡ some out)
      × IsWf out.2
      × Answered lb res out

  idle_choice :
      (r : ℕ) (rest : List ℕ) (n : ℕ)
      → lb.idle_list ≡ r ∷ rest
      → choice_one_host c res lb ≡ (
          get_host_from_list lb.objects res lb.idle_list >>= λ (res', l).
          some (succ, res', record lb { idle_list = l; access_cnt = n }))
      → Outcome
  idle_choice r rest n e run =
      let there = (rw e at (idle-AllAt lb w)) in
      (
        (succ, answer lb.objects r res, record lb { idle_list = rest ++ (r ∷ []); access_cnt = n }),
        run ∙ rw (e, get_host-cons lb.objects res r rest there.0),
        rotate_idle-IsWf lb r n rest e w,
        (r, omega (arith, w.split r, ap (count r) e, count-cons_self r rest), refl),
      )

  overload_choice :
      (r : ℕ) (rest : List ℕ)
      → lb.overload_list ≡ r ∷ rest
      → choice_one_host c res lb ≡ (
          get_host_from_list lb.objects res lb.overload_list >>= λ (res', l).
          some (succ, res', record lb { overload_list = l; access_cnt = 0 }))
      → Outcome
  overload_choice r rest e run =
      let there = (rw e at (loaded-AllAt lb w)) in
      (
        (
          succ,
          answer lb.objects r res,
          record lb { overload_list = rest ++ (r ∷ []); access_cnt = 0 },
        ),
        run ∙ rw (e, get_host-cons lb.objects res r rest there.0),
        rotate_overload-IsWf lb r 0 rest e w,
        (r, omega (arith, w.split r, ap (count r) e, count-cons_self r rest), refl),
      )

  -- Nobody is idle.
  no_idle_choice : empty lb ≡ false → lb.idle_list ≡ [] → Outcome
  unfolding choice_one_host get_host_from_list
  no_idle_choice full i = elim (List-cases lb.overload_list) [
    | inl e ↦ absurd (loaded_of_map lb w full i e)
    | inr (r, rest, e) ↦ elim (Bool-cases (leb c.probe_num lb.access_cnt)) [
      | inl due ↦ overload_choice r rest e (rw (full, i, due, choice_one_host))
      | inr wait ↦ (
        (overloaded, res, record lb { access_cnt = lb.access_cnt + 1 }),
        rw (full, i, wait, choice_one_host),
        access-IsWf lb (lb.access_cnt + 1) w,
        (i, full, refl),
      )
    ]
  ]

  some_idle_choice : empty lb ≡ false → (r : ℕ) (rest : List ℕ) → lb.idle_list ≡ r ∷ rest → Outcome
  unfolding choice_one_host get_host_from_list
  some_idle_choice full r rest i = elim (List-cases lb.overload_list) [
    | inl e ↦ idle_choice r rest lb.access_cnt i (rw (full, i, e, choice_one_host))
    | inr (q, more, e) ↦ elim (Bool-cases (leb c.probe_num lb.access_cnt)) [
      | inl due ↦ overload_choice q more e (rw (full, i, e, due, choice_one_host))
      | inr wait ↦ idle_choice r rest (lb.access_cnt + 1) i (rw (full, i, e, wait, choice_one_host))
    ]
  ]

  -- Choosing never takes the front of an empty list, keeps the module well formed, and answers a host
  -- of the map, or RET_OVERLOAD only where none of its hosts is idle, or RET_NOEXIST only where it has
  -- no host.
  pub choice_one_host-IsWf : Outcome
  unfolding choice_one_host
  choice_one_host-IsWf = elim (Bool-cases (empty lb)) [
    | inl nobody ↦ ((noexist, res, lb), rw (nobody, choice_one_host), w, (nobody, refl))
    | inr full ↦ elim (List-cases lb.idle_list) [
      | inl i ↦ no_idle_choice full i
      | inr (r, rest, i) ↦ some_idle_choice full r rest i
    ]
  ]
