-- ===== src/Agent/LoadBalance/Choice/Turns.antt =====
-- load_balance::choice_one_host, call after call.
use ylars.Base.{
  ℕ, zero, suc, ◌+◌, ◌≤◌, ◌<◌, ◌≡◌, ◌≢◌, refl, sym, ap, true, false, List, [], ◌∷◌, ◌++◌, Option,
  some, arith, leb, All, inl, inr, ◌>>=◌, length, map, List-cases, append-nil, append_assoc,
}
use ylars.Base.Map
use ylars.Base.Map.{Map}
use ylars.Base.Refs.{count, count-append, count-cons_self}
use ylars.Proto.{RetCode, succ, HostAddr, GetHostResponse}
use ylars.Agent.HostInfo.{LbConfig, HostInfo}
use ylars.Agent.LoadBalance.{LoadBalance, empty, choice_one_host}
use ylars.Agent.LoadBalance.Store.{AllAt}
use ylars.Agent.LoadBalance.Invariant.{IsWf}
use ylars.Agent.LoadBalance.Choice.{
  address, IsThere, answer, idle-AllAt, loaded-AllAt, get_host-cons, map_of_idle, rotate_idle-IsWf,
}

-- Calls one after another, with what each answers.
pub choose_n :
    LbConfig → GetHostResponse → ℕ → LoadBalance → Option (List (RetCode × HostAddr) × LoadBalance)
choose_n c res zero lb = some ([], lb)
choose_n c res (suc n) lb = choice_one_host c res lb >>= λ (ret, res', lb').
    choose_n c res n lb' >>= λ (answers, end). some ((ret, res'.host) ∷ answers, end)

abbrev pub addresses : LoadBalance → List ℕ → List (RetCode × HostAddr)
addresses lb = map (λ r. (succ, address (Map.lookup r lb.objects)))

abbrev pub AllIdle : Map HostInfo → List ℕ → List (RetCode × HostAddr) → Type 0
AllIdle objs idle =
    All (λ a. (r : ℕ) × (count r idle ≢ 0) × (a ≡ (succ, address (Map.lookup r objs))))

not-append_nil : (xs : List ℕ) (x : ℕ) → xs ++ (x ∷ []) ≢ []
not-append_nil [] x e = cc
not-append_nil (y ∷ ys) x e = cc

module _ (c : LbConfig) (res : GetHostResponse) where
  turn :
      (lb : LoadBalance) (r : ℕ) (rest : List ℕ)
      → empty lb ≡ false
      → lb.idle_list ≡ r ∷ rest
      → lb.overload_list ≡ []
      → IsThere (Map.lookup r lb.objects)
      → choice_one_host c res lb
        ≡ some (succ, answer lb.objects r res, record lb { idle_list = rest ++ (r ∷ []) })
  unfolding choice_one_host
  turn lb r rest full i o t = rw (full, i, o, get_host-cons lb.objects res r rest t)

  turns :
      (xs ys : List ℕ) (lb : LoadBalance)
      → empty lb ≡ false
      → lb.idle_list ≡ xs ++ ys
      → lb.overload_list ≡ []
      → AllAt IsThere lb.objects xs
      → choose_n c res (length xs) lb ≡ some (addresses lb xs, record lb { idle_list = ys ++ xs })
  unfolding choose_n
  turns [] ys lb full i o t = rw (append-nil ys) (ground arith)
  turns (x ∷ xs) ys lb full i o t =
      rw
        (
          turn lb x (xs ++ ys) full i o t.0,
          turns xs (ys ++ (x ∷ [])) (record lb { idle_list = (xs ++ ys) ++ (x ∷ []) }) full
              (append_assoc xs ys (x ∷ [])) o t.1,
        )
        (rw (append_assoc ys (x ∷ []) xs))

  -- Where no host is overloaded, as many calls as there are idle hosts answer each of them once, in the
  -- order of the list, and leave the module as it was.
  pub round_robin :
      (lb : LoadBalance)
      → IsWf lb
      → lb.overload_list ≡ []
      → empty lb ≡ false
      → choose_n c res (length lb.idle_list) lb ≡ some (addresses lb lb.idle_list, lb)
  round_robin lb w o full =
      turns lb.idle_list [] lb full (sym (append-nil lb.idle_list)) o (idle-AllAt lb w)

  -- The next call probes the overload list.
  probe_now :
      (lb : LoadBalance)
      → IsWf lb
      → (q : ℕ) (more : List ℕ) → lb.overload_list ≡ q ∷ more
      → lb.idle_list ≢ []
      → empty lb ≡ false
      → c.probe_num ≤ lb.access_cnt
      → choice_one_host c res lb
        ≡ some (
          succ,
          answer lb.objects q res,
          record lb { access_cnt = 0; overload_list = more ++ (q ∷ []) },
        )
  unfolding choice_one_host
  probe_now lb w q more o i full due = elim (List-cases lb.idle_list) [
    | inl e ↦ absurd (i e)
    | inr (r, rest, e) ↦
        let there = (rw o at (loaded-AllAt lb w)) in
        let due' : leb c.probe_num lb.access_cnt ≡ true = ground arith in
        rw (full, e, o, due', get_host-cons lb.objects res q more there.0)
  ]

  -- The next call answers an idle host and counts towards the probe.
  idle_next :
      (lb : LoadBalance)
      → IsWf lb
      → (q : ℕ) (more : List ℕ) (r : ℕ) (rest : List ℕ) → lb.overload_list ≡ q ∷ more
      → lb.idle_list ≡ r ∷ rest
      → empty lb ≡ false
      → lb.access_cnt < c.probe_num
      → choice_one_host c res lb
        ≡ some (
          succ,
          answer lb.objects r res,
          record lb { access_cnt = lb.access_cnt + 1; idle_list = rest ++ (r ∷ []) },
        )
  unfolding choice_one_host
  idle_next lb w q more r rest o i full soon =
      let there = (rw i at (idle-AllAt lb w)) in
      let soon' : leb c.probe_num lb.access_cnt ≡ false = ground arith in
      rw (full, i, o, soon', get_host-cons lb.objects res r rest there.0)

  probes :
      (n : ℕ) (lb : LoadBalance) (q : ℕ) (more idle : List ℕ)
      → IsWf lb
      → empty lb ≡ false
      → lb.overload_list ≡ q ∷ more
      → lb.idle_list ≢ []
      → ((r : ℕ) → count r lb.idle_list ≡ count r idle)
      → lb.access_cnt + n ≡ c.probe_num
      → (answers : List (RetCode × HostAddr)) × (lb' : LoadBalance) × (choose_n c res (suc n) lb
          ≡ some (answers ++ ((succ, address (Map.lookup q lb.objects)) ∷ []), lb'))
        × (length answers ≡ n)
        × AllIdle lb.objects idle answers
        × (lb'.access_cnt ≡ 0)
  unfolding choose_n
  probes zero lb q more idle w full o i counts a = (
    [],
    record lb { access_cnt = 0; overload_list = more ++ (q ∷ []) },
    rw (probe_now lb w q more o i full (omega arith)),
    refl,
    tt,
    refl,
  )
  probes (suc n) lb q more idle w full o i counts a = elim (List-cases lb.idle_list) [
    | inl e ↦ absurd (i e)
    | inr (r, rest, e) ↦
        let lb₁ : LoadBalance = record lb {
          access_cnt = lb.access_cnt + 1;
          idle_list = rest ++ (r ∷ []);
        } in
        let (answers, lb', run, len, all, zeroed) =
          probes n lb₁ q more idle (rotate_idle-IsWf lb r (lb.access_cnt + 1) rest e w) full o
            (not-append_nil rest r)
            (λ x. omega (arith, count-append x rest (r ∷ []), counts x, ap (count x) e))
            (omega arith) in
        (
          (succ, address (Map.lookup r lb.objects)) ∷ answers,
          lb',
          rw (idle_next lb w q more r rest o e full (omega arith), choose_n) (rw run),
          ap suc len,
          ((r, omega (arith, counts r, ap (count r) e, count-cons_self r rest), refl), all),
          zeroed,
        )
  ]

  -- Where hosts of both kinds are there, the calls after a probe answer `probe_num` idle hosts, and the
  -- one after them the overloaded host that has waited longest, and count anew.
  pub probe_overloaded :
      (lb : LoadBalance) (q : ℕ) (more : List ℕ)
      → IsWf lb
      → lb.overload_list ≡ q ∷ more
      → lb.idle_list ≢ []
      → lb.access_cnt ≡ 0
      → (answers : List (RetCode × HostAddr)) × (lb' : LoadBalance) × (choose_n c res
            (suc c.probe_num)
            lb
          ≡ some (answers ++ ((succ, address (Map.lookup q lb.objects)) ∷ []), lb'))
        × (length answers ≡ c.probe_num)
        × AllIdle lb.objects lb.idle_list answers
        × (lb'.access_cnt ≡ 0)
  probe_overloaded lb q more w o i a = elim (List-cases lb.idle_list) [
    | inl e ↦ absurd (i e)
    | inr (r, rest, e) ↦
        probes c.probe_num lb q more lb.idle_list w (map_of_idle lb w r rest e) o i (λ x. refl)
          (omega arith)
  ]
