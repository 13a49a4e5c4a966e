-- ===== src/Agent/LoadBalance/Tests.antt =====
-- Runs of load_balance at concrete inputs, and the theorems at inputs that meet their hypotheses.
use mathlib.Core.Option
use ylars.Base.{
  ℕ, ◌≡◌, refl, true, false, List, [], ◌∷◌, ◌++◌, none, some, arith, leb, ◌*◌, ◌==◌, if◌then◌else◌,
  length,
}
use ylars.Base.Map
use ylars.Base.Refs.{count}
use ylars.Proto.{RetCode, succ, HostAddr, GetRouteResponse, GetHostResponse, pack}
use ylars.Agent.HostInfo.{LbConfig, HostInfo, host_info, set_overload}
use ylars.Agent.LoadBalance.{
  LoadBalance, new, choice_one_host, count_call, switch_status, fails_too_often, to_overload,
  expire, report, update, add_host, add_hosts, remote_hosts, need_delete, del_host, del_hosts,
  commit,
}
use ylars.Agent.LoadBalance.Invariant.{IsWf}
use ylars.Agent.LoadBalance.Hosts.{host_at}
use ylars.Agent.LoadBalance.Machine.{after_call}
use ylars.Agent.LoadBalance.Report.{report_refines}
use ylars.Agent.LoadBalance.Choice.{Answered, choice_one_host-IsWf}
use ylars.Agent.LoadBalance.Choice.Turns.{
  AllIdle, addresses, choose_n, round_robin, probe_overloaded,
}
use ylars.Agent.LoadBalance.Update.{Updated, update-Updated}
use ylars.Agent.LoadBalance.Commit.{lines, commit_lem}

-- Rates of one in ten, and of nine in ten, over whole numbers.
abbrev config : LbConfig
config = record {
  probe_num = 2;
  init_succ_cnt = 10;
  init_err_cnt = 5;
  succ_rate = λ n d. leb (9 * d) (10 * n);
  err_rate = λ n d. leb d (10 * n);
  contin_succ_limit = 3;
  contin_err_limit = 3;
  idle_timeout = 15;
  overload_timeout = 15;
  update_timeout = 15;
}

abbrev steady : ℕ → ℕ
steady i = 100

abbrev idle_host : HostInfo
idle_host = record {
  ip = 1;
  port = 80;
  vsucc_cnt = 10;
  rsucc_cnt = 0;
  contin_succ = 0;
  verr_cnt = 1;
  rerr_cnt = 1;
  contin_err = 1;
  overload = false;
  idle_ts = 90;
  overload_ts = none;
}

abbrev loaded_host : HostInfo
loaded_host = record {
  ip = 2;
  port = 80;
  vsucc_cnt = 0;
  rsucc_cnt = 0;
  contin_succ = 0;
  verr_cnt = 5;
  rerr_cnt = 0;
  contin_err = 0;
  overload = true;
  idle_ts = 0;
  overload_ts = some 95;
}

-- One idle host and one overloaded one.
abbrev mixed : LoadBalance
mixed = record {
  modid = 1;
  cmdid = 2;
  status = some new;
  last_update_ts = some 90;
  host_map = (pack 1 80, 0) ∷ (pack 2 80, 1) ∷ [];
  idle_list = 0 ∷ [];
  overload_list = 1 ∷ [];
  access_cnt = 0;
  objects = (0, idle_host) ∷ (1, loaded_host) ∷ [];
  next_ref = 2;
}

-- Both hosts idle.
abbrev calm : LoadBalance
calm = record mixed {
  idle_list = 1 ∷ 0 ∷ [];
  overload_list = [];
  objects = (0, idle_host) ∷ (1, record loaded_host { overload = false }) ∷ [];
}

mixed-IsWf : IsWf mixed
mixed-IsWf = record {
  sorted = omega arith;
  owned = (refl, (refl, tt));
  fresh = omega arith;
  distinct = λ r. ground arith;
  split = λ r. ground arith;
  idle = (refl, tt);
  loaded = ((refl, refl), tt);
}

calm-IsWf : IsWf calm
calm-IsWf = record {
  sorted = omega arith;
  owned = (refl, (refl, tt));
  fresh = omega arith;
  distinct = λ r. ground arith;
  split = λ r. ground arith;
  idle = (refl, (refl, tt));
  loaded = tt;
}

-- A failing call at one error in ten sends the host to the overload list.
report_overloads :
    Option.map {B = List ℕ × List ℕ}
      (λ lb. (lb.idle_list, lb.overload_list))
      (report config steady 1 80 false mixed)
    ≡ some ([], 1 ∷ 0 ∷ [])
unfolding report switch_status fails_too_often to_overload set_overload count_call expire
report_overloads = refl

report_refines_example :
    (lb' : LoadBalance) × (report config steady 1 80 false mixed ≡ some lb')
    × IsWf lb'
    × ((k : ℕ)
        → host_at k lb' ≡ (
            if pack 1 80 == k
            then Option.map (after_call config steady false) (host_at k mixed)
            else host_at k mixed))
report_refines_example =
    report_refines config steady 1 80 false mixed mixed-IsWf
      (omega arith, omega arith, omega arith, omega arith, omega arith, omega arith, omega arith)

abbrev blank : GetHostResponse
blank = record { seq = 0; modid = 1; cmdid = 2; retcode = succ; host = record { ip = 0; port = 0 } }

choice_one_host-IsWf_example :
    (out : RetCode × GetHostResponse × LoadBalance) × (choice_one_host config blank mixed
      ≡ some out)
    × IsWf out.2
    × Answered mixed blank out
choice_one_host-IsWf_example = choice_one_host-IsWf config blank mixed mixed-IsWf

round_robin_example : choose_n config blank 2 calm ≡ some (addresses calm (1 ∷ 0 ∷ []), calm)
round_robin_example = round_robin config blank calm calm-IsWf refl refl

probe_overloaded_example :
    (answers : List (RetCode × HostAddr)) × (lb' : LoadBalance) × (choose_n config blank 3 mixed
      ≡ some (answers ++ ((succ, record { ip = 2; port = 80 }) ∷ []), lb'))
    × (length answers ≡ 2)
    × AllIdle mixed.objects (0 ∷ []) answers
    × (lb'.access_cnt ≡ 0)
probe_overloaded_example = probe_overloaded config blank mixed 1 [] mixed-IsWf refl (λ e. cc) refl

-- Host 1 stays, host 2 goes, host 3 is new.
abbrev response : GetRouteResponse
response = record {
  modid = 1;
  cmdid = 2;
  host = record { ip = 3; port = 80 } ∷ record { ip = 1; port = 80 } ∷ [];
}

update_runs :
    Option.map {B = List ℕ × List ℕ × List ℕ}
      (λ lb. (lb.idle_list, lb.overload_list, Map.keys lb.host_map))
      (update config steady response mixed)
    ≡ some (0 ∷ 2 ∷ [], [], pack 1 80 ∷ pack 3 80 ∷ [])
unfolding update add_hosts add_host remote_hosts need_delete del_hosts del_host host_info
update_runs = refl

update-Updated_example :
    (lb' : LoadBalance) × (update config steady response mixed ≡ some lb')
    × Updated config 100 response mixed lb'
update-Updated_example = update-Updated config steady response mixed mixed-IsWf

commit_lem_example :
    (refs : List ℕ) × (commit 100 mixed
      ≡ some (
          record { modid = 1; cmdid = 2; caller = 123; result = lines mixed.objects refs; ts = 100 }
          ∷ []))
    × ((r : ℕ) → count r refs ≡ count r (0 ∷ 1 ∷ []))
commit_lem_example = commit_lem 100 mixed mixed-IsWf refl
