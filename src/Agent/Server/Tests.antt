-- ===== src/Agent/Server/Tests.antt =====
-- A short history of the agent.
use ylars.Base.{◌≡◌, refl, List, [], ◌∷◌, Option, none, some, arith, leb, ◌*◌}
use ylars.Proto.{noexist, succ}
use ylars.Agent.HostInfo.{LbConfig, host_info}
use ylars.Agent.LoadBalance.{
  load_balance, choice_one_host, get_host_from_list, update, add_hosts, add_host, remote_hosts,
  need_delete, del_hosts,
}
use ylars.Agent.RouteLb.{first_pull, refresh, get_host, update_host}
use ylars.Agent.Server.{Agent, Message, host_response, host_req_cb, dns_res_cb, start_udp_server}
use ylars.Agent.Server.Runs.{Event, asks_host, answers, step, run, IsRunning, run_start}

abbrev config : LbConfig
config = record {
  probe_num = 2;
  init_succ_cnt = 10;
  init_err_cnt = 5;
  succ_rate = λ n d. leb (9 * d) (10 * n);
  err_rate = λ n d. leb d (10 * n);
  contin_succ_limit = 3;
  contin_err_limit = 3;
  idle_timeout = 15;
  overload_timeout = 15;
  update_timeout = 15;
}

-- A host is asked for, the DNS service answers with one, and it is asked for again.
abbrev history : List Event
history =
    asks_host 10 0 (omega arith) (some (record { seq = 7; modid = 1; cmdid = 2 }))
    ∷ answers (λ i. 11)
        (some (record { modid = 1; cmdid = 2; host = record { ip = 9; port = 80 } ∷ [] }))
    ∷ asks_host 12 0 (omega arith) (some (record { seq = 8; modid = 1; cmdid = 2 }))
    ∷ []

abbrev sent : Option (Agent × List Message) → List Message
sent none = []
sent (some (a, out)) = out

history_answers :
    sent (run config history start_udp_server)
    ≡ host_response (record {
      seq = 7;
      modid = 1;
      cmdid = 2;
      retcode = noexist;
      host = record { ip = 0; port = 0 };
    })
      ∷ host_response (record {
        seq = 8;
        modid = 1;
        cmdid = 2;
        retcode = succ;
        host = record { ip = 9; port = 80 };
      })
      ∷ []
unfolding run step host_req_cb dns_res_cb get_host update_host first_pull refresh load_balance
    choice_one_host get_host_from_list update add_hosts add_host remote_hosts need_delete del_hosts
    host_info
history_answers = refl

run_start_example :
    (out : Agent × List Message) × (run config history start_udp_server ≡ some out)
    × IsRunning out.0
run_start_example = run_start config history
