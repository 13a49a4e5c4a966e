-- ===== src/Agent/Pulls/Tests.antt =====
-- An agent that has asked for module (1, 2), and a table with two rows for it.
use ylars.Base.{All, ◌/◌, ◌%◌, ◌^◌, ℕ, ◌≡◌, refl, true, List, [], ◌∷◌, some, arith, leb, ◌*◌}
use ylars.Proto.{pack}
use ylars.Dns.Router.{RouteRow}
use ylars.Dns.Router.Tables.{has_host, IsRow}
use ylars.Dns.Service.{Dns}
use ylars.Agent.HostInfo.{LbConfig}
use ylars.Agent.LoadBalance.{load_balance}
use ylars.Agent.LoadBalance.Invariant.{load_balance-IsWf}
use ylars.Agent.Server.{Agent, start_udp_server, dns_res_cb}
use ylars.Agent.Pulls.{reply, Pulled, dns_res_cb-reply}

abbrev rows : List RouteRow
rows =
    record { modid = 1; cmdid = 2; ip = 9; port = 80 }
    ∷ record { modid = 1; cmdid = 3; ip = 7; port = 70 }
    ∷ record { modid = 1; cmdid = 2; ip = 8; port = 81 }
    ∷ []

abbrev dns : Dns
dns = record {
  router = record { data_pointer = []; temp_pointer = []; version = 0 };
  subscribers = record { book_list = []; push_list = [] };
  param = (6, []) ∷ [];
}

abbrev agent : Agent
agent = record start_udp_server {
  agent_routes =
      record { route_map = (pack 1 2, load_balance 1 2) ∷ [] }
      ∷ record { route_map = [] }
      ∷ record { route_map = [] }
      ∷ [];
}

abbrev config : LbConfig
config = record {
  probe_num = 2;
  init_succ_cnt = 10;
  init_err_cnt = 5;
  succ_rate = λ n d. leb (9 * d) (10 * n);
  err_rate = λ n d. leb d (10 * n);
  contin_succ_limit = 3;
  contin_err_limit = 3;
  idle_timeout = 15;
  overload_timeout = 15;
  update_timeout = 15;
}

abbrev steady : ℕ → ℕ
steady i = 10

rows-IsRow : All IsRow rows
rows-IsRow = ground arith

is_there : has_host 1 2 (pack 8 81 / 2 ^ 32) (pack 8 81 % 2 ^ 32) rows ≡ true
unfolding has_host
is_there = refl

dns_res_cb-reply_example :
    (a' : Agent) × (dns_res_cb config steady (some (reply 6 1 2 5 rows dns)) agent ≡ some (a', []))
    × Pulled 1 2 rows a'
dns_res_cb-reply_example =
    dns_res_cb-reply config steady 6 1 2 5 (pack 8 81) rows dns agent
      (record { route_map = (pack 1 2, load_balance 1 2) ∷ [] }) (load_balance 1 2) (omega arith)
      rows-IsRow (omega arith) (omega arith) is_there refl refl (load_balance-IsWf 1 2)
