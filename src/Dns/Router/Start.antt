-- ===== src/Dns/Router/Start.antt =====
-- The constructor of Router and connection2db in ylars_dns/src/dns_router.cpp: the settings of the
-- connection, and the first reading of the table. Whether mysql_init and mysql_real_connect succeed is
-- an argument; where they do not, the process ends, `none`.
use ylars.Base.{
  All, ◌/◌, ◌%◌, ◌^◌, ◌<◌, ℕ, ◌≤◌, ◌≡◌, refl, Bool, true, [], List, Option, none, some,
  if◌then◌else◌, ◌>>=◌,
}
use ylars.Base.NatSet
use ylars.Reactor.ConfigFile.{Text, Sections, codes, get_value, get_string}
use ylars.Reactor.ConfigFile.Getters.{get_number, parse_number}
use ylars.Dns.Router.{Router, RouteRow, Query, stored, build_map, get_hosts, swap}
use ylars.Dns.Router.Tables.{has_host, IsRow, reload-has_host}

pub record Account : Type 0 where
  pub ip : Text
  pub port : ℕ
  pub user : Text
  pub passwd : Text
  pub db_name : Text

unfoldable pub account : Sections → Account
account config = record {
  ip = get_string (codes "mysql") (codes "db_ip") (codes "0.0.0.0") config;
  port = get_number (codes "mysql") (codes "db_port") 3306 config;
  user = get_string (codes "mysql") (codes "db_user") (codes "root") config;
  passwd = get_string (codes "mysql") (codes "db_passwd") [] config;
  db_name = get_string (codes "mysql") (codes "db_name") (codes "ylars_dns") config;
}

-- The account that the router is connected with.
unfoldable pub connection2db : Sections → Bool → (Account → Bool) → Option Account
connection2db config mysql_init mysql_real_connect =
    if mysql_init
    then (if mysql_real_connect (account config) then some (account config) else none)
    else none

unfoldable pub router : Sections → Bool → (Account → Bool) → Query RouteRow → Option Router
router config mysql_init mysql_real_connect q =
    connection2db config mysql_init mysql_real_connect >>= λ _.
    some (build_map true q (record { data_pointer = []; temp_pointer = []; version = 0 }))

account_lem :
    (config : Sections) (ip port user passwd db_name : Text)
    → get_value (codes "mysql") (codes "db_ip") config ≡ some ip
    → get_value (codes "mysql") (codes "db_port") config ≡ some port
    → get_value (codes "mysql") (codes "db_user") config ≡ some user
    → get_value (codes "mysql") (codes "db_passwd") config ≡ some passwd
    → get_value (codes "mysql") (codes "db_name") config ≡ some db_name
    → account config ≡ record {
      ip = ip;
      port = parse_number port;
      user = user;
      passwd = passwd;
      db_name = db_name;
    }
unfolding account get_string get_number
account_lem config ip port user passwd db_name i p u w n = rw (i, get_number, p, u, w, n)

-- Where the settings have an address, a port, a user, a password and a name for the database, and a
-- connection with these five succeeds and yields a table of five columns or more: the router starts, and
-- without a swap a module has exactly the addresses and ports of the rows with its two numbers. The
-- columns and the two numbers are 32-bit numbers, and no port of a row is negative as an int.
pub router-get_hosts :
    (config : Sections) (ip port user passwd db_name : Text) (mysql_real_connect : Account → Bool)
    (modid cmdid cols : ℕ) (rows : List RouteRow)
    → get_value (codes "mysql") (codes "db_ip") config ≡ some ip
    → get_value (codes "mysql") (codes "db_port") config ≡ some port
    → get_value (codes "mysql") (codes "db_user") config ≡ some user
    → get_value (codes "mysql") (codes "db_passwd") config ≡ some passwd
    → get_value (codes "mysql") (codes "db_name") config ≡ some db_name
    → mysql_real_connect (record {
      ip = ip;
      port = parse_number port;
      user = user;
      passwd = passwd;
      db_name = db_name;
    })
      ≡ true
    → 5 ≤ cols
    → All IsRow rows
    → modid < 2 ^ 32
    → cmdid < 2 ^ 32
    → (r : Router) × (router config true mysql_real_connect (stored cols rows) ≡ some r)
      × ((k : ℕ)
          → NatSet.contains k (get_hosts modid cmdid r)
            ≡ has_host modid cmdid (k / 2 ^ 32) (k % 2 ^ 32) rows)
unfolding router connection2db build_map swap get_hosts
router-get_hosts config ip port user passwd db_name mysql_real_connect modid cmdid cols rows i p u w
      n connected full valid hm hc =
    let none_yet : Router = record { data_pointer = []; temp_pointer = []; version = 0 } in
    (
      build_map true (stored cols rows) none_yet,
      rw (account_lem config ip port user passwd db_name i p u w n, connected) refl,
      λ k. reload-has_host modid cmdid k cols rows none_yet full valid hm hc,
    )
