-- ===== src/Agent/Pulls.antt =====
-- An answer of the DNS service, get_req of ylars_dns/src/dns_service.cpp, at the agent that asked,
-- dns_res_cb of ylars_lb_agent/src/agent_dns_client.cpp: the hosts of a module on their way from the
-- database to the agent.
mod Tests
use ylars.Base.{
  All, ℕ, ◌+◌, ◌*◌, ◌/◌, ◌%◌, ◌^◌, ◌≤◌, ◌<◌, ◌≡◌, refl, sym, ap, ◌∙◌, Bool, true, false, ◌||◌, List,
  [], ◌∷◌, Option, none, some, map, arith, ◌==◌, if◌then◌else◌, get_elem?, set, get_elem?-set_self,
  Bool-cases, inl, inr,
}
use ylars.Base.Map
use ylars.Base.Map.{Map, lookup-insert, lookup-insert_self}
use ylars.Base.NatSet
use ylars.Base.NatSet.{NatSet, Below, insert-Below}
use ylars.Proto.{HostAddr, GetRouteRequest, GetRouteResponse, pack}
use ylars.Dns.Subscribe.{at}
use ylars.Dns.Router.{
  Router, RouteRow, stored, int_key, host_key, insert_rows, build_map, load_route_data, get_hosts,
  swap,
}
use ylars.Dns.Router.Tables.{has_host, IsRow, reload-has_host}
use ylars.Dns.Service.{Dns, unpack, route_of, get_req}
use ylars.Agent.HostInfo.{LbConfig}
use ylars.Agent.LoadBalance.{LoadBalance, new, is_nil}
use ylars.Agent.LoadBalance.Invariant.{IsWf}
use ylars.Agent.LoadBalance.Update.{Updated, update-Updated}
use ylars.Agent.LoadBalance.Update.Joining.{listed}
use ylars.Agent.RouteLb.{RouteLb, update_host}
use ylars.Agent.Server.{Agent, Message, route_index, dns_res_cb}

-- The keys of hosts are 64-bit numbers, so that a host is its key taken apart.
insert_rows-Below :
    (key : ℕ) (rows : List RouteRow) (m : Map NatSet)
    → Below (2 ^ 64) (at key m)
    → Below (2 ^ 64) (at key (insert_rows rows m))
unfolding insert_rows host_key
insert_rows-Below key [] m b = b
insert_rows-Below key (row ∷ rows) m b =
    let k = int_key row.modid row.cmdid in
    let host = host_key row.ip row.port in
    insert_rows-Below key rows (Map.insert k (NatSet.insert host (at k m)) m) (
      ground (
        arith,
        lookup-insert key k (NatSet.insert host (at k m)) m,
        insert-Below (2 ^ 64) host (at k m),
      ))

listed-unpack :
    (k : ℕ) (s : List ℕ) → Below (2 ^ 64) s → listed k (map unpack s) ≡ NatSet.contains k s
unfolding listed
listed-unpack k [] b = refl
listed-unpack k (x ∷ s) b =
    let whole : pack (x / 2 ^ 32) (x % 2 ^ 32) ≡ x = omega (arith, b.0) in
    rw (whole, listed-unpack k s b.1)

is_nil-contains : (k : ℕ) (s : List ℕ) → NatSet.contains k s ≡ true → is_nil (map unpack s) ≡ false
is_nil-contains k [] e = ground arith
is_nil-contains k (x ∷ s) e = refl

-- What the service answers after it has read the table of routes.
abbrev pub reply : ℕ → ℕ → ℕ → ℕ → List RouteRow → Dns → GetRouteResponse
reply fd modid cmdid cols rows d =
    (get_req fd (record { modid = modid; cmdid = cmdid })
      (record d { router = swap (load_route_data (stored cols rows) d.router) })).1

-- What has become of the module of an answer at the agent.
pub record Pulled (modid cmdid : ℕ) (rows : List RouteRow) (a : Agent) : Type 0 where
  pub route_lb : RouteLb
  pub load_balance : LoadBalance
  pub served : get_elem? a.agent_routes (route_index modid cmdid) ≡ some route_lb
  pub filed : Map.lookup (pack modid cmdid) route_lb.route_map ≡ some load_balance
  pub wf : IsWf load_balance
  pub status : load_balance.status ≡ some new
  -- Its hosts are those of its rows: a key is an address above 32 bits of a port.
  pub hosts :
      (k : ℕ)
      → Map.contains k load_balance.host_map ≡ has_host modid cmdid (k / 2 ^ 32) (k % 2 ^ 32) rows

-- A module that an agent keeps, well formed, for which the service has read a table of five columns or
-- more with at least one row of it: what the service answers takes the agent, without a fault, to a state
-- where exactly the addresses and ports in the rows with its two numbers are the hosts of the module,
-- which is well formed and no longer pending. The columns and the two numbers are 32-bit numbers, and no
-- port of a row is negative as an int.
pub dns_res_cb-reply :
    (c : LbConfig) (clock : ℕ → ℕ) (fd modid cmdid cols host : ℕ) (rows : List RouteRow) (d : Dns)
    (a : Agent) (rl : RouteLb) (lb : LoadBalance)
    → 5 ≤ cols
    → All IsRow rows
    → modid < 2 ^ 32
    → cmdid < 2 ^ 32
    → has_host modid cmdid (host / 2 ^ 32) (host % 2 ^ 32) rows ≡ true
    → get_elem? a.agent_routes (route_index modid cmdid) ≡ some rl
    → Map.lookup (pack modid cmdid) rl.route_map ≡ some lb
    → IsWf lb
    → (a' : Agent) × (dns_res_cb c clock (some (reply fd modid cmdid cols rows d)) a
        ≡ some (a', []))
      × Pulled modid cmdid rows a'
unfolding dns_res_cb update_host get_req route_of get_hosts swap build_map
dns_res_cb-reply c clock fd modid cmdid cols host rows d a rl lb full valid hm hc here served filed
      w =
    let res = reply fd modid cmdid cols rows d in
    let keys = get_hosts modid cmdid (swap (load_route_data (stored cols rows) d.router)) in
    let some_host =
      is_nil-contains host keys
        (reload-has_host modid cmdid host cols rows d.router full valid hm hc ∙ here) in
    let (lb', ran, u) = update-Updated c clock res lb w in
    let rl' = record rl { route_map = Map.insert (pack modid cmdid) lb' rl.route_map } in
    let b : Below (2 ^ 64) keys =
      ground (arith, insert_rows-Below (int_key modid cmdid) rows [] tt) in
    (
      record a { agent_routes = set a.agent_routes (route_index modid cmdid) rl' },
      rw (served, update_host, filed, some_host, ran),
      record {
        route_lb = rl';
        load_balance = lb';
        served = get_elem?-set_self a.agent_routes (route_index modid cmdid) rl' served;
        filed = lookup-insert_self (pack modid cmdid) lb' rl.route_map;
        wf = u.wf;
        status = u.status;
        hosts = λ k.
            u.hosts k
            ∙ listed-unpack k keys b
            ∙ reload-has_host modid cmdid k cols rows d.router full valid hm hc;
      },
    )
