-- ===== src/Dns/Service.antt =====
-- ylars_dns/src/dns_service.cpp, and publish_change_task of src/subscribe.cpp: what the service does for
-- its connections. `param` is the set that a connection carries (`none` is nullptr), by descriptor.
pub mod Books
mod Tests
use ylars.Base.{
  ℕ, ◌+◌, ◌/◌, ◌%◌, ◌^◌, Bool, true, false, List, [], ◌∷◌, ◌++◌, Option, none, some, map,
  if◌then◌else◌, ◌>>=◌,
}
use ylars.Base.Map
use ylars.Base.Map.{Map}
use ylars.Base.NatSet
use ylars.Base.NatSet.{NatSet}
use ylars.Proto.{HostAddr, GetRouteRequest, GetRouteResponse, pack}
use ylars.Dns.Subscribe.{SubscribeList, subscribe, unsubscribe, make_publish_map}
use ylars.Dns.Router.{Router, get_hosts}

pub record Dns : Type 0 where
  pub router : Router
  pub subscribers : SubscribeList
  pub param : Map NatSet

unfoldable pub create_subscribe : ℕ → Dns → Dns
create_subscribe fd d = record d { param = Map.insert fd [] d.param }

unfoldable pub unsubscribe_all : ℕ → List ℕ → SubscribeList → SubscribeList
unsubscribe_all fd [] s = s
unsubscribe_all fd (m ∷ mods) s = unsubscribe_all fd mods (unsubscribe m fd s)

-- The set is read before it is compared with nullptr.
unfoldable pub clean_subscribe : ℕ → Dns → Option Dns
unfolding unsubscribe_all
clean_subscribe fd d = Map.lookup fd d.param >>= λ mod_set. some (record d {
  subscribers = unsubscribe_all fd mod_set d.subscribers;
  param = Map.erase fd d.param;
})

-- A host key taken apart again.
abbrev pub unpack : ℕ → HostAddr
unpack host = record { ip = host / 2 ^ 32; port = host % 2 ^ 32 }

unfoldable pub route_of : ℕ → ℕ → Router → GetRouteResponse
route_of modid cmdid r = record {
  modid = modid;
  cmdid = cmdid;
  host = map unpack (get_hosts modid cmdid r);
}

-- A first request for a module subscribes the connection to it.
unfoldable pub note_request : ℕ → ℕ → Dns → Dns
note_request fd m d = elim (Map.lookup fd d.param) [
  | none ↦ d
  | some mod_set ↦ if NatSet.contains m mod_set then d else record d {
    param = Map.insert fd (NatSet.insert m mod_set) d.param;
    subscribers = subscribe m fd d.subscribers;
  }
]

unfoldable pub get_req : ℕ → GetRouteRequest → Dns → Dns × GetRouteResponse
unfolding note_request route_of
get_req fd req d =
    (note_request fd (pack req.modid req.cmdid) d, route_of req.modid req.cmdid d.router)

-- The messages for one descriptor, if it is a connection of the server. The null entry that conns[fd] leaves in
-- the server's table for another descriptor is not modelled.
abbrev pub publish_mods : Router → List ℕ → List GetRouteResponse
publish_mods r = map (λ m. route_of (m / 2 ^ 32) (m % 2 ^ 32) r)

unfoldable pub publish_to : NatSet → Router → Map NatSet → List (ℕ × GetRouteResponse)
publish_to conns r [] = []
publish_to conns r ((fd, mods) ∷ tasks) =
    (if NatSet.contains fd conns then map (λ m. (fd, m)) (publish_mods r mods) else [])
    ++ publish_to conns r tasks

-- `fds` are the descriptors of the thread's loop, `conns` the connections of the server.
unfoldable pub publish_change_task : NatSet → NatSet → Dns → Dns × List (ℕ × GetRouteResponse)
unfolding publish_to
publish_change_task fds conns d =
    let (s, need_publish) = make_publish_map fds d.subscribers in
    (record d { subscribers = s }, publish_to conns d.router need_publish)
