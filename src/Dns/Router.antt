-- ===== src/Dns/Router.antt =====
-- ylars_dns/include/dns_router.h and src/dns_router.cpp, class Router, and the loop of
-- src/subscribe.cpp that feeds it. The database is outside: what a query yields is an argument. An `int`
-- is the 32 bits that stand for it; atoi is the C library's, and a row holds what it yields.
pub mod Keys
pub mod Tables
pub mod Changes
pub mod Start
mod Tests
use ylars.Base.{
  ℕ, ◌+◌, ◌*◌, ◌%◌, ◌^◌, ◌-◌, Bool, true, false, not, ◌&&◌, List, [], ◌∷◌, ◌++◌, Option, none, some,
  map, ltb, leb, if◌then◌else◌, get_or_else,
}
use ylars.Base.Map
use ylars.Base.Map.{Map}
use ylars.Base.NatSet
use ylars.Base.NatSet.{NatSet}
use ylars.Proto.{pack}
use ylars.Dns.Subscribe.{SubscribeList, at, publish}

-- An `int` that is made a uint64_t keeps its sign.
abbrev pub sign_extend : ℕ → ℕ
sign_extend n = if ltb n (2 ^ 31) then n else n + (2 ^ 64 - 2 ^ 32)

-- ((uint64_t)modId << 32) + cmdId over two ints.
unfoldable pub int_key : ℕ → ℕ → ℕ
int_key modid cmdid = (sign_extend modid * 2 ^ 32 + sign_extend cmdid) % 2 ^ 64

-- ((uint64_t)ip << 32) + port, where only the port is an int.
unfoldable pub host_key : ℕ → ℕ → ℕ
host_key ip port = (ip * 2 ^ 32 + sign_extend port) % 2 ^ 64

-- A row of RouteData.
pub record RouteRow : Type 0 where
  pub modid : ℕ
  pub cmdid : ℕ
  pub ip : ℕ
  pub port : ℕ

-- mysql_real_query fails, mysql_store_result gives no result, or there are fields and rows.
pub data Query (A : Type 0) : Type 0 where
  query_error no_result : Query A
  stored : ℕ → List A → Query A

pub record Router : Type 0 where
  pub data_pointer : Map NatSet
  pub temp_pointer : Map NatSet
  pub version : ℕ

unfoldable pub insert_rows : List RouteRow → Map NatSet → Map NatSet
insert_rows [] m = m
insert_rows (row ∷ rows) m = insert_rows rows (
    Map.insert (int_key row.modid row.cmdid)
      (NatSet.insert (host_key row.ip row.port) (at (int_key row.modid row.cmdid) m)) m)

-- What the table that build_map clears and fills ends as.
unfoldable pub built : Query RouteRow → Map NatSet
built query_error = []
built no_result = []
built (stored cols rows) = if leb 5 cols then insert_rows rows [] else []

unfoldable pub build_map : Bool → Query RouteRow → Router → Router
unfolding built
build_map is_init q r =
    if is_init then record r { data_pointer = built q } else record r { temp_pointer = built q }

abbrev pub load_route_data : Query RouteRow → Router → Router
load_route_data = build_map false

unfoldable pub get_hosts : ℕ → ℕ → Router → NatSet
get_hosts mod_id cmd_id r = at (int_key mod_id cmd_id) r.data_pointer

unfoldable pub swap : Router → Router
swap r = record r { data_pointer = r.temp_pointer; temp_pointer = r.data_pointer }

-- The results 1, 0 and -1 of check_version.
pub data Check : Type 0 where
  changed unchanged failed : Check

-- The new version is an int, and is compared as one.
unfoldable pub check_version : Query ℕ → Router → Router × Check
check_version query_error r = (r, failed)
check_version no_result r = (r, failed)
check_version (stored cols []) r = (r, unchanged)
check_version (stored cols (new_version ∷ rows)) r =
    if ltb new_version (2 ^ 31) && ltb r.version new_version
    then (record r { version = new_version }, changed)
    else (r, unchanged)

-- Whether a set has an element that another lacks.
unfoldable pub loses_host : NatSet → NatSet → Bool
loses_host [] now = false
loses_host (h ∷ before) now = if NatSet.contains h now then loses_host before now else true

-- The modules of the old table that are gone, or have lost a host.
unfoldable pub deleted_mods : Map NatSet → Map NatSet → List ℕ
unfolding loses_host
deleted_mods data' [] = []
deleted_mods data' ((k, hosts) ∷ temp) =
    if Map.contains k data'
    then (if loses_host hosts (at k data')
        then k ∷ deleted_mods data' temp
        else deleted_mods data' temp)
    else k ∷ deleted_mods data' temp

-- A row of RouteChange is a pair of uint32_t.
unfoldable pub load_change_mod : Query (ℕ × ℕ) → Router → List ℕ → List ℕ
unfolding deleted_mods
load_change_mod query_error r mods = mods
load_change_mod no_result r mods = mods
load_change_mod (stored cols rows) r mods =
    (mods ++ map (λ row. pack (row.0) (row.1)) rows) ++ deleted_mods r.data_pointer r.temp_pointer

-- delete from RouteChange where version <= ...
pub data Statement : Type 0 where
  delete_changes : ℕ → Statement

abbrev pub drop_synchronous_mod : Router → Statement
drop_synchronous_mod r = delete_changes r.version

pub record Service : Type 0 where
  pub router : Router
  pub subscribers : SubscribeList

-- What the database yields to the queries of one round.
pub record Answers : Type 0 where
  pub version : Query ℕ
  pub routes : Query RouteRow
  pub changes : Query (ℕ × ℕ)

-- The round of changet_publish on a result of check_version; `none` is the break.
unfoldable pub act_on : Check → ℕ → ℕ → Answers → Service → Option (Service × List Statement)
act_on changed start_time curr_time ans s =
    let loaded = swap (load_route_data ans.routes s.router) in
    let mods = load_change_mod ans.changes loaded [] in
    some (
      record { router = loaded; subscribers = publish mods s.subscribers },
      drop_synchronous_mod loaded ∷ [],
    )
act_on unchanged start_time curr_time ans s = some (
  (if ltb (start_time + 10) curr_time
      then record s { router = swap (load_route_data ans.routes s.router) }
      else s),
  [],
)
act_on failed start_time curr_time ans s = none

-- One round of changet_publish, after its sleep. `start_time` is set before the loop, and never again.
unfoldable pub changet_publish : ℕ → ℕ → Answers → Service → Option (Service × List Statement)
unfolding act_on
changet_publish start_time curr_time ans s =
    let (router, ret) = check_version ans.version s.router in
    act_on ret start_time curr_time ans (record s { router = router })
