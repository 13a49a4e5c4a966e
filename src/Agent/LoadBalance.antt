-- ===== src/Agent/LoadBalance.antt =====
-- ylars_lb_agent/include/load_balance.h and src/load_balance.cpp: the hosts of one module.
-- A host_info is an object that the map and one of the two lists share: `objects` is the store, and the
-- map and the lists hold references to it, compared as `list::remove` compares shared pointers.
-- A step into undefined behaviour (`front` of an empty list, a read of a field that is not set) is
-- `none`. `clock i` is the i-th reading of time(nullptr) within a call.
pub mod Store
pub mod Invariant
pub mod Hosts
pub mod Machine
pub mod Report
pub mod Choice
pub mod Update
pub mod Commit
mod Tests
use ylars.Base.{
  ℕ, zero, suc, ◌+◌, Bool, true, false, not, ◌&&◌, ◌||◌, List, [], ◌∷◌, ◌++◌, Option, none, some,
  map, leb, if◌then◌else◌, ◌>>=◌,
}
use ylars.Base.Ints.{int_suc, int_add, int_le}
use ylars.Base.Map
use ylars.Base.Map.{Map}
use ylars.Base.NatSet
use ylars.Base.NatSet.{NatSet}
use ylars.Base.Refs.{remove}
use ylars.Proto.{
  RetCode, succ, overloaded, noexist, HostAddr, GetRouteRequest, GetRouteResponse, HostCallResult,
  ReportStatusReq, GetHostResponse, pack,
}
use ylars.Agent.HostInfo.{LbConfig, HostInfo, host_info, set_overload, set_idle}

pub data Status : Type 0 where
  pulling new : Status

-- `status` and `last_update_ts` are `none` until they are first written.
pub record LoadBalance : Type 0 where
  pub modid : ℕ
  pub cmdid : ℕ
  pub status : Option Status
  pub last_update_ts : Option ℕ
  pub host_map : Map ℕ
  pub idle_list : List ℕ
  pub overload_list : List ℕ
  pub access_cnt : ℕ
  pub objects : Map HostInfo
  pub next_ref : ℕ

unfoldable pub load_balance : ℕ → ℕ → LoadBalance
load_balance modid cmdid = record {
  modid = modid;
  cmdid = cmdid;
  status = none;
  last_update_ts = none;
  host_map = [];
  idle_list = [];
  overload_list = [];
  access_cnt = 0;
  objects = [];
  next_ref = 0;
}

abbrev pub empty : LoadBalance → Bool
empty lb = Map.is_empty lb.host_map

-- The request goes to the queue of the DNS client.
unfoldable pub pull : LoadBalance → LoadBalance × GetRouteRequest
pull lb = (record lb { status = some pulling }, record { modid = lb.modid; cmdid = lb.cmdid })

abbrev pub is_nil {ℓ} : {A : Type ℓ} → List A → Bool
is_nil [] = true
is_nil (x ∷ xs) = false

-- The front host is answered and goes to the back.
unfoldable pub get_host_from_list :
    Map HostInfo → GetHostResponse → List ℕ → Option (GetHostResponse × List ℕ)
get_host_from_list objects res [] = none
get_host_from_list objects res (r ∷ rest) = Map.lookup r objects >>= λ host.
    some (record res { host = record { ip = host.ip; port = host.port } }, rest ++ (r ∷ []))

abbrev from_idle : GetHostResponse → LoadBalance → Option (RetCode × GetHostResponse × LoadBalance)
from_idle res lb = get_host_from_list lb.objects res lb.idle_list >>= λ (res', l).
    some (succ, res', record lb { idle_list = l })

abbrev from_overload :
    GetHostResponse → LoadBalance → Option (RetCode × GetHostResponse × LoadBalance)
from_overload res lb = get_host_from_list lb.objects res lb.overload_list >>= λ (res', l).
    some (succ, res', record lb { overload_list = l })

unfoldable pub choice_one_host :
    LbConfig → GetHostResponse → LoadBalance → Option (RetCode × GetHostResponse × LoadBalance)
choice_one_host c res lb =
    if empty lb
    then some (noexist, res, lb)
    else if is_nil lb.idle_list
    then (if leb c.probe_num lb.access_cnt
        then from_overload res (record lb { access_cnt = 0 })
        else some (overloaded, res, record lb { access_cnt = lb.access_cnt + 1 }))
    else if is_nil lb.overload_list
    then from_idle res lb
    else if leb c.probe_num lb.access_cnt
    then from_overload res (record lb { access_cnt = 0 })
    else from_idle res (record lb { access_cnt = lb.access_cnt + 1 })

-- What the references of a list lead to.
unfoldable pub deref : Map HostInfo → List ℕ → Option (List HostInfo)
deref objects [] = some []
deref objects (r ∷ rs) =
    let rest = deref objects rs in Map.lookup r objects >>= λ h. rest >>= λ hs. some (h ∷ hs)

unfoldable pub get_all_host : LoadBalance → Option (RetCode × List HostInfo)
get_all_host lb =
    if empty lb
    then some (noexist, [])
    else deref lb.objects (Map.values lb.host_map) >>= λ hosts. some (succ, hosts)

-- The counters of a host after one call of it; an int that overflows wraps around.
unfoldable pub count_call : Bool → HostInfo → HostInfo
count_call true h = record h {
  vsucc_cnt = int_suc h.vsucc_cnt;
  rsucc_cnt = int_suc h.rsucc_cnt;
  contin_succ = int_suc h.contin_succ;
  contin_err = 0;
}
count_call false h = record h {
  verr_cnt = int_suc h.verr_cnt;
  rerr_cnt = int_suc h.rerr_cnt;
  contin_err = int_suc h.contin_err;
  contin_succ = 0;
}

unfoldable pub fails_too_often : LbConfig → HostInfo → Bool
fails_too_often c h =
    c.err_rate h.verr_cnt (int_add h.vsucc_cnt h.verr_cnt) || int_le c.contin_err_limit h.contin_err

unfoldable pub succeeds_enough : LbConfig → HostInfo → Bool
succeeds_enough c h =
    c.succ_rate h.vsucc_cnt (int_add h.vsucc_cnt h.verr_cnt)
    || int_le c.contin_succ_limit h.contin_succ

-- A write to the object behind a reference.
abbrev pub store : ℕ → HostInfo → LoadBalance → LoadBalance
store r h lb = record lb { objects = Map.insert r h lb.objects }

unfoldable pub to_overload : LbConfig → ℕ → ℕ → HostInfo → LoadBalance → LoadBalance
to_overload c now r h lb = record lb {
  objects = Map.insert r (set_overload c now h) lb.objects;
  idle_list = remove r lb.idle_list;
  overload_list = lb.overload_list ++ (r ∷ []);
}

unfoldable pub to_idle : LbConfig → ℕ → ℕ → HostInfo → LoadBalance → LoadBalance
to_idle c now r h lb = record lb {
  objects = Map.insert r (set_idle c now h) lb.objects;
  overload_list = remove r lb.overload_list;
  idle_list = lb.idle_list ++ (r ∷ []);
}

-- The node's state changes hands: idle to overload on a failure, overload to idle on a success.
unfoldable pub switch_status : LbConfig → ℕ → Bool → ℕ → HostInfo → LoadBalance → LoadBalance
switch_status c now is_succ r h lb =
    if not h.overload && not is_succ
    then (if fails_too_often c h then to_overload c now r h lb else store r h lb)
    else if h.overload && is_succ
    then (if succeeds_enough c h then to_idle c now r h lb else store r h lb)
    else store r h lb

-- An overloaded host is taken back after its time, an idle one has its counts cleared.
unfoldable pub expire : LbConfig → ℕ → ℕ → ℕ → HostInfo → LoadBalance → Option LoadBalance
expire c curr_time now r h lb =
    if h.overload
    then (h.overload_ts >>= λ ts.
        some (if leb (ts + c.overload_timeout) curr_time then to_idle c now r h lb else lb))
    else some
        (if leb (h.idle_ts + c.idle_timeout) curr_time then store r (set_idle c now h) lb else lb)

abbrev report_ref : LbConfig → (ℕ → ℕ) → Bool → ℕ → LoadBalance → Option LoadBalance
report_ref c clock is_succ r lb = Map.lookup r lb.objects >>= λ h.
    let lb' = switch_status c (clock 1) is_succ r (count_call is_succ h) lb in
    Map.lookup r lb'.objects >>= λ h'. expire c (clock 0) (clock 2) r h' lb'

unfoldable pub report : LbConfig → (ℕ → ℕ) → ℕ → ℕ → Bool → LoadBalance → Option LoadBalance
report c clock ip port is_succ lb = elim (Map.lookup (pack ip port) lb.host_map) [
  | none ↦ some lb
  | some r ↦ report_ref c clock is_succ r lb
]

-- One host of the response: a new one gets an object and a place at the end of the idle list.
unfoldable pub add_host : LbConfig → ℕ → HostAddr → LoadBalance → LoadBalance
add_host c now host lb =
    if Map.contains (pack host.ip host.port) lb.host_map then lb else record lb {
      host_map = Map.insert (pack host.ip host.port) lb.next_ref lb.host_map;
      objects = Map.insert lb.next_ref (host_info host.ip host.port c.init_succ_cnt now) lb.objects;
      idle_list = lb.idle_list ++ (lb.next_ref ∷ []);
      next_ref = suc lb.next_ref;
    }

unfoldable pub add_hosts : LbConfig → (ℕ → ℕ) → List HostAddr → LoadBalance → LoadBalance
add_hosts c clock [] lb = lb
add_hosts c clock (host ∷ hosts) lb =
    add_hosts c (λ i. clock (i + 1)) hosts (add_host c (clock 0) host lb)

unfoldable pub remote_hosts : List HostAddr → NatSet → NatSet
remote_hosts [] s = s
remote_hosts (host ∷ hosts) s = remote_hosts hosts (NatSet.insert (pack host.ip host.port) s)

unfoldable pub need_delete : NatSet → Map ℕ → NatSet
need_delete remote [] = []
need_delete remote ((k, r) ∷ m) =
    if NatSet.contains k remote then need_delete remote m else k ∷ need_delete remote m

unfoldable pub del_host : ℕ → LoadBalance → Option LoadBalance
del_host key lb = Map.lookup key lb.host_map >>= λ r. Map.lookup r lb.objects >>= λ host. some (
    if host.overload
    then record lb {
      overload_list = remove r lb.overload_list;
      host_map = Map.erase key lb.host_map;
    }
    else record lb { idle_list = remove r lb.idle_list; host_map = Map.erase key lb.host_map })

unfoldable pub del_hosts : List ℕ → LoadBalance → Option LoadBalance
del_hosts [] lb = some lb
del_hosts (k ∷ ks) lb = del_host k lb >>= λ lb'. del_hosts ks lb'

unfoldable pub update : LbConfig → (ℕ → ℕ) → GetRouteResponse → LoadBalance → Option LoadBalance
update c clock res lb =
    let added =
      add_hosts c (λ i. clock (i + 1)) res.host (record lb { last_update_ts = some (clock 0) }) in
    del_hosts (need_delete (remote_hosts res.host []) added.host_map) added >>= λ lb'.
    some (record lb' { status = some new })

-- The lines of a report for the hosts of one list.
abbrev result_of : Bool → HostInfo → HostCallResult
result_of overload h = record {
  ip = h.ip;
  port = h.port;
  succ = h.rsucc_cnt;
  err = h.rerr_cnt;
  overload = overload;
}

-- What is put on the report queue: no request of an empty module.
unfoldable pub commit : ℕ → LoadBalance → Option (List ReportStatusReq)
commit now lb =
    if empty lb
    then some []
    else deref lb.objects lb.idle_list >>= λ idle. deref lb.objects lb.overload_list >>= λ loaded.
        some (
          record {
            modid = lb.modid;
            cmdid = lb.cmdid;
            caller = 123;
            result = map (result_of false) idle ++ map (result_of true) loaded;
            ts = now;
          }
          ∷ [])
