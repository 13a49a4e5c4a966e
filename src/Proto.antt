-- ===== src/Proto.antt =====
-- base/proto/ylars.proto: the messages as records of numbers, and the two enumerations. What protobuf
-- does to put them on the wire is a library's work, and no part of the model.
use ylars.Base.{ℕ, ◌+◌, ◌*◌, ◌^◌, ◌%◌, ◌<◌, ◌≡◌, Bool, List, arith}

-- MessageId, by its numbers.
abbrev pub id_get_route_request : ℕ
id_get_route_request = 1

abbrev pub id_get_route_response : ℕ
id_get_route_response = 2

abbrev pub id_report_status_request : ℕ
id_report_status_request = 3

abbrev pub id_get_host_request : ℕ
id_get_host_request = 4

abbrev pub id_get_host_response : ℕ
id_get_host_response = 5

abbrev pub id_report_request : ℕ
id_report_request = 6

-- LastRetCode.
pub data RetCode : Type 0 where
  succ overloaded system_error noexist : RetCode

-- HostInfo.
pub record HostAddr : Type 0 where
  pub ip : ℕ
  pub port : ℕ

pub record GetRouteRequest : Type 0 where
  pub modid : ℕ
  pub cmdid : ℕ

pub record GetRouteResponse : Type 0 where
  pub modid : ℕ
  pub cmdid : ℕ
  pub host : List HostAddr

pub record HostCallResult : Type 0 where
  pub ip : ℕ
  pub port : ℕ
  pub succ : ℕ
  pub err : ℕ
  pub overload : Bool

pub record ReportStatusReq : Type 0 where
  pub modid : ℕ
  pub cmdid : ℕ
  pub caller : ℕ
  pub result : List HostCallResult
  pub ts : ℕ

pub record GetHostRequest : Type 0 where
  pub seq : ℕ
  pub modid : ℕ
  pub cmdid : ℕ

pub record GetHostResponse : Type 0 where
  pub seq : ℕ
  pub modid : ℕ
  pub cmdid : ℕ
  pub retcode : RetCode
  pub host : HostAddr

pub record ReportRequest : Type 0 where
  pub modid : ℕ
  pub cmdid : ℕ
  pub host : HostAddr
  pub is_succ : Bool

-- ((uint64_t)hi << 32) + lo, the key under which the program files a module or a host.
abbrev pub pack : ℕ → ℕ → ℕ
pack hi lo = (hi * 2 ^ 32 + lo) % 2 ^ 64

-- Two pairs of 32-bit numbers with one key are one pair.
pub pack_injective :
    (a b c d : ℕ)
    → a < 2 ^ 32
    → b < 2 ^ 32
    → c < 2 ^ 32
    → d < 2 ^ 32
    → pack a b ≡ pack c d
    → (a ≡ c) × (b ≡ d)
pack_injective a b c d ha hb hc hd e = (omega arith, omega arith)
