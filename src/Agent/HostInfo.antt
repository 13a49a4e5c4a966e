-- ===== src/Agent/HostInfo.antt =====
-- ylars_lb_agent/include/host_info.h, src/host_info.cpp and the configuration of agent_main.h.
-- A count is an int, the 32 bits that stand for it. Times are unbounded numbers, and the readings of
-- time(nullptr) are arguments.
use ylars.Base.{ℕ, Bool, true, false, Option, none, some}

-- A float that a success or failure rate is compared with, seen as that comparison: the test of
-- `n * 1.0 / d >= limit` at the counts `n` and `d`.
abbrev pub Threshold : Type 0
Threshold = ℕ → ℕ → Bool

-- load_balance_config. The two initial counts and the two limits of consecutive calls are the 32 bits of an
-- int. A negative probe_num is 0, which _access_cnt compares with alike; the timeouts are not negative.
pub record LbConfig : Type 0 where
  pub probe_num : ℕ
  pub init_succ_cnt : ℕ
  pub init_err_cnt : ℕ
  pub succ_rate : Threshold
  pub err_rate : Threshold
  pub contin_succ_limit : ℕ
  pub contin_err_limit : ℕ
  pub idle_timeout : ℕ
  pub overload_timeout : ℕ
  pub update_timeout : ℕ

-- `overload_ts` is `none` until set_overload first writes it: the constructor leaves it alone.
pub record HostInfo : Type 0 where
  pub ip : ℕ
  pub port : ℕ
  pub vsucc_cnt : ℕ
  pub rsucc_cnt : ℕ
  pub contin_succ : ℕ
  pub verr_cnt : ℕ
  pub rerr_cnt : ℕ
  pub contin_err : ℕ
  pub overload : Bool
  pub idle_ts : ℕ
  pub overload_ts : Option ℕ

-- The constructor.
unfoldable pub host_info : ℕ → ℕ → ℕ → ℕ → HostInfo
host_info p_ip p_port init_succ now = record {
  ip = p_ip;
  port = p_port;
  vsucc_cnt = init_succ;
  rsucc_cnt = 0;
  contin_succ = 0;
  verr_cnt = 0;
  rerr_cnt = 0;
  contin_err = 0;
  overload = false;
  idle_ts = now;
  overload_ts = none;
}

unfoldable pub set_overload : LbConfig → ℕ → HostInfo → HostInfo
set_overload c now h = record h {
  vsucc_cnt = 0;
  verr_cnt = c.init_err_cnt;
  rsucc_cnt = 0;
  rerr_cnt = 0;
  contin_succ = 0;
  contin_err = 0;
  overload = true;
  overload_ts = some now;
}

unfoldable pub set_idle : LbConfig → ℕ → HostInfo → HostInfo
set_idle c now h = record h {
  vsucc_cnt = c.init_succ_cnt;
  verr_cnt = 0;
  rsucc_cnt = 0;
  rerr_cnt = 0;
  contin_succ = 0;
  contin_err = 0;
  overload = false;
  idle_ts = now;
}
