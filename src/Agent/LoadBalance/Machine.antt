-- ===== src/Agent/LoadBalance/Machine.antt =====
-- What load_balance::report means for one host, over numbers without a bound: what a call counts, whether
-- the counts turn the host over, and when its time is up.
use ylars.Base.{
  ℕ, suc, ◌+◌, ◌^◌, ◌<◌, ◌≡◌, Bool, true, false, not, ◌&&◌, ◌||◌, some, arith, leb, if◌then◌else◌,
  get_or_else,
}
use ylars.Base.Ints.{int_suc, int_add, int_le}
use ylars.Agent.HostInfo.{LbConfig, HostInfo, set_overload, set_idle}
use ylars.Agent.LoadBalance.{count_call, fails_too_often, succeeds_enough}
use ylars.Agent.LoadBalance.Hosts.{switch_host, expire_host, host_step}

-- A success ends a row of failures, and a failure a row of successes.
unfoldable pub called : Bool → HostInfo → HostInfo
called is_succ h = record h {
  vsucc_cnt = if is_succ then suc h.vsucc_cnt else h.vsucc_cnt;
  rsucc_cnt = if is_succ then suc h.rsucc_cnt else h.rsucc_cnt;
  contin_succ = if is_succ then suc h.contin_succ else 0;
  verr_cnt = if is_succ then h.verr_cnt else suc h.verr_cnt;
  rerr_cnt = if is_succ then h.rerr_cnt else suc h.rerr_cnt;
  contin_err = if is_succ then 0 else suc h.contin_err;
}

-- The counts of a host that starts anew, with so many successes and errors before its first call.
unfoldable pub anew : ℕ → ℕ → HostInfo → HostInfo
anew succ err h = record h {
  vsucc_cnt = succ;
  rsucc_cnt = 0;
  contin_succ = 0;
  verr_cnt = err;
  rerr_cnt = 0;
  contin_err = 0;
}

-- A host that is not overloaded becomes so by a failure, if the rate of errors or the row of failures
-- has reached its limit; an overloaded one is well again by a success, likewise.
unfoldable pub turned : LbConfig → ℕ → Bool → HostInfo → HostInfo
turned c now true h =
    if h.overload
      && (c.succ_rate h.vsucc_cnt (h.vsucc_cnt + h.verr_cnt)
          || leb c.contin_succ_limit h.contin_succ)
    then record (anew c.init_succ_cnt 0 h) { overload = false; idle_ts = now }
    else h
turned c now false h =
    if not h.overload
      && (c.err_rate h.verr_cnt (h.vsucc_cnt + h.verr_cnt) || leb c.contin_err_limit h.contin_err)
    then record (anew 0 c.init_err_cnt h) { overload = true; overload_ts = some now }
    else h

-- When the time of a host is up.
abbrev pub due : LbConfig → HostInfo → ℕ
due c h =
    if h.overload
    then get_or_else h.overload_ts 0 + c.overload_timeout
    else h.idle_ts + c.idle_timeout

-- A host whose time is up starts anew, and is not overloaded.
unfoldable pub renewed : LbConfig → ℕ → ℕ → HostInfo → HostInfo
renewed c curr_time now h =
    if leb (due c h) curr_time
    then record (anew c.init_succ_cnt 0 h) { overload = false; idle_ts = now }
    else h

unfoldable pub after_call : LbConfig → (ℕ → ℕ) → Bool → HostInfo → HostInfo
after_call c clock is_succ h =
    renewed c (clock 0) (clock 2) (turned c (clock 1) is_succ (called is_succ h))

-- No count of a host is at its end, and neither limit is negative.
abbrev pub IsCounting : LbConfig → HostInfo → Type 0
IsCounting c h =
    (suc (h.vsucc_cnt + h.verr_cnt) < 2 ^ 31)
    × (suc h.rsucc_cnt < 2 ^ 31)
    × (suc h.rerr_cnt < 2 ^ 31)
    × (suc h.contin_succ < 2 ^ 31)
    × (suc h.contin_err < 2 ^ 31)
    × (c.contin_succ_limit < 2 ^ 31)
    × (c.contin_err_limit < 2 ^ 31)

int_le-leb : (a b : ℕ) → a < 2 ^ 31 → b < 2 ^ 31 → int_le a b ≡ leb a b
int_le-leb a b ha hb = ground arith

int_suc_lem : (a : ℕ) → suc a < 2 ^ 31 → int_suc a ≡ suc a
int_suc_lem a h = omega arith

int_add_lem : (a b : ℕ) → a + b < 2 ^ 31 → int_add a b ≡ a + b
int_add_lem a b h = omega arith

expire_host-renewed :
    (c : LbConfig) (curr_time now : ℕ) (h : HostInfo)
    → expire_host c curr_time now h ≡ renewed c curr_time now h
unfolding expire_host renewed set_idle anew
expire_host-renewed c curr_time now h = ground arith

count_call-called :
    (c : LbConfig) (b : Bool) (h : HostInfo) → IsCounting c h → count_call b h ≡ called b h
unfolding count_call called
count_call-called c true h w = rw (
  int_suc_lem h.vsucc_cnt (omega (arith, w.0)),
  int_suc_lem h.rsucc_cnt w.1,
  int_suc_lem h.contin_succ w.3,
)
count_call-called c false h w = rw (
  int_suc_lem h.verr_cnt (omega (arith, w.0)),
  int_suc_lem h.rerr_cnt w.2,
  int_suc_lem h.contin_err w.4,
)

-- What `turned` needs of the counts.
switch_host-turned :
    (c : LbConfig) (now : ℕ) (b : Bool) (h : HostInfo)
    → h.vsucc_cnt + h.verr_cnt < 2 ^ 31
    → h.contin_succ < 2 ^ 31
    → h.contin_err < 2 ^ 31
    → c.contin_succ_limit < 2 ^ 31
    → c.contin_err_limit < 2 ^ 31
    → switch_host c now b h ≡ turned c now b h
unfolding switch_host turned set_idle set_overload anew fails_too_often succeeds_enough
switch_host-turned c now b h s cs ce ls le =
    rw
      (
        int_add_lem h.vsucc_cnt h.verr_cnt s,
        int_le-leb c.contin_err_limit h.contin_err le ce,
        int_le-leb c.contin_succ_limit h.contin_succ ls cs,
      )
      (ground arith)

called-counts :
    (c : LbConfig) (b : Bool) (h : HostInfo)
    → IsCounting c h
    → ((called b h).vsucc_cnt + (called b h).verr_cnt < 2 ^ 31)
      × ((called b h).contin_succ < 2 ^ 31)
      × ((called b h).contin_err < 2 ^ 31)
unfolding called
called-counts c true h w = (omega (arith, w.0), w.3, omega arith)
called-counts c false h w = (omega (arith, w.0), omega arith, w.4)

pub host_step-after_call :
    (c : LbConfig) (clock : ℕ → ℕ) (b : Bool) (h : HostInfo)
    → IsCounting c h
    → host_step c clock b h ≡ after_call c clock b h
unfolding host_step after_call
host_step-after_call c clock b h w =
    let (sum, succs, errs) = called-counts c b h w in
    rw
      (
        count_call-called c b h w,
        switch_host-turned c (clock 1) b (called b h) sum succs errs w.5 w.6,
      )
      (expire_host-renewed c (clock 0) (clock 2) (turned c (clock 1) b (called b h)))
