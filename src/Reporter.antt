-- ===== src/Reporter.antt =====
-- ylars_reporter/src: ylars_reporter.cpp deals the reports that arrive to the queues of its threads,
-- thread_report.cpp takes those of one queue, and store_report.cpp writes them with one statement for
-- each host. Parsing is protobuf's; an index outside the array of queues is a fault, `none`.
pub mod Rows
mod Tests
use ylars.Base.{
  ℕ, ◌+◌, ◌%◌, Bool, List, [], ◌∷◌, ◌++◌, Option, none, some, map, get_elem?, set, ◌>>=◌,
}
use ylars.Proto.{HostCallResult, ReportStatusReq}

-- task_queues, db_thread_cnt, and the static index of deal_report.
pub record Reporter : Type 0 where
  pub task_queues : List (List ReportStatusReq)
  pub db_thread_cnt : ℕ
  pub index : ℕ

unfoldable pub deal_report : Option ReportStatusReq → Reporter → Option Reporter
deal_report none r = some r
deal_report (some req) r = get_elem? r.task_queues r.index >>= λ queue. some (record r {
  task_queues = set r.task_queues r.index (queue ++ (req ∷ []));
  index = (r.index + 1) % r.db_thread_cnt;
})

-- The columns that an UPDATE sets.
pub record Counts : Type 0 where
  pub succ_cnt : ℕ
  pub err_cnt : ℕ
  pub ts : ℕ
  pub overload : Bool

-- A row of ServerCallStatus.
pub record Row : Type 0 where
  pub modid : ℕ
  pub cmdid : ℕ
  pub ip : ℕ
  pub port : ℕ
  pub caller : ℕ
  pub counts : Counts

-- INSERT INTO ServerCallStatus ... VALUES, and ON DUPLICATE KEY UPDATE with values of its own.
pub record Statement : Type 0 where
  pub insert : Row
  pub update : Counts

unfoldable pub statement : ReportStatusReq → HostCallResult → Statement
statement rep res = record {
  insert = record {
    modid = rep.modid;
    cmdid = rep.cmdid;
    ip = res.ip;
    port = res.port;
    caller = rep.caller;
    counts = record {
      succ_cnt = res.succ;
      err_cnt = res.err;
      ts = rep.ts;
      overload = res.overload;
    };
  };
  update = record { succ_cnt = res.succ; err_cnt = res.err; ts = rep.ts; overload = res.overload };
}

-- The statements that are sent, whether or not one of them fails.
unfoldable pub report2db : ReportStatusReq → List Statement
report2db rep = map (statement rep) rep.result

unfoldable pub report_all : List ReportStatusReq → List Statement
report_all [] = []
report_all (rep ∷ tasks) = report2db rep ++ report_all tasks

-- deal_report of the i-th thread, which takes all of its queue.
unfoldable pub store_tasks : ℕ → Reporter → Option (List Statement × Reporter)
store_tasks i r = get_elem? r.task_queues i >>= λ tasks.
    some (report_all tasks, record r { task_queues = set r.task_queues i [] })
