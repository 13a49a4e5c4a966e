-- ===== src/Reporter/Tests.antt =====
-- A report of two hosts, with a database that is a list of rows.
use mathlib.Core.Option
use ylars.Base.{
  ◌+◌, ◌*◌, ◌^◌, ◌==◌, ℕ, ◌≡◌, refl, false, List, [], ◌∷◌, Option, none, some, arith, if◌then◌else◌,
  get_elem?,
}
use ylars.Proto.{HostCallResult, ReportStatusReq}
use ylars.Reporter.{Row, Reporter, deal_report, Statement, store_tasks}
use ylars.Reporter.Rows.{key_of, upserted, IsReporter, execute_all, store_tasks-row}

-- A key of the module, the address and the port alone.
abbrev key : ℕ → ℕ → ℕ → ℕ → ℕ → ℕ
key modid cmdid ip port caller = (modid * 2 ^ 32 + cmdid) * 2 ^ 64 + (ip * 2 ^ 32 + port)

abbrev Db : Type 0
Db = List Row

abbrev find : ℕ → Db → Option Row
find k [] = none
find k (row ∷ db) = if k == key_of key row then some row else find k db

abbrev execute : Statement → Db → Db
execute s [] = s.insert ∷ []
execute s (row ∷ db) =
    if key_of key s.insert == key_of key row
    then record row { counts = s.update } ∷ db
    else row ∷ execute s db

upserts :
    (k : ℕ) (s : Statement) (db : Db)
    → find k (execute s db)
      ≡ (if k == key_of key s.insert then some (upserted s (find k db)) else find k db)
upserts k s [] = refl
upserts k s (row ∷ db) = ground (arith, upserts k s db)

abbrev host : ℕ → ℕ → HostCallResult
host ip succ = record { ip = ip; port = 80; succ = succ; err = 1; overload = false }

abbrev report : ReportStatusReq
report = record {
  modid = 1;
  cmdid = 2;
  caller = 123;
  result = host 9 4 ∷ host 9 5 ∷ host 8 6 ∷ [];
  ts = 1000;
}

abbrev reporter : Reporter
reporter = record { task_queues = [] ∷ (report ∷ []) ∷ []; db_thread_cnt = 2; index = 1 }

store_tasks-row_example :
    (r' : Reporter) × (r'' : Reporter) × (sent : List Statement) × (deal_report
        (some report)
        reporter
      ≡ some r')
    × IsReporter r'
    × (r'.index ≡ 0)
    × (store_tasks 1 r' ≡ some (sent, r''))
    × (get_elem? r''.task_queues 1 ≡ some [])
    × (Option.map
          (λ row. row.counts)
          (find (key 1 2 9 80 123) (execute_all key execute find upserts sent []))
        ≡ some (record { succ_cnt = 5; err_cnt = 1; ts = 1000; overload = false }))
store_tasks-row_example =
    store_tasks-row key execute find upserts reporter report (host 9 4 ∷ []) (host 8 6 ∷ [])
      (host 9 5) [] (refl, omega arith) refl (refl, tt)
