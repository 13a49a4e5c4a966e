-- ===== src/Reporter/Rows.antt =====
-- What the database holds after a report.
use native.Mathlib.Nat.{mod_self, mod-eq_of_lt}
use ylars.Base.{
  get_elem?-set, in_range, ℕ, suc, ◌+◌, ◌%◌, ◌<◌, ◌≡◌, refl, sym, ap, ◌∙◌, false, List, [], ◌∷◌,
  ◌++◌, Option, none, some, map, arith, ◌==◌, if◌then◌else◌, All, Bool-cases, inl, inr, length,
  get_elem?, set, length-set, append_assoc, append-nil, ==_refl,
}
use ylars.Proto.{HostCallResult, ReportStatusReq}
use mathlib.Core.Option
use ylars.Reporter.{
  Counts, Row, Reporter, deal_report, Statement, statement, report2db, report_all, store_tasks,
}

-- The value of the unique key in a row, where `key` makes it of the columns that an UPDATE leaves alone.
abbrev pub key_of : (ℕ → ℕ → ℕ → ℕ → ℕ → ℕ) → Row → ℕ
key_of key row = key row.modid row.cmdid row.ip row.port row.caller

-- INSERT ... ON DUPLICATE KEY UPDATE: a row that is there has its counts set.
abbrev pub upserted : Statement → Option Row → Row
upserted s none = s.insert
upserted s (some row) = record row { counts = s.update }

abbrev pub result_key : (ℕ → ℕ → ℕ → ℕ → ℕ → ℕ) → ReportStatusReq → HostCallResult → ℕ
result_key key rep res = key rep.modid rep.cmdid res.ip res.port rep.caller

-- What a report says of a host.
abbrev pub reported : ReportStatusReq → HostCallResult → Counts
reported rep res = record {
  succ_cnt = res.succ;
  err_cnt = res.err;
  ts = rep.ts;
  overload = res.overload;
}

-- There is a queue for each thread, and the turn is that of a thread.
abbrev pub IsReporter : Reporter → Type 0
IsReporter r = (length r.task_queues ≡ r.db_thread_cnt) × (r.index < r.db_thread_cnt)

module _ {ℓ} {Db : Type ℓ} (key : ℕ → ℕ → ℕ → ℕ → ℕ → ℕ) (execute : Statement → Db → Db)
    (find : ℕ → Db → Option Row)
    (upserts : (k : ℕ) (s : Statement) (db : Db)
      → find k (execute s db)
        ≡ (if k == key_of key s.insert then some (upserted s (find k db)) else find k db)) where
  abbrev pub execute_all : List Statement → Db → Db
  execute_all [] db = db
  execute_all (s ∷ ss) db = execute_all ss (execute s db)

  execute_all-append :
      (xs ys : List Statement) (db : Db)
      → execute_all (xs ++ ys) db ≡ execute_all ys (execute_all xs db)
  execute_all-append [] ys db = refl
  execute_all-append (s ∷ xs) ys db = execute_all-append xs ys (execute s db)

  -- Results with other keys leave the row of a host.
  row-others :
      (rep : ReportStatusReq) (k : ℕ) (back : List HostCallResult) (db : Db)
      → All (λ other. (k == result_key key rep other) ≡ false) back
      → find k (execute_all (map (statement rep) back) db) ≡ find k db
  unfolding statement
  row-others rep k [] db a = refl
  row-others rep k (other ∷ back) db a =
      row-others rep k back (execute (statement rep other) db) a.1
      ∙ upserts k (statement rep other) db
      ∙ rw (a.0)

  counts_set :
      (rep : ReportStatusReq) (res : HostCallResult) (o : Option Row)
      → (upserted (statement rep res) o).counts ≡ reported rep res
  unfolding statement
  counts_set rep res none = refl
  counts_set rep res (some row) = refl

  row-last :
      (rep : ReportStatusReq) (front back : List HostCallResult) (res : HostCallResult) (db : Db)
      → All (λ other. (result_key key rep res == result_key key rep other) ≡ false) back
      → Option.map
          (λ row. row.counts)
          (find
            (result_key key rep res)
            (execute_all (map (statement rep) (front ++ (res ∷ back))) db))
        ≡ some (reported rep res)
  unfolding statement
  row-last rep [] back res db a =
      let k = result_key key rep res in
      let there : find k (execute (statement rep res) db)
          ≡ some (upserted (statement rep res) (find k db)) =
        upserts k (statement rep res) db ∙ rw (==_refl k) refl in
      ap (Option.map (λ row. row.counts))
        (row-others rep k back (execute (statement rep res) db) a ∙ there)
      ∙ ap some (counts_set rep res (find k db))
  row-last rep (other ∷ front) back res db a =
      row-last rep front back res (execute (statement rep other) db) a

next_turn :
    (i n : ℕ)
    → i < n
    → ((i + 1) % n ≡ (if suc i == n then 0 else suc i)) × ((if suc i == n then 0 else suc i) < n)
next_turn i n h = elim (Bool-cases (suc i == n)) [
  | inl last ↦ let e : i + 1 ≡ n = ground arith in rw (last, e) (mod_self n, omega (arith, h))
  | inr more ↦
      let e : i + 1 ≡ suc i = omega arith in
      let below : suc i < n = ground arith in rw (more, e) (mod-eq_of_lt below, below)
]

report_all-append :
    (xs : List ReportStatusReq) (rep : ReportStatusReq)
    → report_all (xs ++ (rep ∷ [])) ≡ report_all xs ++ report2db rep
unfolding report_all
report_all-append [] rep = append-nil (report2db rep)
report_all-append (x ∷ xs) rep =
    ap (λ l. report2db x ++ l) (report_all-append xs rep)
    ∙ sym (append_assoc (report2db x) (report_all xs) (report2db rep))

module _ {ℓ} {Db : Type ℓ} (key : ℕ → ℕ → ℕ → ℕ → ℕ → ℕ) (execute : Statement → Db → Db)
    (find : ℕ → Db → Option Row)
    (upserts : (k : ℕ) (s : Statement) (db : Db)
      → find k (execute s db)
        ≡ (if k == key_of key s.insert then some (upserted s (find k db)) else find k db)) where
  -- The database is a parameter: its table has a unique key over columns that an UPDATE leaves alone, and
  -- a statement inserts its row where there is none with its key, sets the counts of the row where there
  -- is one, and leaves all other rows. Where there is a queue for each thread and the turn is that of a
  -- thread: a report that arrives goes to the thread whose turn it is, and the turn goes to the next one,
  -- after the last to the first; once that thread has taken its queue, which is then empty, and sent its
  -- statements, there is a row with the key of each result of the report that no later result of the report
  -- has, and it holds the successes, errors and flag of this result and the time of the report.
  pub store_tasks-row :
      (r : Reporter) (req : ReportStatusReq) (front back : List HostCallResult)
      (res : HostCallResult) (db : Db)
      → IsReporter r
      → req.result ≡ front ++ (res ∷ back)
      → All (λ other. (result_key key req res == result_key key req other) ≡ false) back
      → (r' : Reporter) × (r'' : Reporter) × (sent : List Statement) × (deal_report (some req) r
          ≡ some r')
        × IsReporter r'
        × (r'.index ≡ (if suc r.index == r.db_thread_cnt then 0 else suc r.index))
        × (store_tasks r.index r' ≡ some (sent, r''))
        × (get_elem? r''.task_queues r.index ≡ some [])
        × (Option.map
              (λ row. row.counts)
              (find
                (key req.modid req.cmdid res.ip res.port req.caller)
                (execute_all key execute find upserts sent db))
            ≡ some (record {
              succ_cnt = res.succ;
              err_cnt = res.err;
              ts = req.ts;
              overload = res.overload;
            }))
  unfolding deal_report store_tasks report2db
  store_tasks-row r req front back res db w e a =
      let (queue, at) = in_range r.task_queues r.index (omega (arith, w.0, w.1)) in
      let queues = set r.task_queues r.index (queue ++ (req ∷ [])) in
      let r' = record r { task_queues = queues; index = (r.index + 1) % r.db_thread_cnt } in
      let there : get_elem? queues r.index ≡ some (queue ++ (req ∷ [])) =
        rw (
          get_elem?-set r.task_queues r.index r.index (queue ++ (req ∷ [])),
          ==_refl r.index,
          at,
        ) in
      let counts_at : Db → Option Counts =
        λ d. Option.map (λ row. row.counts) (find (result_key key req res) d) in
      let turn = next_turn r.index r.db_thread_cnt w.1 in
      let sent = report_all (queue ++ (req ∷ [])) in
      let last =
        row-last key execute find upserts req front back res
          (execute_all key execute find upserts (report_all queue) db) a in
      (
        r',
        record r' { task_queues = set queues r.index [] },
        sent,
        rw at,
        (length-set r.task_queues r.index (queue ++ (req ∷ [])) ∙ w.0, rw turn.0 turn.1),
        turn.0,
        rw there,
        rw (get_elem?-set queues r.index r.index [], ==_refl r.index, there),
        ap (λ l. counts_at (execute_all key execute find upserts l db))
              (report_all-append queue req)
            ∙ ap counts_at
                (execute_all-append key execute find upserts (report_all queue) (report2db req) db)
            ∙ ap
                (λ l. counts_at (
                  execute_all key execute find upserts (map (statement req) l)
                    (execute_all key execute find upserts (report_all queue) db)))
                e
            ∙ last,
      )
