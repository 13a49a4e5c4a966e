-- ===== src/Reactor/Serving/Deal.antt =====
-- What a thread does with the tasks of its queue.
use mathlib.Core.Option
use ylars.Base.{
  get_elem?-set, in_range, ℕ, ◌+◌, ◌<◌, ◌≡◌, refl, sym, ap, ◌∙◌, List, [], ◌∷◌, ◌++◌, some, Bool,
  true, false, arith, ltb, leb, ◌==◌, ◌||◌, if◌then◌else◌, length, get_elem?, set, append-nil,
  append_assoc, length-set, ==_refl,
}
use ylars.Base.Map
use ylars.Base.Map.{Map, lookup-insert}
use ylars.Reactor.TcpServer.{increase_conn}
use ylars.Reactor.ThreadPool.{
  ThreadTask, new_conn, new_task, ThreadPool, add_conn_task, send_task, recv_tasks,
}
use ylars.Reactor.ThreadPool.Turns.{IsPool}
use ylars.Reactor.Serving.{Serving, client, do_accept, deal_tasks, deal_task}

-- Whether a queue holds a connection.
abbrev pub is_queued : ℕ → List ThreadTask → Bool
is_queued fd [] = false
is_queued fd (new_conn g ∷ tasks) = (g == fd) || is_queued fd tasks
is_queued fd (new_task cb args ∷ tasks) = is_queued fd tasks

-- The asynchronous tasks of a queue.
abbrev pub asyncs : List ThreadTask → List (ℕ × ℕ)
asyncs [] = []
asyncs (new_conn g ∷ tasks) = asyncs tasks
asyncs (new_task cb args ∷ tasks) = (cb, args) ∷ asyncs tasks

-- What the tasks of a queue have done to the server and to the loop of the thread.
abbrev pub IsDealt : ℕ → (ℕ → ℕ) → List ThreadTask → Serving → Serving → Type 0
IsDealt i conn_of tasks s s' =
    ((fd : ℕ)
      → Map.lookup fd s'.server.conns
        ≡ (if is_queued fd tasks then some (conn_of fd) else Map.lookup fd s.server.conns))
    × (get_elem? s'.loops i ≡ Option.map (λ l. l ++ asyncs tasks) (get_elem? s.loops i))
    × (s'.thread_pool ≡ s.thread_pool)

deal_tasks-IsDealt :
    (i : ℕ) (conn_of : ℕ → ℕ) (tasks : List ThreadTask) (s : Serving)
    → i < length s.loops
    → (s' : Serving) × (deal_tasks i conn_of tasks s ≡ some s') × IsDealt i conn_of tasks s s'
unfolding deal_tasks increase_conn
deal_tasks-IsDealt i conn_of [] s h =
    let (l, at) = in_range s.loops i h in
    (s, refl, ((λ fd. refl), rw at (ap some (sym (append-nil l))), refl))
deal_tasks-IsDealt i conn_of (new_conn g ∷ tasks) s h =
    let next = record s { server = increase_conn g (conn_of g) s.server } in
    let (s', ran, (conns, loops, pool)) = deal_tasks-IsDealt i conn_of tasks next h in
    (
      s',
      ran,
      (λ fd. conns fd ∙ ground (arith, lookup-insert fd g (conn_of g) s.server.conns), loops, pool),
    )
deal_tasks-IsDealt i conn_of (new_task cb args ∷ tasks) s h =
    let (l, at) = in_range s.loops i h in
    let next = record s { loops = set s.loops i (l ++ ((cb, args) ∷ [])) } in
    let (s', ran, (conns, loops, pool)) =
      deal_tasks-IsDealt i conn_of tasks next
        (omega (arith, h, length-set s.loops i (l ++ ((cb, args) ∷ [])))) in
    (
      s',
      rw at ran,
      (
        conns,
        loops
            ∙ rw (get_elem?-set s.loops i i (l ++ ((cb, args) ∷ [])), ==_refl i, at)
                (ap some (append_assoc l ((cb, args) ∷ []) (asyncs tasks))),
        pool,
      ),
    )

-- Where the thread has a queue and a loop: its queue is empty after deal_task, every connection that was
-- in it is in the table with the object made for it and the others are as before, and its asynchronous
-- tasks stand in the loop of the thread, in their order, behind those that waited there.
pub deal_task-IsDealt :
    (i : ℕ) (conn_of : ℕ → ℕ) (pool : ThreadPool) (tasks : List ThreadTask) (s : Serving)
    → s.thread_pool ≡ some pool
    → get_elem? pool.task_queue i ≡ some tasks
    → i < length s.loops
    → (s' : Serving) × (deal_task i conn_of s ≡ some s')
      × IsDealt i conn_of tasks
          (record s { thread_pool = some (record pool { task_queue = set pool.task_queue i [] }) })
          s'
unfolding deal_task recv_tasks
deal_task-IsDealt i conn_of pool tasks s e at h =
    let (s', ran, dealt) =
      deal_tasks-IsDealt i conn_of tasks
        (record s { thread_pool = some (record pool { task_queue = set pool.task_queue i [] }) })
        h in
    (s', rw (e, at) ran, dealt)

is_queued-last :
    (fd : ℕ) (tasks : List ThreadTask) → is_queued fd (tasks ++ (new_conn fd ∷ [])) ≡ true
is_queued-last fd [] = rw (==_refl fd)
is_queued-last fd (new_conn g ∷ tasks) = ground (arith, is_queued-last fd tasks)
is_queued-last fd (new_task cb args ∷ tasks) = is_queued-last fd tasks

-- With a thread pool that has a queue and a loop for each thread, below the limit: a connection that is
-- accepted goes to the thread whose turn it is, and once that thread deals with its tasks the
-- connection is in the table with the object made for it.
pub do_accept-deal_task :
    (conn fd : ℕ) (conn_of : ℕ → ℕ) (pool : ThreadPool) (s : Serving)
    → s.thread_pool ≡ some pool
    → IsPool pool
    → length s.loops ≡ pool.thread_num
    → length s.server.conns < s.max_conn_fd
    → (s' : Serving) × (s'' : Serving) × (do_accept conn (client fd) s ≡ some s')
      × (deal_task pool.polling conn_of s' ≡ some s'')
      × (Map.lookup fd s''.server.conns ≡ some (conn_of fd))
unfolding do_accept add_conn_task send_task
do_accept-deal_task conn fd conn_of pool s e w l room =
    let (q, at) = in_range pool.task_queue pool.polling (omega (arith, w.0, w.1)) in
    let tasks : List ThreadTask = q ++ (new_conn fd ∷ []) in
    let pool' = record pool {
      task_queue = set pool.task_queue pool.polling tasks;
      polling = if leb pool.thread_num (pool.polling + 1) then 0 else pool.polling + 1;
    } in
    let s' = record s { thread_pool = some pool' } in
    let free : ltb s.max_conn_fd (length s.server.conns + 1) ≡ false = ground arith in
    let there : get_elem? pool'.task_queue pool.polling ≡ some tasks =
      rw
        (get_elem?-set pool.task_queue pool.polling pool.polling tasks, ==_refl pool.polling, at) in
    let (s'', ran, (conns, loops, same)) =
      deal_task-IsDealt pool.polling conn_of pool' tasks s' refl there (omega (arith, l, w.1)) in
    (s', s'', rw (free, e, at), ran, conns fd ∙ rw (is_queued-last fd q))
