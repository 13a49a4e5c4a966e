-- ===== src/Reactor/Serving/Limit.antt =====
-- The limit on the number of connections: kept without a thread pool, and not with one.
use ylars.Base.{
  ℕ, zero, suc, ◌+◌, ◌≤◌, ◌≡◌, refl, ap, ◌∙◌, List, [], ◌∷◌, ◌++◌, Option, none, some, false, arith,
  ltb, ◌>>=◌, map, length, append_assoc, append-nil,
}
use ylars.Base.Map
use ylars.Base.Map.{Map}
use ylars.Reactor.TcpServer.{tcp_server, increase_conn}
use ylars.Reactor.ThreadPool.{ThreadTask, new_conn, add_conn_task, send_task, recv_tasks}
use ylars.Reactor.Serving.{
  Serving, Accepted, client, interrupted, not_now, too_many_files, broken, do_accept, deal_tasks,
  deal_task,
}

length-insert : (k v : ℕ) (m : Map ℕ) → length (Map.insert k v m) ≤ suc (length m)
length-insert k v [] = omega arith
length-insert k v ((j, w) ∷ m) = ground (arith, length-insert k v m)

-- Without a thread pool, whatever accept answers, the connections of a server within its limit stay
-- within it.
pub do_accept-limit :
    (conn : ℕ) (a : Accepted) (s : Serving) {s' : Serving}
    → s.thread_pool ≡ none
    → length s.server.conns ≤ s.max_conn_fd
    → do_accept conn a s ≡ some s'
    → length s'.server.conns ≤ s'.max_conn_fd
unfolding do_accept increase_conn
do_accept-limit conn interrupted s p h e = ground (arith, e)
do_accept-limit conn not_now s p h e = ground (arith, e)
do_accept-limit conn too_many_files s p h e = ground (arith, e)
do_accept-limit conn broken s p h e = absurd (ground (arith, e))
do_accept-limit conn (client fd) s p h e =
    ground (arith, e, p, length-insert fd conn s.server.conns)

-- A server with one thread, no connection yet, and a queue of tasks for its thread.
abbrev pub waiting : ℕ → List ThreadTask → Serving
waiting max tasks = record {
  server = tcp_server;
  thread_pool = some (record { thread_num = 1; polling = 0; task_queue = tasks ∷ [] });
  max_conn_fd = max;
  closed = [];
  loops = [] ∷ [];
}

unfoldable pub accept_all : List ℕ → Serving → Option Serving
accept_all [] s = some s
accept_all (fd ∷ fds) s = do_accept 0 (client fd) s >>= accept_all fds

accept_all-waiting :
    (fds : List ℕ) (max : ℕ) (tasks : List ThreadTask)
    → 1 ≤ max
    → accept_all fds (waiting max tasks) ≡ some (waiting max (tasks ++ map new_conn fds))
unfolding accept_all do_accept add_conn_task send_task
accept_all-waiting [] max tasks h = rw (append-nil tasks)
accept_all-waiting (fd ∷ fds) max tasks h =
    let room : ltb max (0 + 1) ≡ false = ground arith in
    let split = append_assoc tasks (new_conn fd ∷ []) (map new_conn fds) in
    rw room (accept_all-waiting fds max (tasks ++ (new_conn fd ∷ [])) h ∙ rw split)

-- The descriptors below n, the greatest first.
abbrev pub countdown : ℕ → List ℕ
countdown zero = []
countdown (suc n) = n ∷ countdown n

-- A key below all those of a map goes to its front.
abbrev Over : ℕ → Map ℕ → Type 0
Over k [] = Unit {0}
Over k ((j, w) ∷ m) = k ≤ j

insert_front : (k v : ℕ) (m : Map ℕ) → Over (suc k) m → Map.insert k v m ≡ (k, v) ∷ m
insert_front k v [] h = refl
insert_front k v ((j, w) ∷ m) h = ground arith

deal-countdown :
    (n : ℕ) (conn_of : ℕ → ℕ) (s : Serving)
    → Over n s.server.conns
    → (s' : Serving) × (deal_tasks 0 conn_of (map new_conn (countdown n)) s ≡ some s')
      × (length s'.server.conns ≡ n + length s.server.conns)
unfolding deal_tasks increase_conn
deal-countdown zero conn_of s h = (s, refl, omega arith)
deal-countdown (suc n) conn_of s h =
    let next = record s { server = increase_conn n (conn_of n) s.server } in
    let front = insert_front n (conn_of n) s.server.conns h in
    let (s', ran, size) = deal-countdown n conn_of next (rw front (omega arith)) in
    (s', ran, omega (arith, size, ap length front))

-- With a thread pool of one thread, and any limit that allows a connection: any number of connections
-- can be accepted and none refused before the thread takes its tasks, and then all of them are in the
-- table, so that no limit holds.
pub accept_all-over :
    (max n : ℕ) (conn_of : ℕ → ℕ)
    → 1 ≤ max
    → (s : Serving) × (s' : Serving) × (accept_all (countdown n) (waiting max []) ≡ some s)
      × (s.closed ≡ [])
      × (deal_task 0 conn_of s ≡ some s')
      × (length s'.server.conns ≡ n)
unfolding deal_task recv_tasks
accept_all-over max n conn_of h =
    let accepted = accept_all-waiting (countdown n) max [] h in
    let (s', ran, size) = deal-countdown n conn_of (waiting max []) tt in
    (waiting max (map new_conn (countdown n)), s', accepted, refl, ran, omega (arith, size))
