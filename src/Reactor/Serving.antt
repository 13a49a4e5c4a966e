-- ===== src/Reactor/Serving.antt =====
-- do_accept of reactor/src/tcp_server.cpp and deal_task of src/thread_pool.cpp: how a new connection
-- reaches the table of connections, with a thread pool and without one. `none` is a fault or the end
-- of the process.
pub mod Limit
pub mod Deal
pub mod Start
pub mod Hooks
mod Tests
use ylars.Base.{
  ℕ, ◌+◌, List, [], ◌∷◌, ◌++◌, Option, none, some, ltb, if◌then◌else◌, ◌>>=◌, length, get_elem?,
  set,
}
use ylars.Reactor.TcpServer.{TcpServer, increase_conn}
use ylars.Reactor.ThreadPool.{ThreadTask, new_conn, new_task, ThreadPool, add_conn_task, recv_tasks}

-- `closed` are the sockets that were refused; `loops` the asynchronous tasks that wait in the event
-- loop of each thread, each a callback with its argument.
pub record Serving : Type 0 where
  pub server : TcpServer
  pub thread_pool : Option ThreadPool
  pub max_conn_fd : ℕ
  pub closed : List ℕ
  pub loops : List (List (ℕ × ℕ))

-- What accept answers: EINTR, EAGAIN, EMFILE, another error, or a socket.
pub data Accepted : Type 0 where
  interrupted not_now too_many_files broken : Accepted
  client : ℕ → Accepted

-- A connection gets its object now, or later in the thread that takes it.
abbrev pub serve : ℕ → ℕ → Serving → Option Serving
serve conn fd s = elim s.thread_pool [
  | none ↦ some (record s { server = increase_conn fd conn s.server })
  | some pool ↦ add_conn_task fd pool >>= λ pool'. some (record s { thread_pool = some pool' })
]

unfoldable pub do_accept : ℕ → Accepted → Serving → Option Serving
do_accept conn interrupted s = some s
do_accept conn not_now s = some s
do_accept conn too_many_files s = some s
do_accept conn broken s = none
do_accept conn (client fd) s =
    if ltb s.max_conn_fd (length s.server.conns + 1)
    then some (record s { closed = s.closed ++ (fd ∷ []) })
    else serve conn fd s

-- The tasks in the hands of the i-th thread; `conn_of` are the objects that new yields.
unfoldable pub deal_tasks : ℕ → (ℕ → ℕ) → List ThreadTask → Serving → Option Serving
deal_tasks i conn_of [] s = some s
deal_tasks i conn_of (new_conn fd ∷ tasks) s =
    deal_tasks i conn_of tasks (record s { server = increase_conn fd (conn_of fd) s.server })
deal_tasks i conn_of (new_task cb args ∷ tasks) s = get_elem? s.loops i >>= λ l.
    deal_tasks i conn_of tasks (record s { loops = set s.loops i (l ++ ((cb, args) ∷ [])) })

unfoldable pub deal_task : ℕ → (ℕ → ℕ) → Serving → Option Serving
deal_task i conn_of s = s.thread_pool >>= λ pool.
    recv_tasks i pool.task_queue >>= λ (tasks, queues).
    deal_tasks i conn_of tasks
      (record s { thread_pool = some (record pool { task_queue = queues }) })
