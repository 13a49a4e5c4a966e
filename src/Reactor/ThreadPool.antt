-- ===== src/Reactor/ThreadPool.antt =====
-- reactor/src/thread_pool.cpp and include/thread_queue.h: the queues of the threads of a pool. An index
-- outside the array of queues is a fault, `none`.
pub mod Turns
use ylars.Base.{
  ℕ, zero, suc, ◌+◌, List, [], ◌∷◌, ◌++◌, Option, some, leb, if◌then◌else◌, ◌>>=◌, get_elem?, set,
  replicate,
}

pub data ThreadTask : Type 0 where
  new_conn : ℕ → ThreadTask
  new_task : ℕ → ℕ → ThreadTask

pub record ThreadPool : Type 0 where
  pub thread_num : ℕ
  pub polling : ℕ
  pub task_queue : List (List ThreadTask)

-- A pool of so many threads, each with an empty queue.
unfoldable pub thread_pool : ℕ → ThreadPool
thread_pool thread_n = record {
  thread_num = thread_n;
  polling = 0;
  task_queue = replicate thread_n [];
}

unfoldable pub send_task : ℕ → ThreadTask → List (List ThreadTask) → Option (List (List ThreadTask))
send_task i task queues = get_elem? queues i >>= λ q. some (set queues i (q ++ (task ∷ [])))

-- A new connection goes to the thread whose turn it is.
unfoldable pub add_conn_task : ℕ → ThreadPool → Option ThreadPool
add_conn_task sockfd p = send_task p.polling (new_conn sockfd) p.task_queue >>= λ queues.
    some (record p {
      task_queue = queues;
      polling = if leb p.thread_num (p.polling + 1) then 0 else p.polling + 1;
    })

-- A task goes to every thread: `n` threads are left, from the i-th on.
unfoldable pub send_all :
    ℕ → ℕ → ThreadTask → List (List ThreadTask) → Option (List (List ThreadTask))
send_all zero i task queues = some queues
send_all (suc n) i task queues = send_task i task queues >>= send_all n (suc i) task

unfoldable pub add_async_task : ℕ → ℕ → ThreadPool → Option ThreadPool
add_async_task cb args p = send_all p.thread_num 0 (new_task cb args) p.task_queue >>= λ queues.
    some (record p { task_queue = queues })

-- The queue is swapped with an empty one.
unfoldable pub recv_tasks :
    ℕ → List (List ThreadTask) → Option (List ThreadTask × List (List ThreadTask))
recv_tasks i queues = get_elem? queues i >>= λ q. some (q, set queues i [])
