-- ===== src/Reactor/ThreadPool/Turns.antt =====
-- Which thread a task goes to.
use mathlib.Core.Option
use ylars.Base.{
  ℕ, suc, ◌+◌, ◌<◌, ◌≡◌, ◌∙◌, List, [], ◌∷◌, ◌++◌, some, arith, leb, ◌==◌, if◌then◌else◌,
  Bool-cases, inl, inr, get_elem?, set, get_elem?-set, in_range, length, length-set,
}
use ylars.Reactor.ThreadPool.{ThreadTask, new_conn, ThreadPool, send_task, add_conn_task}

-- There is a queue for each thread, and the turn is that of a thread.
abbrev pub IsPool : ThreadPool → Type 0
IsPool p = (length p.task_queue ≡ p.thread_num) × (p.polling < p.thread_num)

-- Where there is a queue for each thread and the turn is that of a thread, a new connection goes
-- to the end of the queue of that thread, the other queues stay, and the turn goes to the next
-- thread, after the last to the first.
pub add_conn_task_lem :
    (sockfd i : ℕ) (p : ThreadPool)
    → IsPool p
    → (p' : ThreadPool) × (add_conn_task sockfd p ≡ some p')
      × IsPool p'
      × (p'.polling ≡ (if suc p.polling == p.thread_num then 0 else suc p.polling))
      × (get_elem? p'.task_queue i ≡ (
          if p.polling == i
          then Option.map (λ q. q ++ (new_conn sockfd ∷ [])) (get_elem? p.task_queue i)
          else get_elem? p.task_queue i))
unfolding add_conn_task send_task
add_conn_task_lem sockfd i p w =
    let (q, e) = in_range p.task_queue p.polling (omega (arith, w.0, w.1)) in
    let queues : List (List ThreadTask) =
      set p.task_queue p.polling (q ++ (new_conn sockfd ∷ [])) in
    (
      record p {
        task_queue = queues;
        polling = if leb p.thread_num (p.polling + 1) then 0 else p.polling + 1;
      },
      rw e,
      (length-set p.task_queue p.polling (q ++ (new_conn sockfd ∷ [])) ∙ w.0, ground (arith, w.1)),
      ground (arith, w.1),
      elim (Bool-cases (p.polling == i)) [
        | inl t ↦
            let same : i ≡ p.polling = ground arith in
            rw (get_elem?-set p.task_queue p.polling i (q ++ (new_conn sockfd ∷ [])), t, same, e)
        | inr t ↦ rw (get_elem?-set p.task_queue p.polling i (q ++ (new_conn sockfd ∷ [])), t)
      ],
    )
