-- ===== src/Reactor/EventLoop/Tests.antt =====
-- The theorems on the event loop at a concrete loop.
use ylars.Base.{List, Bool-cases, inl, inr, refl, true, false, [], ◌∷◌, some, ◌==◌}
use ylars.Reactor.EventLoop.Requests.{Request, adds, drops_mask, Outcome, apply_all-Outcome}
use ylars.Reactor.EventLoop.{Mask, IoEvent, EventLoop}
use ylars.Reactor.EventLoop.Watched.{IsConsistent}

abbrev both : Mask
both = record { epollin = true; epollout = true }

abbrev out : Mask
out = record { epollin = false; epollout = true }

abbrev no_fds : EventLoop
no_fds = record { io_evns = []; lfds = []; epoll = []; async_tasks = [] }

abbrev three : IoEvent
three = record { mask = both; read_cb = some (30, 1); write_cb = some (31, 1) }

abbrev one_fd : EventLoop
one_fd = record {
  io_evns = (3, three) ∷ [];
  lfds = 3 ∷ [];
  epoll = (3, both) ∷ [];
  async_tasks = [];
}

one_fd-IsConsistent : IsConsistent one_fd
one_fd-IsConsistent fd = elim (Bool-cases (3 == fd)) [
  | inl e ↦ rw e (refl, refl)
  | inr e ↦ rw e (refl, refl)
]

abbrev requests : List Request
requests = drops_mask 3 out ∷ adds 4 out (40, 1) ∷ drops_mask 5 out ∷ []

apply_all-Outcome_example : Outcome requests one_fd
apply_all-Outcome_example = apply_all-Outcome requests one_fd one_fd-IsConsistent
