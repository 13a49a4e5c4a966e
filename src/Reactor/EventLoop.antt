-- ===== src/Reactor/EventLoop.antt =====
-- reactor/include/event_loop.h, epoll_base.h and src/event_loop.cpp: the table of callbacks and what
-- epoll watches. A callback is a number, with the number of its argument; what it does to the loop is a
-- parameter. Of a mask the bits EPOLLIN and EPOLLOUT are kept, which are all that the program sets.
-- `none` is a read through an iterator at the end of a map, or a call of a null pointer.
pub mod Watched
pub mod Requests
mod Tests
use ylars.Base.{
  ℕ, ◌+◌, ◌/◌, ◌%◌, Bool, true, false, not, ◌&&◌, ◌||◌, List, [], ◌∷◌, ◌++◌, Option, none, some,
  if◌then◌else◌, ◌>>=◌, ◌==◌,
}
use ylars.Base.Map
use ylars.Base.Map.{Map}
use ylars.Base.NatSet
use ylars.Base.NatSet.{NatSet}

pub record Mask : Type 0 where
  pub epollin : Bool
  pub epollout : Bool

-- A function pointer and the argument it was registered with.
abbrev pub Callback : Type 0
Callback = ℕ × ℕ

pub record IoEvent : Type 0 where
  pub mask : Mask
  pub read_cb : Option Callback
  pub write_cb : Option Callback

-- `epoll` is what epoll_ctl has asked the kernel to watch.
pub record EventLoop : Type 0 where
  pub io_evns : Map IoEvent
  pub lfds : NatSet
  pub epoll : Map Mask
  pub async_tasks : List Callback

abbrev pub meets : Mask → Mask → Bool
meets m n = (m.epollin && n.epollin) || (m.epollout && n.epollout)

abbrev pub union : Mask → Mask → Mask
union m n = record { epollin = m.epollin || n.epollin; epollout = m.epollout || n.epollout }

abbrev pub without : Mask → Mask → Mask
without m n = record {
  epollin = m.epollin && not n.epollin;
  epollout = m.epollout && not n.epollout;
}

abbrev pub is_zero : Mask → Bool
is_zero m = not m.epollin && not m.epollout

-- EPOLL_CTL_ADD and EPOLL_CTL_MOD.
pub data Opt : Type 0 where
  ctl_add ctl_mod : Opt

abbrev pub is_mod : Opt → Bool
is_mod ctl_add = false
is_mod ctl_mod = true

-- epoll_ctl of the kernel: a descriptor that is watched is not added again, and one that is not is not
-- modified. The program does not look at the error.
unfoldable pub epoll_ctl : Opt → ℕ → Mask → Map Mask → Map Mask
epoll_ctl ctl_add fd events watched =
    if Map.contains fd watched then watched else Map.insert fd events watched
epoll_ctl ctl_mod fd events watched =
    if Map.contains fd watched then Map.insert fd events watched else watched

-- The second part of add_event: what _io_evns[evnfd] holds is empty where there was nothing.
abbrev pub watch : Opt → ℕ → Mask → IoEvent → EventLoop → EventLoop
watch opt fd setmask ev l = record l {
  io_evns = Map.insert fd ev l.io_evns;
  lfds = NatSet.insert fd l.lfds;
  epoll = epoll_ctl opt fd setmask l.epoll;
}

unfoldable pub set_callback : Opt → ℕ → Mask → Mask → Callback → IoEvent → EventLoop → EventLoop
set_callback opt fd mask setmask cb old l =
    if mask.epollin
    then watch opt fd setmask (record old { mask = setmask; read_cb = some cb }) l
    else if mask.epollout
    then watch opt fd setmask (record old { mask = setmask; write_cb = some cb }) l
    else l

abbrev pub no_event : IoEvent
no_event = record {
  mask = record { epollin = false; epollout = false };
  read_cb = none;
  write_cb = none;
}

unfoldable pub add_event : ℕ → Mask → Callback → EventLoop → EventLoop
add_event fd mask cb l = elim (Map.lookup fd l.io_evns) [
  | none ↦ set_callback ctl_add fd mask mask cb no_event l
  | some old ↦
      if meets old.mask mask then l else set_callback ctl_mod fd mask (union old.mask mask) cb old l
]

-- The overload with two callbacks.
unfoldable pub add_events : ℕ → Mask → Callback → Callback → EventLoop → EventLoop
add_events fd mask rcb wcb l = add_event fd mask wcb (add_event fd mask rcb l)

unfoldable pub del_event : ℕ → EventLoop → EventLoop
del_event fd l = record l {
  io_evns = Map.erase fd l.io_evns;
  lfds = NatSet.erase fd l.lfds;
  epoll = Map.erase fd l.epoll;
}

-- The overload with a mask reads the table's entry before it looks whether there is one.
unfoldable pub del_mask : ℕ → Mask → EventLoop → Option EventLoop
del_mask fd mask l = Map.lookup fd l.io_evns >>= λ ev. some (
    if is_zero (without ev.mask mask) || not (NatSet.contains fd l.lfds)
    then del_event fd l
    else record l {
      io_evns = Map.insert fd (record ev { mask = without ev.mask mask }) l.io_evns;
      epoll = epoll_ctl ctl_mod fd (without ev.mask mask) l.epoll;
    })

-- One epoll_event: the descriptor, and the events as a number.
pub record Fired : Type 0 where
  pub fd : ℕ
  pub events : ℕ

abbrev pub bit : ℕ → ℕ → Bool
bit power events = events / power % 2 == 1

-- What callbacks do, given the descriptor that they are called with.
abbrev pub Run : Type 0
Run = Callback → ℕ → EventLoop → Option EventLoop

-- One turn of the loop over the events: `first` is the descriptor of the first of them, which every
-- callback is called with, and a descriptor without the callback is looked for under its events.
unfoldable pub dispatch : Run → ℕ → Fired → IoEvent → EventLoop → Option EventLoop
dispatch run first f ev l =
    if bit 1 f.events
    then elim ev.read_cb [
      | none ↦ del_mask f.events (record { epollin = true; epollout = false }) l
      | some cb ↦ run cb first l
    ]
    else if bit 4 f.events
    then elim ev.write_cb [
      | none ↦ del_mask f.events (record { epollin = false; epollout = true }) l
      | some cb ↦ run cb first l
    ]
    else if bit 8 f.events || bit 16 f.events
    then elim ev.read_cb [
      | some cb ↦ run cb first l
      | none ↦ elim ev.write_cb [ none ↦ some (del_event f.fd l) | some cb ↦ none ]
    ]
    else some (del_event f.fd l)

unfoldable pub handle : Run → ℕ → Fired → EventLoop → Option EventLoop
handle run first f l = elim (Map.lookup f.fd l.io_evns) [
  | none ↦ some (del_event f.fd l)
  | some ev ↦
      if NatSet.contains f.fd l.lfds then dispatch run first f ev l else some (del_event f.fd l)
]

abbrev handle_all : Run → ℕ → List Fired → EventLoop → Option EventLoop
handle_all run first [] l = some l
handle_all run first (f ∷ fs) l = handle run first f l >>= handle_all run first fs

abbrev run_tasks : Run → List Callback → EventLoop → Option EventLoop
run_tasks run [] l = some l
run_tasks run (t ∷ ts) l = run t 0 l >>= run_tasks run ts

unfoldable pub send_async_task : Callback → EventLoop → EventLoop
send_async_task t l = record l { async_tasks = l.async_tasks ++ (t ∷ []) }

-- The tasks are those that are there when the turn begins.
unfoldable pub execute_async_tasks : Run → EventLoop → Option EventLoop
execute_async_tasks run l =
    run_tasks run l.async_tasks l >>= λ l'. some (record l' { async_tasks = [] })

-- One turn of start_process, for what epoll_wait brings.
unfoldable pub turn : Run → List Fired → EventLoop → Option EventLoop
turn run [] l = execute_async_tasks run l
turn run (f ∷ fs) l = handle_all run f.fd (f ∷ fs) l >>= execute_async_tasks run

abbrev pub get_listen_fds : EventLoop → NatSet
get_listen_fds l = l.lfds
