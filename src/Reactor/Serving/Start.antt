-- ===== src/Reactor/Serving/Start.antt =====
-- The constructor of tcp_server in reactor/src/tcp_server.cpp: the settings it reads, the calls of the
-- system that end the process where they fail, and the two descriptors that it has the event loop watch.
-- What only prints is left out: the signals, the option of the socket, and the test of the address, which
-- is unsigned and never below 0.
use ylars.Base.{
  ℕ, ◌^◌, ◌<◌, ◌≡◌, refl, Bool, true, false, ◌&&◌, [], ◌∙◌, ==_refl, Option-cases, inl, inr, Option,
  none, some, arith, ltb, ◌==◌, if◌then◌else◌, ◌>>=◌, replicate, length-replicate,
}
use ylars.Base.Map
use ylars.Reactor.ConfigFile.{Sections, codes}
use ylars.Reactor.ConfigFile.Getters.{get_number}
use ylars.Reactor.EventLoop.{Callback, EventLoop, Mask, add_event}
use ylars.Reactor.EventLoop.Watched.{IsConsistent, add_event_lem}
use ylars.Reactor.TcpServer
use ylars.Reactor.ThreadPool.{thread_pool}
use ylars.Reactor.Serving.{Serving, client, do_accept, deal_task}
use ylars.Reactor.Serving.Deal.{do_accept-deal_task}

-- What the system answers: eventfd, socket, bind and listen.
pub record Calls : Type 0 where
  pub activatefd : Option ℕ
  pub sockfd : Option ℕ
  pub bound : Bool
  pub listening : Bool

-- The 32 bits that GetNumber returns, made an int; a negative one counts as 0 in either use.
abbrev pub as_int : ℕ → ℕ
as_int n = if ltb n (2 ^ 31) then n else 0

unfoldable pub max_conn : Sections → ℕ
max_conn config = as_int (get_number (codes "reactor") (codes "maxConn") 3 config)

unfoldable pub thread_num : Sections → ℕ
thread_num config = as_int (get_number (codes "reactor") (codes "threadNum") 2 config)

abbrev pub epollin : Mask
epollin = record { epollin = true; epollout = false }

-- accept_cb and release_cb.
abbrev pub accept_cb : ℕ
accept_cb = 0

abbrev pub release_cb : ℕ
release_cb = 1

-- `this` is the server as an argument of a callback; each thread has an event loop of its own.
unfoldable pub tcp_server : Sections → ℕ → Calls → EventLoop → Option (Serving × EventLoop)
tcp_server config this calls loop = calls.activatefd >>= λ activatefd. calls.sockfd >>= λ sockfd.
    if calls.bound && calls.listening
    then some (
      record {
        server = TcpServer.tcp_server;
        thread_pool =
            if ltb 0 (thread_num config) then some (thread_pool (thread_num config)) else none;
        max_conn_fd = max_conn config;
        closed = [];
        loops = replicate (thread_num config) [];
      },
      add_event activatefd epollin (release_cb, this)
          (add_event sockfd epollin (accept_cb, this) loop),
    )
    else none

-- A descriptor that is watched beside another that was new itself.
watch_both :
    (first second : ℕ) (cb cb' : Callback) (loop : EventLoop)
    → IsConsistent loop
    → Map.lookup first loop.io_evns ≡ none
    → Map.lookup second loop.io_evns ≡ none
    → (second == first) ≡ false
    → let loop' : EventLoop = add_event second epollin cb' (add_event first epollin cb loop) in
      IsConsistent loop'
      × (Map.lookup first loop'.epoll ≡ some epollin)
      × (Map.lookup second loop'.epoll ≡ some epollin)
watch_both first second cb cb' loop ok free free' apart =
    let mid = add_event first epollin cb loop in
    let ok' = (add_event_lem first first epollin cb loop ok refl).0 in
    let first_mid = (add_event_lem first first epollin cb loop ok refl).1 in
    let second_mid = (add_event_lem first second epollin cb loop ok refl).1 in
    let new : Map.lookup second mid.io_evns ≡ none =
      elim (Option-cases (Map.lookup second mid.io_evns)) [
        | inl e ↦ e
        | inr (ev, e) ↦ absurd (ground (arith, (ok' second).1, (ok second).1))
      ] in
    (
      (add_event_lem second first epollin cb' mid ok' refl).0,
      (add_event_lem second first epollin cb' mid ok' refl).1
          ∙ rw (apart, first_mid, ==_refl first, free),
      (add_event_lem second second epollin cb' mid ok' refl).1 ∙ rw (==_refl second, new),
    )

-- A server that the system lets start, with threads and a limit above 0 in its settings, on an event
-- loop whose tables agree and that holds neither of its two descriptors, which differ: the tables still
-- agree, the loop watches both for reading, and the first client is in the table of connections as soon
-- as the first thread has taken its tasks.
pub tcp_server-serves :
    (config : Sections) (this sockfd activatefd conn fd : ℕ) (conn_of : ℕ → ℕ) (loop : EventLoop)
    → IsConsistent loop
    → Map.lookup sockfd loop.io_evns ≡ none
    → Map.lookup activatefd loop.io_evns ≡ none
    → (activatefd == sockfd) ≡ false
    → 0 < thread_num config
    → 0 < max_conn config
    → (s : Serving) × (loop' : EventLoop) × (s' : Serving) × (s'' : Serving) × (tcp_server config
          this
          (record {
            activatefd = some activatefd;
            sockfd = some sockfd;
            bound = true;
            listening = true;
          })
          loop
        ≡ some (s, loop'))
      × IsConsistent loop'
      × (Map.lookup sockfd loop'.epoll ≡ some epollin)
      × (Map.lookup activatefd loop'.epoll ≡ some epollin)
      × (do_accept conn (client fd) s ≡ some s')
      × (deal_task 0 conn_of s' ≡ some s'')
      × (Map.lookup fd s''.server.conns ≡ some (conn_of fd))
unfolding tcp_server thread_pool
tcp_server-serves config this sockfd activatefd conn fd conn_of loop ok free free' apart threads
      room =
    let pool = thread_pool (thread_num config) in
    let s : Serving = record {
      server = TcpServer.tcp_server;
      thread_pool = some pool;
      max_conn_fd = max_conn config;
      closed = [];
      loops = replicate (thread_num config) [];
    } in
    let some_threads : ltb 0 (thread_num config) ≡ true = ground arith in
    let (ok', first, second) =
      watch_both sockfd activatefd (accept_cb, this) (release_cb, this) loop ok free free' apart in
    let (s', s'', accepted, dealt, there) =
      do_accept-deal_task conn fd conn_of pool s refl
        (length-replicate (thread_num config) [], threads) (length-replicate (thread_num config) [])
        room in
    (
      s,
      add_event activatefd epollin (release_cb, this)
          (add_event sockfd epollin (accept_cb, this) loop),
      s',
      s'',
      rw some_threads refl,
      ok',
      first,
      second,
      accepted,
      dealt,
      there,
    )
