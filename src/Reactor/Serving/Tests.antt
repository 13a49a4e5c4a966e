-- ===== src/Reactor/Serving/Tests.antt =====
-- A server with a connection, with and without threads, and one that starts.
use ylars.Base.{true, ℕ, suc, ◌≡◌, refl, [], ◌∷◌, none, some, arith, length}
use ylars.Base.Map
use ylars.Reactor.TcpServer
use ylars.Reactor.TcpServer.{increase_conn, do_release}
use ylars.Reactor.ConfigFile.{Sections, codes, find, get_value, first_not_empty}
use ylars.Reactor.ConfigFile.Getters.{get_number, parse_number, digits}
use ylars.Reactor.EventLoop.{EventLoop}
use ylars.Reactor.EventLoop.Watched.{IsConsistent}
use ylars.Reactor.Serving.Hooks.{Hooked, started, ended, serve_client, clean, serve_client-clean}
use ylars.Reactor.Serving.Start.{thread_num, max_conn, epollin, tcp_server, tcp_server-serves}
use ylars.Reactor.ThreadPool.{ThreadPool, new_conn, new_task}
use ylars.Reactor.Serving.{Serving, client, do_accept, deal_task}
use ylars.Reactor.Serving.Limit.{waiting, accept_all, countdown, accept_all-over}
use ylars.Reactor.Serving.Deal.{IsDealt, deal_task-IsDealt}

abbrev alone : Serving
alone = record {
  server = record TcpServer.tcp_server { conns = (7, 70) ∷ [] };
  thread_pool = none;
  max_conn_fd = 2;
  closed = [];
  loops = [];
}

abbrev with_client : Serving
with_client = record alone {
  server = record TcpServer.tcp_server { conns = (7, 70) ∷ (8, 80) ∷ [] };
}

accepts : do_accept 80 (client 8) alone ≡ some with_client
unfolding do_accept increase_conn
accepts = refl

refuses : do_accept 90 (client 9) with_client ≡ some (record with_client { closed = 9 ∷ [] })
unfolding do_accept
refuses = refl

abbrev conn_of : ℕ → ℕ
conn_of fd = suc fd

accept_all-over_example :
    (s : Serving) × (s' : Serving) × (accept_all (countdown 5) (waiting 2 []) ≡ some s)
    × (s.closed ≡ [])
    × (deal_task 0 conn_of s ≡ some s')
    × (length s'.server.conns ≡ 5)
accept_all-over_example = accept_all-over 2 5 conn_of (omega arith)

abbrev pool : ThreadPool
pool = record {
  thread_num = 2;
  polling = 1;
  task_queue = [] ∷ (new_conn 4 ∷ new_task 60 0 ∷ []) ∷ [];
}

abbrev threaded : Serving
threaded = record alone { thread_pool = some pool; loops = [] ∷ [] ∷ [] }

deal_task-IsDealt_example :
    (s' : Serving) × (deal_task 1 conn_of threaded ≡ some s')
    × IsDealt 1 conn_of
        (new_conn 4 ∷ new_task 60 0 ∷ [])
        (record threaded { thread_pool = some (record pool { task_queue = [] ∷ [] ∷ [] }) })
        s'
deal_task-IsDealt_example =
    deal_task-IsDealt 1 conn_of pool (new_conn 4 ∷ new_task 60 0 ∷ []) threaded refl refl
      (omega arith)

abbrev no_fds : EventLoop
no_fds = record { io_evns = []; lfds = []; epoll = []; async_tasks = [] }

-- The settings say nothing of the limit, and ask for one thread.
abbrev config : Sections
config = (codes "reactor", (codes "threadNum", codes "1") ∷ []) ∷ []

one_thread : thread_num config ≡ 1
unfolding thread_num get_number get_value parse_number digits first_not_empty find
one_thread = refl

room_for_three : max_conn config ≡ 3
unfolding max_conn get_number get_value find
room_for_three = refl

tcp_server-serves_example :
    (s : Serving) × (loop' : EventLoop) × (s' : Serving) × (s'' : Serving) × (tcp_server config 40
        (record { activatefd = some 4; sockfd = some 5; bound = true; listening = true })
        no_fds
      ≡ some (s, loop'))
    × IsConsistent loop'
    × (Map.lookup 5 loop'.epoll ≡ some epollin)
    × (Map.lookup 4 loop'.epoll ≡ some epollin)
    × (do_accept 80 (client 8) s ≡ some s')
    × (deal_task 0 conn_of s' ≡ some s'')
    × (Map.lookup 8 s''.server.conns ≡ some 9)
tcp_server-serves_example =
    tcp_server-serves config 40 5 4 80 8 conn_of no_fds (λ fd. (refl, refl)) refl refl refl
      (omega (arith, one_thread)) (omega (arith, room_for_three))

abbrev hooked : Hooked
hooked = record {
  server = TcpServer.tcp_server;
  loop = no_fds;
  start_cb = some 50;
  end_cb = some 51;
  calls = [];
}

serve_client-clean_example :
    (Map.lookup 8 (serve_client 80 8 hooked).loop.epoll ≡ some epollin)
    × (Map.lookup 8 (serve_client 80 8 hooked).server.conns ≡ some 80)
    × IsConsistent (clean 80 8 (serve_client 80 8 hooked)).loop
    × (Map.lookup 8 (clean 80 8 (serve_client 80 8 hooked)).loop.epoll ≡ none)
    × (Map.lookup 8 (do_release (clean 80 8 (serve_client 80 8 hooked)).server).conns ≡ none)
    × ((do_release (clean 80 8 (serve_client 80 8 hooked)).server).deleted ≡ 80 ∷ [])
    × ((clean 80 8 (serve_client 80 8 hooked)).calls ≡ started 50 80 ∷ ended 51 80 ∷ [])
serve_client-clean_example = serve_client-clean 80 8 hooked (λ fd. (refl, refl)) refl (refl, refl)
