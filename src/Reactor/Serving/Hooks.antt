-- ===== src/Reactor/Serving/Hooks.antt =====
-- The hooks of reactor/src/tcp_server.cpp, and what the constructor and clean of src/tcp_conn.cpp do
-- outside the buffers: the event loop, the hooks and the table of connections, from the moment a client
-- is accepted until its object is deleted.
use ylars.Base.{
  ℕ, ◌≡◌, refl, ap, ◌∙◌, List, [], ◌∷◌, ◌++◌, Option, none, some, ==_refl, get_or_else,
  append_assoc,
}
use ylars.Base.Map
use ylars.Base.Map.{lookup-insert_self, lookup-erase}
use ylars.Reactor.EventLoop.{EventLoop, add_event, del_event}
use ylars.Reactor.EventLoop.Watched.{IsConsistent, add_event_lem, del_event-IsConsistent}
use ylars.Reactor.TcpServer.{TcpServer, increase_conn, decrease_conn, do_release}
use ylars.Reactor.TcpServer.Release.{IsAwake, close-release}
use ylars.Reactor.Serving.Start.{epollin}

-- A hook that was called, and the connection it was called with.
pub data HookCall : Type 0 where
  started ended : ℕ → ℕ → HookCall

-- A null hook is `none`.
pub record Hooked : Type 0 where
  pub server : TcpServer
  pub loop : EventLoop
  pub start_cb : Option ℕ
  pub end_cb : Option ℕ
  pub calls : List HookCall

unfoldable pub register_conn_start : Option ℕ → Hooked → Hooked
register_conn_start cb s = record s { start_cb = cb }

unfoldable pub register_conn_end : Option ℕ → Hooked → Hooked
register_conn_end cb s = record s { end_cb = cb }

abbrev pub call : (ℕ → ℕ → HookCall) → Option ℕ → ℕ → List HookCall
call hook none conn = []
call hook (some cb) conn = hook cb conn ∷ []

unfoldable pub start_hook_call : ℕ → Hooked → Hooked
start_hook_call conn s = record s { calls = s.calls ++ call started s.start_cb conn }

unfoldable pub end_hook_call : ℕ → Hooked → Hooked
end_hook_call conn s = record s { calls = s.calls ++ call ended s.end_cb conn }

-- tcp_ser_read_cb.
abbrev pub read_cb : ℕ
read_cb = 2

-- The constructor; the options of the socket are not modelled.
unfoldable pub tcp_conn : ℕ → ℕ → Hooked → Hooked
unfolding start_hook_call
tcp_conn conn fd s =
    start_hook_call conn (record s { loop = add_event fd epollin (read_cb, conn) s.loop })

-- A client that do_accept or deal_task serves: the object first, then the table.
unfoldable pub serve_client : ℕ → ℕ → Hooked → Hooked
unfolding tcp_conn
serve_client conn fd s =
    let s' = tcp_conn conn fd s in record s' { server = increase_conn fd conn s'.server }

-- clean without the buffers, of a connection whose descriptor is above 0.
unfoldable pub clean : ℕ → ℕ → Hooked → Hooked
unfolding end_hook_call
clean conn fd s =
    let s' = end_hook_call conn s in
    record s' { loop = del_event fd s'.loop; server = decrease_conn fd s'.server }

-- A client is accepted with a descriptor that its event loop does not hold, closed, and the server wakes
-- up, with nothing in between, where the tables of the loop agree and a wake-up was pending exactly if the
-- flag was down: in the meantime the loop watches the descriptor for reading and the table has the
-- connection; afterwards the loop, whose tables agree, watches it no more, the table has lost it, the
-- object is deleted behind those that waited before, and the hooks that are set were called, the start
-- hook and then the end hook, once each, with this connection.
pub serve_client-clean :
    (conn fd : ℕ) (s : Hooked)
    → IsConsistent s.loop
    → Map.lookup fd s.loop.io_evns ≡ none
    → IsAwake s.server
    → (Map.lookup fd (serve_client conn fd s).loop.epoll ≡ some epollin)
      × (Map.lookup fd (serve_client conn fd s).server.conns ≡ some conn)
      × IsConsistent (clean conn fd (serve_client conn fd s)).loop
      × (Map.lookup fd (clean conn fd (serve_client conn fd s)).loop.epoll ≡ none)
      × (Map.lookup fd (do_release (clean conn fd (serve_client conn fd s)).server).conns ≡ none)
      × ((do_release (clean conn fd (serve_client conn fd s)).server).deleted
          ≡ s.server.deleted ++ (s.server.rel_conns ++ (conn ∷ [])))
      × ((clean conn fd (serve_client conn fd s)).calls
          ≡ s.calls ++ (call started s.start_cb conn ++ call ended s.end_cb conn))
unfolding serve_client tcp_conn start_hook_call end_hook_call clean increase_conn del_event
serve_client-clean conn fd s ok free awake =
    let opened = increase_conn fd conn s.server in
    let (ok', watched) = add_event_lem fd fd epollin (read_cb, conn) s.loop ok refl in
    let filed = lookup-insert_self fd conn s.server.conns in
    let (pending, left, deleted, conns, flag) = close-release fd opened awake in
    (
      watched ∙ rw (==_refl fd, free),
      filed,
      del_event-IsConsistent fd (add_event fd epollin (read_cb, conn) s.loop) ok',
      lookup-erase fd fd (add_event fd epollin (read_cb, conn) s.loop).epoll ∙ rw (==_refl fd),
      ap (Map.lookup fd) conns ∙ lookup-erase fd fd opened.conns ∙ rw (==_refl fd),
      deleted ∙ ap (λ c. s.server.deleted ++ (s.server.rel_conns ++ (get_or_else c 0 ∷ []))) filed,
      append_assoc s.calls (call started s.start_cb conn) (call ended s.end_cb conn),
    )
