-- ===== src/Reactor/TcpServer.antt =====
-- reactor/src/tcp_server.cpp: the connections of a server, and those that wait to be deleted. Any thread
-- closes a connection; the server's thread deletes them when the eventfd wakes it. Each part of a
-- function that holds the mutex is one step. A connection is a number, the null pointer is 0.
pub mod Release
mod Tests
use ylars.Base.{
  ℕ, ◌+◌, Bool, true, false, List, [], ◌∷◌, ◌++◌, Option, none, some, get_or_else, if◌then◌else◌,
  ◌≡◌,
}
use ylars.Base.Map
use ylars.Base.Map.{Map}

-- Where the server's thread stands: outside do_release, in its loop, or past it.
pub data Phase : Type 0 where
  outside draining drained : Phase

-- `activated` while the eventfd holds a count that was not read; `deleted` are the connections that
-- delete was called for.
pub record TcpServer : Type 0 where
  pub conns : Map ℕ
  pub rel_conns : List ℕ
  pub isactivate : Bool
  pub activated : Bool
  pub phase : Phase
  pub deleted : List ℕ

abbrev pub tcp_server : TcpServer
tcp_server = record {
  conns = [];
  rel_conns = [];
  isactivate = true;
  activated = false;
  phase = outside;
  deleted = [];
}

unfoldable pub increase_conn : ℕ → ℕ → TcpServer → TcpServer
increase_conn connfd conn s = record s { conns = Map.insert connfd conn s.conns }

-- conns[connfd] of a missing descriptor is a null pointer, which erase takes away again.
unfoldable pub decrease_conn : ℕ → TcpServer → TcpServer
decrease_conn connfd s = record s {
  conns = Map.erase connfd s.conns;
  rel_conns = s.rel_conns ++ (get_or_else (Map.lookup connfd s.conns) 0 ∷ []);
  isactivate = false;
  activated = if s.isactivate then true else s.activated;
}

-- One turn of the loop of do_release, and what follows the loop.
unfoldable pub release_next : TcpServer → List ℕ → TcpServer
release_next s [] = record s { phase = drained }
release_next s (conn ∷ rest) = record s { rel_conns = rest; deleted = s.deleted ++ (conn ∷ []) }

unfoldable pub release_end : TcpServer → TcpServer
release_end s = record s { activated = false; isactivate = true; phase = outside }

-- do_release when no other thread comes between its steps: the turns of the loop, then the end.
unfoldable pub drain : List ℕ → TcpServer → TcpServer
drain [] s = release_next s []
drain (conn ∷ rest) s = drain rest (release_next s (conn ∷ rest))

unfoldable pub do_release : TcpServer → TcpServer
do_release s = release_end (drain s.rel_conns (record s { phase = draining }))

-- The steps of all threads.
pub data Step : TcpServer → TcpServer → Type 0 where
  opens : (connfd conn : ℕ) (s : TcpServer) → Step s (increase_conn connfd conn s)
  closes : (connfd : ℕ) (s : TcpServer) → Step s (decrease_conn connfd s)
  wakes :
      (s : TcpServer)
      → s.activated ≡ true
      → s.phase ≡ outside
      → Step s (record s { phase = draining })
  releases : (s : TcpServer) → s.phase ≡ draining → Step s (release_next s s.rel_conns)
  ends : (s : TcpServer) → s.phase ≡ drained → Step s (release_end s)

pub data Reachable : TcpServer → Type 0 where
  start : Reachable tcp_server
  next : {s s' : TcpServer} → Reachable s → Step s s' → Reachable s'
