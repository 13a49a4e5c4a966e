-- ===== src/Reactor/TcpServer/Tests.antt =====
-- The theorems on the release of connections at a concrete server.
use ylars.Base.{◌≡◌, refl, false, [], ◌∷◌}
use ylars.Reactor.TcpServer.{
  outside, draining, TcpServer, tcp_server, increase_conn, decrease_conn, release_next, release_end,
  opens, closes, wakes, releases, Reachable, start, next,
}
use ylars.Reactor.TcpServer.Release.{IsAwake, Reachable-IsAwake, close_between}

-- Two connections are open, and one of them is closed.
abbrev opened : TcpServer
unfolding increase_conn
opened = increase_conn 8 80 (increase_conn 7 70 tcp_server)

opened-Reachable : Reachable opened
unfolding increase_conn
opened-Reachable =
    next (next start (opens 7 70 tcp_server)) (opens 8 80 (increase_conn 7 70 tcp_server))

Reachable-IsAwake_example : IsAwake opened
Reachable-IsAwake_example = Reachable-IsAwake opened opened-Reachable

-- The first connection was deleted and the queue found empty.
abbrev emptied : TcpServer
unfolding increase_conn decrease_conn release_next
emptied =
    release_next (release_next (record (decrease_conn 7 opened) { phase = draining }) (70 ∷ [])) []

emptied-Reachable : Reachable emptied
unfolding increase_conn decrease_conn release_next
emptied-Reachable =
    next
      (next
        (next (next opened-Reachable (closes 7 opened)) (wakes (decrease_conn 7 opened) refl refl))
        (releases (record (decrease_conn 7 opened) { phase = draining }) refl))
      (releases (release_next (record (decrease_conn 7 opened) { phase = draining }) (70 ∷ []))
        refl)

close_between_example :
    Reachable (release_end (decrease_conn 8 emptied))
    × ((release_end (decrease_conn 8 emptied)).rel_conns ≡ 80 ∷ [])
    × ((release_end (decrease_conn 8 emptied)).activated ≡ false)
    × ((release_end (decrease_conn 8 emptied)).phase ≡ outside)
unfolding emptied opened
close_between_example = close_between 8 emptied emptied-Reachable refl
