-- ===== src/Agent/Clients/Tasks.antt =====
-- What becomes of the tasks on the wire.
use ylars.Base.{
  ℕ, ◌+◌, ◌*◌, ◌≤◌, ◌<◌, ◌≡◌, refl, sym, ap, ◌∙◌, true, List, [], ◌∷◌, ◌++◌, some, map, arith, All,
  length, length-append, append-nil, append_assoc,
}
use ylars.Proto.{GetRouteRequest, id_get_route_request}
use ylars.Reactor.BufPool.{max_buf_pool_cap}
use ylars.Reactor.ReactorBuf.Growth.{held}
use ylars.Reactor.Message.Frames.{encode, encode_all, Fits, next, Next}
use ylars.Reactor.Message.Stream.{reads, delivered, flat, reads-encode_all}
use ylars.Reactor.TcpConn.Writing.{IsConn, send_msg-grown}
use ylars.Reactor.TcpClient.{TcpClient, send_msg}
use ylars.Reactor.Udp.Transfer.{length-encode}
use ylars.Agent.Server.{Agent}
use ylars.Agent.Clients.{send_tasks, dns_task}

-- Messages with data.
abbrev pub HasBody : ℕ × List ℕ → Type 0
HasBody m = 0 < length m.1

send_tasks-held :
    (junk : ℕ → ℕ) (msgs : List (ℕ × List ℕ)) (c : TcpClient)
    → IsConn c.conn
    → All HasBody msgs
    → length (encode_all msgs) + length (held c.conn.obuf) ≤ 16777216
    → c.conn.pool.curr_cap + 32768 * length msgs ≤ max_buf_pool_cap
    → (c' : TcpClient) × (send_tasks junk msgs c ≡ some c')
      × IsConn c'.conn
      × (held c'.conn.obuf ≡ held c.conn.obuf ++ encode_all msgs)
unfolding send_tasks encode_all send_msg
send_tasks-held junk [] c w b h room = (c, refl, w, sym (append-nil (held c.conn.obuf)))
send_tasks-held junk ((msgid, []) ∷ msgs) c w b h room = absurd (omega (arith, b.0))
send_tasks-held junk ((msgid, d ∷ ds) ∷ msgs) c w b h room =
    let m : ℕ × List ℕ = (msgid, d ∷ ds) in
    let size = length-append (encode m) (encode_all msgs) in
    let size' = length-encode m in
    let (conn, sent, w', out, bytes, grown) =
      send_msg-grown junk msgid d ds c.conn w (omega arith) (omega arith) in
    let size'' = length-append (held c.conn.obuf) (encode m) in
    let len = ap length bytes in
    let (c', ran, w'', all) =
      send_tasks-held junk msgs (record c { conn = conn }) w' b.1 (omega arith) (omega arith) in
    (
      c',
      rw sent ran,
      w'',
      all
          ∙ ap (λ l. l ++ encode_all msgs) bytes
          ∙ append_assoc (held c.conn.obuf) (encode m) (encode_all msgs),
    )

abbrev pub asks : (GetRouteRequest → List ℕ) → Agent → List (ℕ × List ℕ)
asks write a = map (λ q. (id_get_route_request, write q)) a.dns_queue

-- An agent whose queue for the DNS service holds tasks, and a client with nothing left to write and
-- room in its pool: dns_task_cb empties the queue, and when what then waits in the buffer of the client
-- has reached the service, cut into whatever pieces, with less than a message behind it, the service has
-- been handed just these requests, in their order. Each request has data, and their total is 16M at
-- most.
pub dns_task-delivered :
    (write : GetRouteRequest → List ℕ) (junk : ℕ → ℕ) (limit : ℕ) (a : Agent) (c : TcpClient)
    → IsConn c.conn
    → held c.conn.obuf ≡ []
    → limit < 2147483648
    → All HasBody (asks write a)
    → All (Fits limit) (asks write a)
    → length (encode_all (asks write a)) ≤ 16777216
    → c.conn.pool.curr_cap + 32768 * length (asks write a) ≤ max_buf_pool_cap
    → (a' : Agent) × (c' : TcpClient) × (dns_task write junk a c ≡ some (a', c'))
      × (a'.dns_queue ≡ [])
      × ((pieces : List (List ℕ)) (tail : List ℕ)
          → next limit tail ≡ Next.wait
          → flat pieces ≡ held c'.conn.obuf ++ tail
          → delivered (reads limit (length (flat pieces)) [] pieces) ≡ (asks write a, true))
unfolding dns_task
dns_task-delivered write junk limit a c w e l b fits h room =
    let total : length (encode_all (asks write a)) + length (held c.conn.obuf) ≤ 16777216 =
      omega (arith, h, ap length e) in
    let (c', ran, w', all) = send_tasks-held junk (asks write a) c w b total room in
    let only : held c'.conn.obuf ≡ encode_all (asks write a) =
      all ∙ ap (λ l. l ++ encode_all (asks write a)) e in
    (
      record a { dns_queue = [] },
      c',
      rw ran,
      refl,
      λ pieces tail t same.
          reads-encode_all limit (asks write a) pieces tail l fits t
            (same ∙ ap (λ l. l ++ tail) only),
    )
