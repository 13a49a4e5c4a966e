-- ===== src/Reactor/TcpServer/Release.antt =====
-- Which closed connections are deleted, and when.
use ylars.Base.{
  ℕ, ◌+◌, ◌≡◌, ◌≢◌, refl, sym, ap, ◌∙◌, Bool, true, false, not, ◌||◌, Option-cases, inl, inr, List,
  [], ◌∷◌, ◌++◌, get_or_else, arith, append-nil, append_assoc,
}
use ylars.Base.Map
use ylars.Base.Map.{Map}
use ylars.Base.Refs.{count, count-append, count-erase}
use ylars.Reactor.TcpServer.{
  Phase, outside, draining, drained, TcpServer, increase_conn, decrease_conn, release_next,
  release_end, drain, do_release, Step, opens, closes, wakes, releases, ends, Reachable, start,
  next,
}

abbrev pub is_outside : Phase → Bool
is_outside outside = true
is_outside draining = false
is_outside drained = false

-- The flag is down exactly while a wake-up is pending, and one is while the server's thread releases.
abbrev pub IsAwake : TcpServer → Type 0
IsAwake s = (s.activated ≡ not s.isactivate) × ((is_outside s.phase || s.activated) ≡ true)

decrease_conn-IsAwake : (fd : ℕ) (s : TcpServer) → IsAwake s → IsAwake (decrease_conn fd s)
unfolding decrease_conn
decrease_conn-IsAwake fd s w = ground (arith, w.0, w.1)

release_next-IsAwake :
    (s : TcpServer) (l : List ℕ) → IsAwake s → s.phase ≡ draining → IsAwake (release_next s l)
unfolding release_next
release_next-IsAwake s [] w p = (w.0, sym (ap (λ q. is_outside q || s.activated) p) ∙ w.1)
release_next-IsAwake s (c ∷ l) w p = w

Step-IsAwake : {s s' : TcpServer} → Step s s' → IsAwake s → IsAwake s'
unfolding increase_conn release_end
Step-IsAwake (opens fd c s) w = w
Step-IsAwake (closes fd s) w = decrease_conn-IsAwake fd s w
Step-IsAwake (wakes s a p) w = (w.0, a)
Step-IsAwake (releases s p) w = release_next-IsAwake s s.rel_conns w p
Step-IsAwake (ends s p) w = (refl, refl)

-- Whatever the threads do and in whatever order, no closing finds the flag down without a wake-up that
-- is pending.
pub Reachable-IsAwake : (s : TcpServer) → Reachable s → IsAwake s
Reachable-IsAwake s start = (refl, refl)
Reachable-IsAwake s (next r t) = Step-IsAwake t (Reachable-IsAwake _ r)

drain_lem : (l : List ℕ) (s : TcpServer) → (drain l s).deleted ≡ s.deleted ++ l
unfolding drain release_next
drain_lem [] s = sym (append-nil s.deleted)
drain_lem (c ∷ l) s = drain_lem l (release_next s (c ∷ l)) ∙ append_assoc s.deleted (c ∷ []) l

drain-left : (l : List ℕ) (s : TcpServer) → s.rel_conns ≡ l → (drain l s).rel_conns ≡ []
unfolding drain release_next
drain-left [] s e = e
drain-left (c ∷ l) s e = drain-left l (release_next s (c ∷ l)) refl

drain-conns : (l : List ℕ) (s : TcpServer) → (drain l s).conns ≡ s.conns
unfolding drain release_next
drain-conns [] s = refl
drain-conns (c ∷ l) s = drain-conns l (release_next s (c ∷ l))

-- Where a wake-up is pending exactly if the flag is down, a closing leaves one pending, and the
-- release that follows, where nothing comes between its steps, deletes the connection and all that
-- waited before it.
pub close-release :
    (fd : ℕ) (s : TcpServer)
    → IsAwake s
    → ((decrease_conn fd s).activated ≡ true)
      × ((do_release (decrease_conn fd s)).rel_conns ≡ [])
      × ((do_release (decrease_conn fd s)).deleted
          ≡ s.deleted ++ (s.rel_conns ++ (get_or_else (Map.lookup fd s.conns) 0 ∷ [])))
      × ((do_release (decrease_conn fd s)).conns ≡ Map.erase fd s.conns)
      × ((do_release (decrease_conn fd s)).isactivate ≡ true)
unfolding do_release release_end decrease_conn
close-release fd s w =
    let s' : TcpServer = record (decrease_conn fd s) { phase = draining } in
    (
      ground (arith, w.0),
      drain-left s'.rel_conns s' refl,
      drain_lem s'.rel_conns s',
      drain-conns s'.rel_conns s',
      refl,
    )

-- A connection that is closed after the release loop has found the queue empty, and before the flag is
-- up again, is left in the queue with no wake-up pending.
pub close_between :
    (fd : ℕ) (s : TcpServer)
    → Reachable s
    → s.phase ≡ drained
    → Reachable (release_end (decrease_conn fd s))
      × ((release_end (decrease_conn fd s)).rel_conns
          ≡ s.rel_conns ++ (get_or_else (Map.lookup fd s.conns) 0 ∷ []))
      × ((release_end (decrease_conn fd s)).activated ≡ false)
      × ((release_end (decrease_conn fd s)).phase ≡ outside)
unfolding release_end decrease_conn
close_between fd s r p =
    (next (next r (closes fd s)) (ends (decrease_conn fd s) p), refl, refl, refl)

-- Where a connection is: in the table, in the queue, or deleted.
abbrev pub places : ℕ → TcpServer → ℕ
places c s = count c (Map.values s.conns) + count c s.rel_conns + count c s.deleted

not_null : (c : ℕ) → c ≢ 0 → count c (0 ∷ []) ≡ 0
not_null c nz = ground arith

-- A closing moves at most one entry of the table to the queue: every connection that is not the
-- null pointer is in as many places as before.
pub decrease_conn-places :
    (c fd : ℕ) (s : TcpServer)
    → Map.IsSorted s.conns
    → c ≢ 0
    → places c (decrease_conn fd s) ≡ places c s
unfolding decrease_conn
decrease_conn-places c fd s sorted nz =
    let moved = get_or_else (Map.lookup fd s.conns) 0 in
    let queue = count-append c s.rel_conns (moved ∷ []) in
    elim (Option-cases (Map.lookup fd s.conns)) [
      | inl e ↦
          let null : count c (moved ∷ []) ≡ 0 =
            ap (λ o. count c (get_or_else o 0 ∷ [])) e ∙ not_null c nz in
          let table = ap (λ m. count c (Map.values m)) (Map.erase_missing fd s.conns e) in
          omega arith
      | inr (r, e) ↦
          let one : count c (moved ∷ []) ≡ count c (r ∷ []) =
            ap (λ o. count c (get_or_else o 0 ∷ [])) e in
          let table = count-erase c fd r s.conns sorted e in omega arith
    ]

-- A release moves the queue to the deleted connections.
pub do_release-places : (c : ℕ) (s : TcpServer) → places c (do_release s) ≡ places c s
unfolding do_release release_end
do_release-places c s =
    let s' : TcpServer = record s { phase = draining } in
    omega (
      arith,
      ap (count c) (drain_lem s.rel_conns s'),
      ap (count c) (drain-left s.rel_conns s' refl),
      ap (λ m. count c (Map.values m)) (drain-conns s.rel_conns s'),
      count-append c s.deleted s.rel_conns,
    )
