-- ===== src/Dns/Subscribe/Publish.antt =====
-- What is published, and to whom: publish fills the list of pending tasks, and each thread takes those of
-- its own descriptors.
use ylars.Base.{
  ℕ, ◌≡◌, refl, Bool, not, ◌&&◌, ◌||◌, List, [], ◌∷◌, arith, ◌==◌, ==_iff, if◌then◌else◌,
  Bool-cases, inl, inr,
}
use ylars.Base.Map
use ylars.Base.Map.{Map, lookup-insert, lookup-erase}
use ylars.Base.NatSet
use ylars.Base.NatSet.{NatSet, contains-insert}
use ylars.Dns.Subscribe.{
  SubscribeList, at, push_mod, push_mods, publish, take_fds, make_publish_map,
}
use ylars.Dns.Subscribe.Book.{is_booked}

-- Whether a module waits to be published to a descriptor.
abbrev pub is_pending : ℕ → ℕ → SubscribeList → Bool
is_pending fd mod' s = NatSet.contains mod' (at fd s.push_list)

push_mod-at :
    (fd m mod' : ℕ) (fds : List ℕ) (push : Map NatSet)
    → NatSet.contains m (at fd (push_mod mod' fds push))
      ≡ ((mod' == m && NatSet.contains fd fds) || NatSet.contains m (at fd push))
unfolding push_mod
push_mod-at fd m mod' [] push = ground arith
push_mod-at fd m mod' (x ∷ fds) push = ground (
  arith,
  push_mod-at fd m mod' fds (Map.insert x (NatSet.insert mod' (at x push)) push),
  lookup-insert fd x (NatSet.insert mod' (at x push)) push,
  contains-insert m mod' (at x push),
)

push_mods-at :
    (fd m : ℕ) (book : Map NatSet) (mods : List ℕ) (push : Map NatSet)
    → NatSet.contains m (at fd (push_mods book mods push)) ≡ (
        (NatSet.contains m mods && NatSet.contains fd (at m book))
        || NatSet.contains m (at fd push))
unfolding push_mods
push_mods-at fd m book [] push = refl
push_mods-at fd m book (x ∷ mods) push = elim (Bool-cases (x == m)) [
  | inl hit ↦ rw ((==_iff x m).0 hit) (
      ground (
        arith,
        push_mods-at fd m book mods
            (if Map.contains m book then push_mod m (at m book) push else push),
        push_mod-at fd m m (at m book) push,
      ))
  | inr miss ↦ ground (
    arith,
    push_mods-at fd m book mods (if Map.contains x book then push_mod x (at x book) push else push),
    push_mod-at fd m x (at x book) push,
  )
]

-- After publishing, a module waits for a descriptor exactly if it did before, or it changed and the
-- descriptor is booked for it.
pub publish-is_pending :
    (fd mod' : ℕ) (change_mods : List ℕ) (s : SubscribeList)
    → is_pending fd mod' (publish change_mods s)
      ≡ ((NatSet.contains mod' change_mods && is_booked mod' fd s) || is_pending fd mod' s)
unfolding publish
publish-is_pending fd mod' change_mods s = push_mods-at fd mod' s.book_list change_mods s.push_list

take_fds-left :
    (fd : ℕ) (fds : List ℕ) (push need : Map NatSet)
    → at fd (take_fds fds push need).0 ≡ (if NatSet.contains fd fds then [] else at fd push)
unfolding take_fds
take_fds-left fd [] push need = refl
take_fds-left fd (x ∷ fds) push need = ground (
  arith,
  take_fds-left fd fds (if Map.contains x push then Map.erase x push else push)
      (if Map.contains x push then Map.insert x (at x push) need else need),
  lookup-erase fd x push,
)

take_fds-taken :
    (fd : ℕ) (fds : List ℕ) (push need : Map NatSet)
    → at fd (take_fds fds push need).1
      ≡ (if NatSet.contains fd fds && Map.contains fd push then at fd push else at fd need)
unfolding take_fds
take_fds-taken fd [] push need = refl
take_fds-taken fd (x ∷ fds) push need = elim (Bool-cases (x == fd)) [
  | inl hit ↦ rw ((==_iff x fd).0 hit) (
      ground (
        arith,
        take_fds-taken fd fds (if Map.contains fd push then Map.erase fd push else push)
            (if Map.contains fd push then Map.insert fd (at fd push) need else need),
        lookup-erase fd fd push,
        lookup-insert fd fd (at fd push) need,
      ))
  | inr miss ↦ ground (
    arith,
    take_fds-taken fd fds (if Map.contains x push then Map.erase x push else push)
        (if Map.contains x push then Map.insert x (at x push) need else need),
    lookup-erase fd x push,
    lookup-insert fd x (at x push) need,
  )
]

-- A thread takes exactly what waits for its own descriptors, and leaves exactly the rest: a pending task
-- goes to one thread, once.
pub make_publish_map_lem :
    (fds : NatSet) (fd mod' : ℕ) (s : SubscribeList)
    → let (s', taken) = make_publish_map fds s in
      (NatSet.contains mod' (at fd taken) ≡ (NatSet.contains fd fds && is_pending fd mod' s))
      × (is_pending fd mod' s' ≡ (not (NatSet.contains fd fds) && is_pending fd mod' s))
unfolding make_publish_map
make_publish_map_lem fds fd mod' s = (
  ground (arith, take_fds-taken fd fds s.push_list []),
  ground (arith, take_fds-left fd fds s.push_list []),
)
