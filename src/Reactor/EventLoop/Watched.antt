-- ===== src/Reactor/EventLoop/Watched.antt =====
-- What epoll watches is what the table of callbacks says.
use mathlib.Core.Option
use ylars.Base.{
  false, is_some, ==_refl, ℕ, Option, ◌≡◌, refl, sym, ap, ◌∙◌, true, false, Bool-cases,
  Option-cases, inl, inr, none, some, arith, if◌then◌else◌, ◌==◌,
}
use ylars.Base.Map
use ylars.Base.Map.{Map}
use ylars.Base.NatSet
use ylars.Reactor.EventLoop.{
  Opt, ctl_add, ctl_mod, is_mod, epoll_ctl, Mask, Callback, IoEvent, EventLoop, meets, union,
  without, is_zero, watch, no_event, set_callback, add_event, add_events, del_event, del_mask,
}

-- Of each descriptor, the set, the table and epoll say the same.
abbrev pub IsConsistent : EventLoop → Type 0
IsConsistent l =
    (fd : ℕ)
    → (NatSet.contains fd l.lfds ≡ Map.contains fd l.io_evns)
      × (Map.lookup fd l.epoll ≡ Option.map (λ e. e.mask) (Map.lookup fd l.io_evns))

-- The kernel takes what it is told where it watches a descriptor that is modified, and none that is added.
epoll_ctl_lem :
    (opt : Opt) (fd : ℕ) (events : Mask) (watched : Map Mask)
    → Map.contains fd watched ≡ is_mod opt
    → epoll_ctl opt fd events watched ≡ Map.insert fd events watched
unfolding epoll_ctl
epoll_ctl_lem ctl_add fd events watched e = rw e
epoll_ctl_lem ctl_mod fd events watched e = rw e

contains-epoll :
    (fd : ℕ) (l : EventLoop) → IsConsistent l → Map.contains fd l.epoll ≡ Map.contains fd l.io_evns
contains-epoll fd l h = ground (arith, (h fd).1)

watch-IsConsistent :
    (opt : Opt) (fd : ℕ) (ev : IoEvent) (l : EventLoop)
    → Map.contains fd l.epoll ≡ is_mod opt
    → IsConsistent l
    → IsConsistent (watch opt fd ev.mask ev l)
watch-IsConsistent opt fd ev l fits h k = elim (Bool-cases (fd == k)) [
  | inl e ↦
      rw
        (
          NatSet.contains-insert k fd l.lfds,
          Map.lookup-insert k fd ev l.io_evns,
          epoll_ctl_lem opt fd ev.mask l.epoll fits,
          Map.lookup-insert k fd ev.mask l.epoll,
          e,
        )
        (refl, refl)
  | inr e ↦
      rw
        (
          NatSet.contains-insert k fd l.lfds,
          Map.lookup-insert k fd ev l.io_evns,
          epoll_ctl_lem opt fd ev.mask l.epoll fits,
          Map.lookup-insert k fd ev.mask l.epoll,
          e,
        )
        (h k)
]

set_callback-IsConsistent :
    (opt : Opt) (fd : ℕ) (mask setmask : Mask) (cb : Callback) (old : IoEvent) (l : EventLoop)
    → Map.contains fd l.epoll ≡ is_mod opt
    → IsConsistent l
    → IsConsistent (set_callback opt fd mask setmask cb old l)
unfolding set_callback
set_callback-IsConsistent opt fd mask setmask cb old l fits h = elim (Bool-cases mask.epollin) [
  | inl i ↦
      rw i (watch-IsConsistent opt fd (record old { mask = setmask; read_cb = some cb }) l fits h)
  | inr i ↦ elim (Bool-cases mask.epollout) [
    | inl o ↦
        rw (i, o)
          (watch-IsConsistent opt fd (record old { mask = setmask; write_cb = some cb }) l fits h)
    | inr o ↦ rw (i, o) h
  ]
]

pub add_event-IsConsistent :
    (fd : ℕ) (mask : Mask) (cb : Callback) (l : EventLoop)
    → IsConsistent l
    → IsConsistent (add_event fd mask cb l)
unfolding add_event
add_event-IsConsistent fd mask cb l h = elim (Option-cases (Map.lookup fd l.io_evns)) [
  | inl e ↦
      rw (e, add_event)
        (set_callback-IsConsistent ctl_add fd mask mask cb no_event l
          (contains-epoll fd l h ∙ ap is_some e) h)
  | inr (old, e) ↦ elim (Bool-cases (meets old.mask mask)) [
    | inl m ↦ rw (e, add_event, m) h
    | inr m ↦
        rw (e, add_event, m)
          (set_callback-IsConsistent ctl_mod fd mask (union old.mask mask) cb old l
            (contains-epoll fd l h ∙ ap is_some e) h)
  ]
]

pub del_event-IsConsistent :
    (fd : ℕ) (l : EventLoop) → IsConsistent l → IsConsistent (del_event fd l)
unfolding del_event
del_event-IsConsistent fd l h k = elim (Bool-cases (fd == k)) [
  | inl e ↦
      rw
        (
          NatSet.contains-erase k fd l.lfds,
          Map.lookup-erase k fd l.io_evns,
          Map.lookup-erase k fd l.epoll,
          e,
        )
        (refl, refl)
  | inr e ↦
      rw
        (
          NatSet.contains-erase k fd l.lfds,
          Map.lookup-erase k fd l.io_evns,
          Map.lookup-erase k fd l.epoll,
          e,
        )
        (h k)
]

-- The mask that a descriptor is watched for when more is asked for: a request that meets what is watched
-- already changes nothing.
abbrev pub watched : Option IoEvent → Mask → Mask
watched none mask = mask
watched (some old) mask = if meets old.mask mask then old.mask else union old.mask mask

set_callback-epoll :
    (opt : Opt) (fd k : ℕ) (mask setmask : Mask) (cb : Callback) (old : IoEvent) (l : EventLoop)
    → Map.contains fd l.epoll ≡ is_mod opt
    → is_zero mask ≡ false
    → Map.lookup k (set_callback opt fd mask setmask cb old l).epoll
      ≡ (if fd == k then some setmask else Map.lookup k l.epoll)
unfolding set_callback
set_callback-epoll opt fd k mask setmask cb old l fits z =
    ground
      (arith, epoll_ctl_lem opt fd setmask l.epoll fits, Map.lookup-insert k fd setmask l.epoll)

add_event-epoll :
    (fd k : ℕ) (mask : Mask) (cb : Callback) (l : EventLoop)
    → IsConsistent l
    → is_zero mask ≡ false
    → Map.lookup k (add_event fd mask cb l).epoll
      ≡ (if fd == k then some (watched (Map.lookup fd l.io_evns) mask) else Map.lookup k l.epoll)
unfolding add_event
add_event-epoll fd k mask cb l h z = elim (Option-cases (Map.lookup fd l.io_evns)) [
  | inl e ↦
      rw (e, add_event)
        (set_callback-epoll ctl_add fd k mask mask cb no_event l
          (contains-epoll fd l h ∙ ap is_some e) z)
  | inr (old, e) ↦ elim (Bool-cases (meets old.mask mask)) [
    | inl m ↦ elim (Bool-cases (fd == k)) [
      | inl q ↦
          let same : fd ≡ k = ground arith in
          rw (e, add_event, m, q, sym same) ((h fd).1 ∙ ap (Option.map (λ ev. ev.mask)) e)
      | inr q ↦ rw (e, add_event, m, q)
    ]
    | inr m ↦
        rw (e, add_event, m)
          (set_callback-epoll ctl_mod fd k mask (union old.mask mask) cb old l
            (contains-epoll fd l h ∙ ap is_some e) z)
  ]
]

-- Where the set, the table and epoll agree, and the request is for some kind of event, they agree
-- after add_event; the descriptor is watched for what was asked and what it was watched for
-- before, if the request did not meet that, and other descriptors are watched as before.
pub add_event_lem :
    (fd k : ℕ) (mask : Mask) (cb : Callback) (l : EventLoop)
    → IsConsistent l
    → is_zero mask ≡ false
    → IsConsistent (add_event fd mask cb l)
      × (Map.lookup k (add_event fd mask cb l).epoll ≡ (
          if fd == k then some (watched (Map.lookup fd l.io_evns) mask) else Map.lookup k l.epoll))
add_event_lem fd k mask cb l h z =
    (add_event-IsConsistent fd mask cb l h, add_event-epoll fd k mask cb l h z)

less-IsConsistent :
    (fd : ℕ) (ev : IoEvent) (l : EventLoop)
    → IsConsistent l
    → NatSet.contains fd l.lfds ≡ true
    → IsConsistent (record l {
      io_evns = Map.insert fd ev l.io_evns;
      epoll = epoll_ctl ctl_mod fd ev.mask l.epoll;
    })
less-IsConsistent fd ev l h there k =
    let fits : Map.contains fd l.epoll ≡ true = contains-epoll fd l h ∙ sym ((h fd).0) ∙ there in
    elim (Bool-cases (fd == k)) [
      | inl q ↦
          let same : fd ≡ k = ground arith in
          rw
            (
              Map.lookup-insert k fd ev l.io_evns,
              epoll_ctl_lem ctl_mod fd ev.mask l.epoll fits,
              Map.lookup-insert k fd ev.mask l.epoll,
              q,
              sym same,
            )
            (there, refl)
      | inr q ↦
          rw
            (
              Map.lookup-insert k fd ev l.io_evns,
              epoll_ctl_lem ctl_mod fd ev.mask l.epoll fits,
              Map.lookup-insert k fd ev.mask l.epoll,
              q,
            )
            (h k)
    ]

-- Where the set, the table and epoll agree and the descriptor is registered, taking a kind of
-- event away meets no fault and leaves them agreeing; with the last kind the descriptor leaves
-- epoll.
pub del_mask_lem :
    (fd : ℕ) (mask : Mask) (ev : IoEvent) (l : EventLoop)
    → IsConsistent l
    → Map.lookup fd l.io_evns ≡ some ev
    → (l' : EventLoop) × (del_mask fd mask l ≡ some l')
      × IsConsistent l'
      × (Map.lookup fd l'.epoll
          ≡ (if is_zero (without ev.mask mask) then none else some (without ev.mask mask)))
unfolding del_mask del_event
del_mask_lem fd mask ev l h e =
    let there : NatSet.contains fd l.lfds ≡ true = (h fd).0 ∙ ap is_some e in
    let left : Mask = without ev.mask mask in
    elim (Bool-cases (is_zero left)) [
      | inl z ↦ (
        del_event fd l,
        rw (e, z),
        del_event-IsConsistent fd l h,
        rw (z, Map.lookup-erase fd fd l.epoll, ==_refl fd),
      )
      | inr z ↦ (
        record l {
          io_evns = Map.insert fd (record ev { mask = left }) l.io_evns;
          epoll = epoll_ctl ctl_mod fd left l.epoll;
        },
        rw (e, z, there),
        less-IsConsistent fd (record ev { mask = left }) l h there,
        rw (
          z,
          epoll_ctl_lem ctl_mod fd left l.epoll (contains-epoll fd l h ∙ ap is_some e),
          Map.lookup-insert_self fd left l.epoll,
        ),
      )
    ]

-- A second request for what is watched already changes nothing.
second :
    (fd : ℕ) (mask : Mask) (cb : Callback) (ev : IoEvent) (l : EventLoop)
    → meets ev.mask mask ≡ true
    → Map.lookup fd (add_event fd mask cb (watch ctl_add fd ev.mask ev l)).io_evns ≡ some ev
unfolding add_event
second fd mask cb ev l m =
    let entry = Map.lookup-insert_self fd ev l.io_evns in rw (entry, add_event, m) entry

-- Of a descriptor that is not registered yet the overload with two callbacks registers one: the
-- second call finds the mask met. Where the mask has EPOLLIN, the write callback is not
-- registered, whatever else the mask has.
pub add_events_lem :
    (fd : ℕ) (mask : Mask) (rcb wcb : Callback) (l : EventLoop)
    → Map.lookup fd l.io_evns ≡ none
    → is_zero mask ≡ false
    → Map.lookup fd (add_events fd mask rcb wcb l).io_evns
      ≡ some (
          if mask.epollin
          then record { mask = mask; read_cb = some rcb; write_cb = none }
          else record { mask = mask; read_cb = none; write_cb = some rcb })
unfolding add_events add_event set_callback
add_events_lem fd mask rcb wcb l e z =
    let reads : IoEvent = record { mask = mask; read_cb = some rcb; write_cb = none } in
    let writes : IoEvent = record { mask = mask; read_cb = none; write_cb = some rcb } in
    elim (Bool-cases mask.epollin) [
      | inl i ↦
          let first : add_event fd mask rcb l ≡ watch ctl_add fd mask reads l =
            rw (e, add_event, i) in
          ap (λ l'. Map.lookup fd (add_event fd mask wcb l').io_evns) first
          ∙ second fd mask wcb reads l (ground arith)
          ∙ sym (ap (λ b. some (if b then reads else writes)) i)
      | inr i ↦
          let o : mask.epollout ≡ true = ground arith in
          let first : add_event fd mask rcb l ≡ watch ctl_add fd mask writes l =
            rw (e, add_event, i, o) in
          ap (λ l'. Map.lookup fd (add_event fd mask wcb l').io_evns) first
          ∙ second fd mask wcb writes l (ground arith)
          ∙ sym (ap (λ b. some (if b then reads else writes)) i)
    ]
