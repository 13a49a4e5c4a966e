-- ===== src/Dns/Service/Books.antt =====
-- The book of subscriptions and the sets of the connections say the same.
use ylars.Base.{ℕ, ◌≡◌, true, not, ◌&&◌, List, [], ◌∷◌, some, arith, ◌==◌, Option-cases, inl, inr}
use ylars.Base.Map
use ylars.Base.Map.{Map, lookup-insert, lookup-erase}
use ylars.Base.NatSet
use ylars.Base.NatSet.{NatSet, contains-insert}
use ylars.Proto.{GetRouteRequest, pack}
use ylars.Dns.Subscribe.{SubscribeList, at, unsubscribe}
use ylars.Dns.Subscribe.Book.{is_booked, subscribe-is_booked, unsubscribe-is_booked}
use ylars.Dns.Service.{Dns, unsubscribe_all, clean_subscribe, note_request, get_req}

-- A descriptor is booked for a module exactly if its connection carries the module.
abbrev pub Agrees : Dns → Type 0
Agrees d = (m fd : ℕ) → is_booked m fd d.subscribers ≡ NatSet.contains m (at fd d.param)

unsubscribe_all-is_booked :
    (m fd fd' : ℕ) (mods : List ℕ) (s : SubscribeList)
    → is_booked m fd' (unsubscribe_all fd mods s)
      ≡ (not (fd == fd' && NatSet.contains m mods) && is_booked m fd' s)
unfolding unsubscribe_all
unsubscribe_all-is_booked m fd fd' [] s = ground arith
unsubscribe_all-is_booked m fd fd' (x ∷ mods) s = ground (
  arith,
  unsubscribe_all-is_booked m fd fd' mods (unsubscribe x fd s),
  unsubscribe-is_booked x fd m fd' s,
)

note_request-Agrees : (fd m : ℕ) (d : Dns) → Agrees d → Agrees (note_request fd m d)
unfolding note_request
note_request-Agrees fd m d a m' fd' = elim (Option-cases (Map.lookup fd d.param)) [
  | inl e ↦ rw (e, note_request) (a m' fd')
  | inr (mods, e) ↦ ground (
    arith,
    a m' fd',
    subscribe-is_booked m fd m' fd' d.subscribers,
    lookup-insert fd' fd (NatSet.insert m mods) d.param,
    contains-insert m' m mods,
  )
]

note_request-is_booked :
    (fd m : ℕ) (d : Dns)
    → Agrees d
    → Map.contains fd d.param ≡ true
    → is_booked m fd (note_request fd m d).subscribers ≡ true
unfolding note_request
note_request-is_booked fd m d a h =
    ground (arith, a m fd, subscribe-is_booked m fd m fd d.subscribers)

-- A request keeps the two in step, and leaves a connection that carries a set booked for what it asked
-- for.
pub get_req-Agrees :
    (fd : ℕ) (req : GetRouteRequest) (d : Dns)
    → Agrees d
    → Agrees (get_req fd req d).0
      × (Map.contains fd d.param ≡ true
          → is_booked (pack req.modid req.cmdid) fd (get_req fd req d).0.subscribers ≡ true)
unfolding get_req
get_req-Agrees fd req d a = (
  note_request-Agrees fd (pack req.modid req.cmdid) d a,
  note_request-is_booked fd (pack req.modid req.cmdid) d a,
)

-- The end of a connection takes exactly its own subscriptions away.
pub clean_subscribe-Agrees :
    (fd : ℕ) (d : Dns)
    → Agrees d
    → Map.contains fd d.param ≡ true
    → (d' : Dns) × (clean_subscribe fd d ≡ some d')
      × Agrees d'
      × ((m fd' : ℕ)
          → is_booked m fd' d'.subscribers ≡ (not (fd == fd') && is_booked m fd' d.subscribers))
unfolding clean_subscribe
clean_subscribe-Agrees fd d a h = elim (Option-cases (Map.lookup fd d.param)) [
  | inl e ↦ absurd (ground arith)
  | inr (mod_set, e) ↦ (
    record d {
      subscribers = unsubscribe_all fd mod_set d.subscribers;
      param = Map.erase fd d.param;
    },
    rw e,
    λ m fd'. ground (
      arith,
      a m fd',
      unsubscribe_all-is_booked m fd fd' mod_set d.subscribers,
      lookup-erase fd' fd d.param,
    ),
    λ m fd'. ground (arith, a m fd', unsubscribe_all-is_booked m fd fd' mod_set d.subscribers),
  )
]
