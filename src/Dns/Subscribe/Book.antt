-- ===== src/Dns/Subscribe/Book.antt =====
-- The book of subscriptions: what subscribe and unsubscribe do to it.
use ylars.Base.{
  ℕ, ◌≡◌, Bool, false, not, ◌&&◌, ◌||◌, [], arith, ◌==◌, if◌then◌else◌, All, Bool-cases, inl, inr,
}
use ylars.Base.Map
use ylars.Base.Map.{Map, lookup-insert, lookup-erase, All-lookup, All-insert, All-erase}
use ylars.Base.NatSet
use ylars.Base.NatSet.{NatSet, contains-insert, contains-erase, contains_empty, is_empty-insert}
use ylars.Dns.Subscribe.{SubscribeList, at, subscribe, unsubscribe}

-- Whether a descriptor is booked for a module.
abbrev pub is_booked : ℕ → ℕ → SubscribeList → Bool
is_booked mod' fd s = NatSet.contains fd (at mod' s.book_list)

at-insert :
    (j k : ℕ) (v : NatSet) (m : Map NatSet)
    → at j (Map.insert k v m) ≡ (if k == j then v else at j m)
at-insert j k v m = ground (arith, lookup-insert j k v m)

at-erase : (j k : ℕ) (m : Map NatSet) → at j (Map.erase k m) ≡ (if k == j then [] else at j m)
at-erase j k m = ground (arith, lookup-erase j k m)

-- Subscribing books exactly the one descriptor for the one module.
pub subscribe-is_booked :
    (mod' fd mod'' fd' : ℕ) (s : SubscribeList)
    → is_booked mod'' fd' (subscribe mod' fd s)
      ≡ ((mod' == mod'' && fd == fd') || is_booked mod'' fd' s)
unfolding subscribe
subscribe-is_booked mod' fd mod'' fd' s = ground (
  arith,
  lookup-insert mod'' mod' (NatSet.insert fd (at mod' s.book_list)) s.book_list,
  contains-insert fd' fd (at mod' s.book_list),
)

-- Unsubscribing takes exactly that away.
pub unsubscribe-is_booked :
    (mod' fd mod'' fd' : ℕ) (s : SubscribeList)
    → is_booked mod'' fd' (unsubscribe mod' fd s)
      ≡ (not (mod' == mod'' && fd == fd') && is_booked mod'' fd' s)
unfolding unsubscribe
unsubscribe-is_booked mod' fd mod'' fd' s = ground (
  arith,
  lookup-insert mod'' mod' (NatSet.erase fd (at mod' s.book_list)) s.book_list,
  lookup-erase mod'' mod' s.book_list,
  contains-erase fd' fd (at mod' s.book_list),
  contains_empty fd' (NatSet.erase fd (at mod' s.book_list)),
)

-- No module stands in the book without a subscriber.
abbrev pub NoEmpty : Map NatSet → Type 0
NoEmpty = All (λ e. NatSet.is_empty (e.1) ≡ false)

-- The book has no module without a subscriber after either operation.
pub subscribe-NoEmpty :
    (mod' fd : ℕ) (s : SubscribeList)
    → NoEmpty s.book_list
    → NoEmpty (subscribe mod' fd s).book_list
unfolding subscribe
subscribe-NoEmpty mod' fd s h =
    All-insert _ mod' _ s.book_list (is_empty-insert fd (at mod' s.book_list)) h

-- After a client has given a module up, every module still in the book has at least one subscriber.
pub unsubscribe-NoEmpty :
    (mod' fd : ℕ) (s : SubscribeList)
    → NoEmpty s.book_list
    → NoEmpty (unsubscribe mod' fd s).book_list
unfolding unsubscribe
unsubscribe-NoEmpty mod' fd s h = elim (Bool-cases (Map.contains mod' s.book_list)) [
  | inl e ↦ elim (Bool-cases (NatSet.is_empty (NatSet.erase fd (at mod' s.book_list)))) [
    | inl gone ↦ rw (e, unsubscribe, gone) (All-erase _ mod' s.book_list h)
    | inr left ↦ rw (e, unsubscribe, left) (All-insert _ mod' _ s.book_list left h)
  ]
  | inr e ↦ rw (e, unsubscribe) h
]
