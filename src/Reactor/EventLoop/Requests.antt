-- ===== src/Reactor/EventLoop/Requests.antt =====
-- Every history of requests to an event loop.
use ylars.Base.{ℕ, ◌≡◌, refl, ◌⊎◌, inl, inr, List, [], ◌∷◌, Option, none, some, ◌>>=◌, Option-cases}
use ylars.Base.Map
use ylars.Reactor.EventLoop.{Mask, Callback, EventLoop, add_event, add_events, del_event, del_mask}
use ylars.Reactor.EventLoop.Watched.{
  IsConsistent, add_event-IsConsistent, del_event-IsConsistent, del_mask_lem,
}

pub data Request : Type 0 where
  adds : ℕ → Mask → Callback → Request
  adds_two : ℕ → Mask → Callback → Callback → Request
  drops : ℕ → Request
  drops_mask : ℕ → Mask → Request

abbrev pub apply : Request → EventLoop → Option EventLoop
apply (adds fd mask cb) l = some (add_event fd mask cb l)
apply (adds_two fd mask rcb wcb) l = some (add_events fd mask rcb wcb l)
apply (drops fd) l = some (del_event fd l)
apply (drops_mask fd mask) l = del_mask fd mask l

unfoldable pub apply_all : List Request → EventLoop → Option EventLoop
apply_all [] l = some l
apply_all (r ∷ rs) l = apply r l >>= apply_all rs

-- After some of the requests, one takes a kind of event away from a descriptor that is not registered.
abbrev pub StopsAt : List Request → EventLoop → Type 0
StopsAt [] l = ⊥
StopsAt (r ∷ rs) l =
    ((fd : ℕ) × (mask : Mask) × (r ≡ drops_mask fd mask) × (Map.lookup fd l.io_evns ≡ none))
    ⊎ ((l' : EventLoop) × (apply r l ≡ some l') × StopsAt rs l')

-- What becomes of a list of requests.
abbrev pub Outcome : List Request → EventLoop → Type 0
Outcome rs l =
    ((end : EventLoop) × (apply_all rs l ≡ some end) × IsConsistent end)
    ⊎ ((apply_all rs l ≡ none) × StopsAt rs l)

goes_on :
    (r : Request) (rs : List Request) (l l' : EventLoop)
    → apply r l ≡ some l'
    → Outcome rs l'
    → Outcome (r ∷ rs) l
unfolding apply_all
goes_on r rs l l' e (inl (end, ran, ok)) = inl (end, rw e ran, ok)
goes_on r rs l l' e (inr (ran, stops)) = inr (rw e ran, inr (l', e, stops))

del_mask-none :
    (fd : ℕ) (mask : Mask) (l : EventLoop)
    → Map.lookup fd l.io_evns ≡ none
    → del_mask fd mask l ≡ none
unfolding del_mask
del_mask-none fd mask l e = rw e

-- From a loop whose set, table and epoll agree, every list of requests leaves them agreeing, unless one
-- of the requests takes a kind of event away from a descriptor that is then not registered, which is a
-- fault.
pub apply_all-Outcome : (rs : List Request) (l : EventLoop) → IsConsistent l → Outcome rs l
unfolding apply_all add_events
apply_all-Outcome [] l h = inl (l, refl, h)
apply_all-Outcome (adds fd mask cb ∷ rs) l h =
    goes_on (adds fd mask cb) rs l (add_event fd mask cb l) refl
      (apply_all-Outcome rs (add_event fd mask cb l) (add_event-IsConsistent fd mask cb l h))
apply_all-Outcome (adds_two fd mask rcb wcb ∷ rs) l h =
    let first = add_event-IsConsistent fd mask rcb l h in
    let both = add_event-IsConsistent fd mask wcb (add_event fd mask rcb l) first in
    goes_on (adds_two fd mask rcb wcb) rs l (add_events fd mask rcb wcb l) refl
      (apply_all-Outcome rs (add_events fd mask rcb wcb l) both)
apply_all-Outcome (drops fd ∷ rs) l h =
    goes_on (drops fd) rs l (del_event fd l) refl
      (apply_all-Outcome rs (del_event fd l) (del_event-IsConsistent fd l h))
apply_all-Outcome (drops_mask fd mask ∷ rs) l h = elim (Option-cases (Map.lookup fd l.io_evns)) [
  | inl e ↦ let fault = del_mask-none fd mask l e in inr (rw fault, inl (fd, mask, refl, e))
  | inr (ev, e) ↦
      let (l', ran, ok, left) = del_mask_lem fd mask ev l h e in
      goes_on (drops_mask fd mask) rs l l' ran (apply_all-Outcome rs l' ok)
]
