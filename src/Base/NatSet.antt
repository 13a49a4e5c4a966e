-- ===== src/Base/NatSet.antt =====
-- std::set of numbers: a rising list.
use ylars.Base.{
  ◌&&◌, ℕ, ◌<◌, ◌≡◌, refl, Bool, true, false, List, [], ◌∷◌, ◌++◌, ◌||◌, arith, ltb, ◌==◌,
  if◌then◌else◌,
}

abbrev pub NatSet : Type 0
NatSet = List ℕ

abbrev pub contains : ℕ → NatSet → Bool
contains a [] = false
contains a (x ∷ s) = if x == a then true else contains a s

abbrev pub insert : ℕ → NatSet → NatSet
insert a [] = a ∷ []
insert a (x ∷ s) = if x == a then x ∷ s else if ltb a x then a ∷ x ∷ s else x ∷ insert a s

abbrev pub erase : ℕ → NatSet → NatSet
erase a [] = []
erase a (x ∷ s) = if x == a then erase a s else x ∷ erase a s

abbrev pub is_empty : NatSet → Bool
is_empty [] = true
is_empty (x ∷ s) = false

abbrev pub Above : ℕ → NatSet → Type 0
Above lo [] = Unit {0}
Above lo (x ∷ s) = (lo < x) × Above x s

abbrev pub IsSorted : NatSet → Type 0
IsSorted [] = Unit {0}
IsSorted (x ∷ s) = Above x s

pub contains-insert :
    (b a : ℕ) (s : NatSet) → contains b (insert a s) ≡ (if a == b then true else contains b s)
contains-insert b a [] = refl
contains-insert b a (x ∷ s) = ground (arith, contains-insert b a s)

pub contains-erase :
    (b a : ℕ) (s : NatSet) → contains b (erase a s) ≡ (if a == b then false else contains b s)
contains-erase b a [] = ground arith
contains-erase b a (x ∷ s) = ground (arith, contains-erase b a s)

-- A set that is empty contains nothing.
pub contains_empty : (a : ℕ) (s : NatSet) → is_empty s ≡ true → contains a s ≡ false
contains_empty a [] e = refl
contains_empty a (x ∷ s) e = ground arith

pub is_empty-insert : (a : ℕ) (s : NatSet) → is_empty (insert a s) ≡ false
is_empty-insert a [] = refl
is_empty-insert a (x ∷ s) = ground arith

pub insert-Above : (lo a : ℕ) (s : NatSet) → lo < a → Above lo s → Above lo (insert a s)
insert-Above lo a [] h o = (h, tt)
insert-Above lo a (x ∷ s) h o = ground (arith, insert-Above x a s)

pub insert-IsSorted : (a : ℕ) (s : NatSet) → IsSorted s → IsSorted (insert a s)
insert-IsSorted a [] o = tt
insert-IsSorted a (x ∷ s) o = ground (arith, insert-Above x a s)

pub Above-IsSorted : (lo : ℕ) (s : NatSet) → Above lo s → IsSorted s
Above-IsSorted lo [] o = tt
Above-IsSorted lo (x ∷ s) o = o.1

-- Whether every element of a set is in another.
abbrev pub subset : NatSet → NatSet → Bool
subset [] t = true
subset (x ∷ s) t = contains x t && subset s t

-- Membership in any list of numbers.
pub contains-append :
    (a : ℕ) (xs ys : List ℕ) → contains a (xs ++ ys) ≡ (contains a xs || contains a ys)
contains-append a [] ys = refl
contains-append a (x ∷ xs) ys = ground (arith, contains-append a xs ys)

-- Numbers below a bound.
abbrev pub Below : ℕ → List ℕ → Type 0
Below hi [] = Unit {0}
Below hi (x ∷ xs) = (x < hi) × Below hi xs

pub insert-Below : (hi a : ℕ) (s : NatSet) → a < hi → Below hi s → Below hi (insert a s)
insert-Below hi a [] h b = (h, tt)
insert-Below hi a (x ∷ s) h b = ground (arith, insert-Below hi a s)
