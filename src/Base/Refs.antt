-- ===== src/Base/Refs.antt =====
-- Lists of references: std::list of shared pointers, compared by identity.
use ylars.Base.{none, some, ℕ, ◌+◌, ◌≡◌, List, [], ◌∷◌, ◌++◌, arith, ◌==◌, if◌then◌else◌, All}
use ylars.Base.Map
use ylars.Base.Map.{Map}

abbrev pub count : ℕ → List ℕ → ℕ
count r [] = 0
count r (q ∷ refs) = (if q == r then 1 else 0) + count r refs

-- std::list::remove: every element equal to the value goes.
abbrev pub remove : ℕ → List ℕ → List ℕ
remove a [] = []
remove a (x ∷ xs) = if x == a then remove a xs else x ∷ remove a xs

pub count-append :
    (r : ℕ) (front back : List ℕ) → count r (front ++ back) ≡ count r front + count r back
count-append r [] back = omega arith
count-append r (q ∷ front) back = let rest = count-append r front back in omega (arith, rest)

pub count-remove :
    (b a : ℕ) (xs : List ℕ) → count b (remove a xs) ≡ (if a == b then 0 else count b xs)
count-remove b a [] = ground arith
count-remove b a (x ∷ xs) = ground (arith, count-remove b a xs)

pub All-append {κ} : (P : ℕ → Type κ) (xs ys : List ℕ) → All P xs → All P ys → All P (xs ++ ys)
All-append P [] ys h k = k
All-append P (x ∷ xs) ys h k = (h.0, All-append P xs ys h.1 k)

pub All-remove {κ} : (P : ℕ → Type κ) (a : ℕ) (xs : List ℕ) → All P xs → All P (remove a xs)
All-remove P a [] h = tt
All-remove P a (x ∷ xs) h = ground (arith, All-remove P a xs h.1)

-- An element that moves from one list to the end of another is counted as before.
pub count-move :
    (q r : ℕ) (xs ys : List ℕ)
    → count r xs ≡ 1
    → count q (remove r xs) + count q (ys ++ (r ∷ [])) ≡ count q xs + count q ys
count-move q r xs ys h = ground (arith, count-remove q r xs, count-append q ys (r ∷ []))

pub count-cons_self : (r : ℕ) (xs : List ℕ) → count r (r ∷ xs) ≡ 1 + count r xs
count-cons_self r xs = ground arith

-- The references of a map with one more key, and of a map with one key less.
pub count-insert :
    (q k r : ℕ) (m : Map ℕ)
    → Map.lookup k m ≡ none
    → count q (Map.values (Map.insert k r m)) ≡ count q (r ∷ []) + count q (Map.values m)
count-insert q k r [] e = omega arith
count-insert q k r ((j, p) ∷ m) e = ground (arith, count-insert q k r m)

pub count-erase :
    (q k r : ℕ) (m : Map ℕ)
    → Map.IsSorted m
    → Map.lookup k m ≡ some r
    → count q (Map.values (Map.erase k m)) + count q (r ∷ []) ≡ count q (Map.values m)
count-erase q k r [] s e = ground arith
count-erase q k r ((j, p) ∷ m) s e =
    ground (arith, count-erase q k r m, Map.Above-IsSorted j m s, Map.erase_absent j m s)

pub count-removed :
    (q r : ℕ) (xs : List ℕ) → count r xs ≡ 1 → count q (remove r xs) + count q (r ∷ []) ≡ count q xs
count-removed q r xs h = ground (arith, count-remove q r xs)
