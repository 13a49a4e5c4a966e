-- ===== src/Base/Map.antt =====
-- std::map with a number for its key: an association list in rising order of the keys, the order in
-- which the program walks it.
use ylars.Base.{
  ℕ, ◌<◌, ◌≤◌, ◌≡◌, refl, Bool, true, false, List, [], ◌∷◌, Option, none, some, arith, ltb, ◌==◌,
  if◌then◌else◌, ==_iff, All, Bool-cases, inl, inr, map, is_some,
}

abbrev pub Map {ℓ} : Type ℓ → Type ℓ
Map V = List (ℕ × V)

module _ {ℓ} {V : Type ℓ} where
  -- find; `none` is end().
  abbrev pub lookup : ℕ → Map V → Option V
  lookup k [] = none
  lookup k ((j, v) ∷ m) = if j == k then some v else lookup k m

  abbrev pub contains : ℕ → Map V → Bool
  contains k m = is_some (lookup k m)

  -- m[k] = v
  abbrev pub insert : ℕ → V → Map V → Map V
  insert k v [] = (k, v) ∷ []
  insert k v ((j, w) ∷ m) =
      if j == k then (k, v) ∷ m else if ltb k j then (k, v) ∷ (j, w) ∷ m else (j, w) ∷ insert k v m

  abbrev pub erase : ℕ → Map V → Map V
  erase k [] = []
  erase k ((j, v) ∷ m) = if j == k then erase k m else (j, v) ∷ erase k m

  abbrev pub is_empty : Map V → Bool
  is_empty [] = true
  is_empty (e ∷ m) = false

  abbrev pub keys : Map V → List ℕ
  keys = map (λ e. e.0)

  abbrev pub values : Map V → List V
  values = map (λ e. e.1)

  -- The keys rise, and all lie above `lo`.
  abbrev pub Above : ℕ → Map V → Type 0
  Above lo [] = Unit {0}
  Above lo ((k, v) ∷ m) = (lo < k) × Above k m

  abbrev pub IsSorted : Map V → Type 0
  IsSorted [] = Unit {0}
  IsSorted ((k, v) ∷ m) = Above k m

module _ {ℓ} {V : Type ℓ} where
  pub lookup-insert :
      (j k : ℕ) (v : V) (m : Map V)
      → lookup j (insert k v m) ≡ (if k == j then some v else lookup j m)
  lookup-insert j k v [] = refl
  lookup-insert j k v ((i, w) ∷ m) = ground (arith, lookup-insert j k v m)

  pub lookup-insert_self : (k : ℕ) (v : V) (m : Map V) → lookup k (insert k v m) ≡ some v
  lookup-insert_self k v m = ground (arith, lookup-insert k k v m)

  pub lookup-erase :
      (j k : ℕ) (m : Map V) → lookup j (erase k m) ≡ (if k == j then none else lookup j m)
  lookup-erase j k [] = ground arith
  lookup-erase j k ((i, w) ∷ m) = ground (arith, lookup-erase j k m)

  pub Above-mono : {a b : ℕ} (m : Map V) → a ≤ b → Above b m → Above a m
  Above-mono [] h s = tt
  Above-mono ((k, v) ∷ m) h s = (omega arith, s.1)

  pub insert-Above : (lo k : ℕ) (v : V) (m : Map V) → lo < k → Above lo m → Above lo (insert k v m)
  insert-Above lo k v [] h s = (h, tt)
  insert-Above lo k v ((j, w) ∷ m) h s = ground (arith, insert-Above j k v m)

  pub insert-IsSorted : (k : ℕ) (v : V) (m : Map V) → IsSorted m → IsSorted (insert k v m)
  insert-IsSorted k v [] s = tt
  insert-IsSorted k v ((j, w) ∷ m) s = ground (arith, insert-Above j k v m)

  pub erase-Above : (lo k : ℕ) (m : Map V) → Above lo m → Above lo (erase k m)
  erase-Above lo k [] s = tt
  erase-Above lo k ((j, w) ∷ m) s =
      ground (arith, erase-Above j k m s.1, Above-mono {a = lo} {b = j} (erase k m))

  pub Above-IsSorted : (lo : ℕ) (m : Map V) → Above lo m → IsSorted m
  Above-IsSorted lo [] s = tt
  Above-IsSorted lo ((k, v) ∷ m) s = s.1

  pub erase-IsSorted : (k : ℕ) (m : Map V) → IsSorted m → IsSorted (erase k m)
  erase-IsSorted k [] s = tt
  erase-IsSorted k ((j, w) ∷ m) s =
      ground (arith, erase-Above j k m s, Above-IsSorted j (erase k m))

  pub lookup-Above : (k lo : ℕ) (m : Map V) → k ≤ lo → Above lo m → lookup k m ≡ none
  lookup-Above k lo [] h s = refl
  lookup-Above k lo ((j, w) ∷ m) h s = ground (arith, lookup-Above k j m)

  pub All-lookup {κ} :
      (P : ℕ × V → Type κ) (k : ℕ) (m : Map V) {v : V} → All P m → lookup k m ≡ some v → P (k, v)
  All-lookup P k [] a e = ground arith
  All-lookup P k ((j, w) ∷ m) {v} a e = elim (Bool-cases (j == k)) [
    | inl hit ↦
        let same : j ≡ k = (==_iff j k).0 hit in
        let val : w ≡ v = ground arith in rw (← same, ← val) a.0
    | inr miss ↦ All-lookup P k m a.1 (ground arith)
  ]

  pub All-insert {κ} :
      (P : ℕ × V → Type κ) (k : ℕ) (v : V) (m : Map V) → P (k, v) → All P m → All P (insert k v m)
  All-insert P k v [] p a = (p, tt)
  All-insert P k v ((j, w) ∷ m) p a = ground (arith, All-insert P k v m p a.1)

  pub All-erase {κ} : (P : ℕ × V → Type κ) (k : ℕ) (m : Map V) → All P m → All P (erase k m)
  All-erase P k [] a = tt
  All-erase P k ((j, w) ∷ m) a = ground (arith, All-erase P k m a.1)

  -- Erasing a key that lies below all those of the map changes nothing.
  pub erase_absent : (k : ℕ) (m : Map V) → Above k m → erase k m ≡ m
  erase_absent k [] s = refl
  erase_absent k ((j, w) ∷ m) s =
      ground (arith, erase_absent k m (Above-mono {a = k} {b = j} m (omega arith) s.1))

  pub erase_missing : (k : ℕ) (m : Map V) → lookup k m ≡ none → erase k m ≡ m
  erase_missing k [] e = refl
  erase_missing k ((j, w) ∷ m) e = ground (arith, erase_missing k m)
