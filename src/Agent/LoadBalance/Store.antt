-- ===== src/Agent/LoadBalance/Store.antt =====
-- Facts about the objects that a list of references leads to, and what a write to one of them keeps.
use ylars.Base.{
  ℕ, ◌≡◌, ◌≢◌, refl, false, List, [], ◌∷◌, Option, some, arith, ◌==◌, ==_iff, All, Bool-cases, inl,
  inr,
}
use ylars.Base.Map
use ylars.Base.Map.{Map, lookup-insert}
use ylars.Base.Refs.{count, remove, count-remove}

module _ {ℓ κ} {V : Type ℓ} (P : Option V → Type κ) where
  -- Each reference of the list leads to an object with the property.
  abbrev pub AllAt : Map V → List ℕ → Type κ
  AllAt objs = All (λ r. P (Map.lookup r objs))

  -- A write that keeps the property of what stood there.
  pub AllAt-insert :
      (objs : Map V) (r : ℕ) (h old : V) (xs : List ℕ)
      → Map.lookup r objs ≡ some old
      → (P (some old) → P (some h))
      → AllAt objs xs
      → AllAt (Map.insert r h objs) xs
  AllAt-insert objs r h old [] e p a = tt
  AllAt-insert objs r h old (x ∷ xs) e p a = elim (Bool-cases (r == x)) [
    | inl hit ↦
        let at_x : Map.lookup x objs ≡ some old = rw (← (==_iff r x).0 hit) e in
        let kept : P (some old) = rw at_x at (a.0) in
        (rw (lookup-insert x r h objs, hit) (p kept), AllAt-insert objs r h old xs e p a.1)
    | inr miss ↦ (rw (lookup-insert x r h objs, miss) (a.0), AllAt-insert objs r h old xs e p a.1)
  ]

  pub AllAt-insert_absent :
      (objs : Map V) (r : ℕ) (h : V) (xs : List ℕ)
      → count r xs ≡ 0
      → AllAt objs xs
      → AllAt (Map.insert r h objs) xs
  AllAt-insert_absent objs r h [] c a = tt
  AllAt-insert_absent objs r h (x ∷ xs) c a =
      let miss : (r == x) ≡ false = ground arith in
      (rw (lookup-insert x r h objs, miss) a.0, AllAt-insert_absent objs r h xs (ground arith) a.1)

  pub AllAt-count :
      (objs : Map V) (r : ℕ) (xs : List ℕ) → count r xs ≢ 0 → AllAt objs xs → P (Map.lookup r objs)
  AllAt-count objs r [] c a = absurd (c refl)
  AllAt-count objs r (x ∷ xs) c a = elim (Bool-cases (x == r)) [
    | inl e ↦ rw (← (==_iff x r).0 e) a.0
    | inr e ↦ AllAt-count objs r xs (ground arith) a.1
  ]

pub count-remove_self : (r : ℕ) (xs : List ℕ) → count r (remove r xs) ≡ 0
count-remove_self r xs = ground (arith, count-remove r r xs)
