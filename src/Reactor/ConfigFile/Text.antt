-- ===== src/Reactor/ConfigFile/Text.antt =====
-- What trim takes off a text, and what it leaves.
use mathlib.Core.List.{reverse, reverse_aux}
use mathlib.Core.Path.{ap₂}
use ylars.Base.{
  ℕ, suc, ◌+◌, ◌-◌, ◌≤◌, ◌<◌, ◌≡◌, refl, sym, ap, ◌∙◌, [], ◌∷◌, ◌++◌, true, false, arith, All,
  Bool-cases, List-cases, inl, inr, length, take, append-nil, append_assoc, length-append,
  take-append_eq, drop-append,
}
use ylars.Reactor.ConfigFile.{
  Text, is_space, first_not_empty, trim_left, walk_back, trim_right, trim,
}

abbrev pub IsSpaces : Text → Type 0
IsSpaces = All (λ c. is_space c ≡ true)

-- No space at either end.
pub record IsTight (t : Text) : Type 0 where
  pub front : first_not_empty t ≡ 0
  pub back : walk_back (reverse t) (length t) ≡ length t

reverse_aux-append : (s r : Text) → reverse_aux s r ≡ reverse s ++ r
reverse_aux-append [] r = refl
reverse_aux-append (c ∷ s) r =
    reverse_aux-append s (c ∷ r)
    ∙ sym (append_assoc (reverse s) (c ∷ []) r)
    ∙ ap (λ l. l ++ r) (sym (reverse_aux-append s (c ∷ [])))

reverse-cons : (c : ℕ) (s : Text) → reverse (c ∷ s) ≡ reverse s ++ (c ∷ [])
reverse-cons c s = reverse_aux-append s (c ∷ [])

pub reverse-append : (s t : Text) → reverse (s ++ t) ≡ reverse t ++ reverse s
reverse-append [] t = sym (append-nil (reverse t))
reverse-append (c ∷ s) t =
    reverse-cons c (s ++ t)
    ∙ ap (λ l. l ++ (c ∷ [])) (reverse-append s t)
    ∙ append_assoc (reverse t) (reverse s) (c ∷ [])
    ∙ ap (λ l. reverse t ++ l) (sym (reverse-cons c s))

length-reverse : (s : Text) → length (reverse s) ≡ length s
length-reverse [] = refl
length-reverse (c ∷ s) =
    ap length (reverse-cons c s)
    ∙ omega (arith, length-append (reverse s) (c ∷ []), length-reverse s)

pub All-append : (P : ℕ → Type 0) (s t : Text) → All P s → All P t → All P (s ++ t)
All-append P [] t a b = b
All-append P (c ∷ s) t a b = (a.0, All-append P s t a.1 b)

IsSpaces-reverse : (w : Text) → IsSpaces w → IsSpaces (reverse w)
IsSpaces-reverse [] a = tt
IsSpaces-reverse (c ∷ w) a =
    rw (reverse-cons c w) (All-append _ (reverse w) (c ∷ []) (IsSpaces-reverse w a.1) (a.0, tt))

-- Spaces are walked over.
walk_back-spaces :
    (w r : Text) (n : ℕ) → IsSpaces w → walk_back (w ++ r) (length w + n) ≡ walk_back r n
unfolding walk_back
walk_back-spaces [] r n a = let e : 0 + n ≡ n = omega arith in rw e
walk_back-spaces (c ∷ w) r n a =
    let e : suc (length w) + n - 1 ≡ length w + n = omega arith in
    rw (a.0, e) (walk_back-spaces w r n a.1)

walk_back-le : (r : Text) (n : ℕ) → walk_back r n ≤ n
unfolding walk_back
walk_back-le [] n = omega arith
walk_back-le (c ∷ r) n = ground (arith, walk_back-le r (n - 1))

-- What stands before a byte that is no space stays.
walk_back-solid :
    (r q : Text) (c n : ℕ) → is_space c ≡ false → n ≤ walk_back (r ++ (c ∷ q)) (length r + n)
unfolding walk_back
walk_back-solid [] q c n e = let z : 0 + n ≡ n = omega arith in rw (e, z) (omega arith)
walk_back-solid (d ∷ r) q c n e =
    let z : suc (length r) + n - 1 ≡ length r + n = omega arith in
    elim (Bool-cases (is_space d)) [
      | inl s ↦ rw (s, z) (walk_back-solid r q c n e)
      | inr s ↦ rw s (omega arith)
    ]

-- A text whose end is no space is kept whole, whatever is before it.
walk_back-tight :
    (r q : Text) (n : ℕ)
    → 0 < n
    → walk_back r n ≡ n
    → length r ≡ n
    → (m : ℕ) → walk_back (r ++ q) (n + m) ≡ n + m
unfolding walk_back
walk_back-tight [] q n h e l m = absurd (omega (arith, h, l))
walk_back-tight (c ∷ r) q n h e l m = elim (Bool-cases (is_space c)) [
  | inr solid ↦ rw solid
  | inl space ↦ let e' = (rw space at e) in absurd (omega (arith, walk_back-le r (n - 1), e', h))
]

pub first_not_empty-spaces :
    (w s : Text) → IsSpaces w → first_not_empty (w ++ s) ≡ length w + first_not_empty s
unfolding first_not_empty
first_not_empty-spaces [] s a = omega arith
first_not_empty-spaces (c ∷ w) s a = rw (a.0) (omega (arith, first_not_empty-spaces w s a.1))

trim_right-spaces :
    (u w : Text)
    → IsSpaces w
    → walk_back (reverse u) (length u) ≡ length u
    → trim_right (u ++ w) ≡ u
unfolding trim_right
trim_right-spaces u w a e =
    let size : length (u ++ w) ≡ length (reverse w) + length u =
      omega (arith, length-append u w, length-reverse w) in
    let n : walk_back (reverse (u ++ w)) (length (u ++ w)) ≡ length u =
      ap₂ walk_back (reverse-append u w) size
      ∙ walk_back-spaces (reverse w) (reverse u) (length u) (IsSpaces-reverse w a)
      ∙ e in
    ap (λ k. take k (u ++ w)) n ∙ take-append_eq (length u) u w refl

padded-back :
    (p t : Text)
    → 0 < length t
    → walk_back (reverse t) (length t) ≡ length t
    → walk_back (reverse (p ++ t)) (length (p ++ t)) ≡ length (p ++ t)
padded-back p t h e =
    let size : length (p ++ t) ≡ length t + length p = omega (arith, length-append p t) in
    ap₂ walk_back (reverse-append p t) size
    ∙ walk_back-tight (reverse t) (reverse p) (length t) h e (length-reverse t) (length p)
    ∙ sym size

trim_left-spaces : (p t : Text) → IsSpaces p → first_not_empty t ≡ 0 → trim_left (p ++ t) ≡ t
unfolding trim_left
trim_left-spaces p t a e =
    let n : first_not_empty (p ++ t) ≡ length p = omega (arith, first_not_empty-spaces p t a, e) in
    rw (n, drop-append p t)

-- The spaces around a text without spaces at its ends are taken off.
pub trim-padded : (p t q : Text) → IsSpaces p → IsTight t → IsSpaces q → trim (p ++ (t ++ q)) ≡ t
unfolding trim trim_left first_not_empty walk_back
trim-padded p t q a tight b = elim (List-cases t) [
  | inl nothing ↦
      let right = trim_right-spaces [] (p ++ q) (All-append _ p q a b) refl in
      rw nothing (ap trim_left right)
  | inr (c, s, e) ↦
      let long : 0 < length t = omega (arith, ap length e) in
      let right = trim_right-spaces (p ++ t) q b (padded-back p t long tight.back) in
      ap trim (sym (append_assoc p t q)) ∙ ap trim_left right ∙ trim_left-spaces p t a tight.front
]

take-past : (p s : Text) (c k : ℕ) → take (length p + suc k) (p ++ (c ∷ s)) ≡ p ++ (c ∷ take k s)
take-past [] s c k = let e : 0 + suc k ≡ suc k = omega arith in rw e
take-past (d ∷ p) s c k =
    let e : suc (length p) + suc k ≡ suc (length p + suc k) = omega arith in
    rw e (ap (◌∷◌ d) (take-past p s c k))

trim_right-solid :
    (p s : Text) (c : ℕ)
    → is_space c ≡ false
    → (r : Text) × (trim_right (p ++ (c ∷ s)) ≡ p ++ (c ∷ r))
unfolding trim_right
trim_right-solid p s c solid =
    let x = p ++ (c ∷ s) in
    let n = walk_back (reverse x) (length x) in
    let back : reverse x ≡ reverse s ++ (c ∷ reverse p) =
      reverse-append p (c ∷ s)
      ∙ ap (λ l. l ++ reverse p) (reverse-cons c s)
      ∙ append_assoc (reverse s) (c ∷ []) (reverse p) in
    let size : length x ≡ length (reverse s) + suc (length p) =
      omega (arith, length-append p (c ∷ s), length-reverse s) in
    let same : n ≡ walk_back (reverse s ++ (c ∷ reverse p)) (length (reverse s) + suc (length p)) =
      ap₂ walk_back back size in
    let far = walk_back-solid (reverse s) (reverse p) c (suc (length p)) solid in
    let k = n - suc (length p) in
    let e : n ≡ length p + suc k = omega (arith, far, same) in
    (take k s, ap (λ m. take m x) e ∙ take-past p s c k)

-- The first byte that is no space is the first of what is left.
pub trim-solid :
    (p s : Text) (c : ℕ)
    → IsSpaces p
    → is_space c ≡ false
    → (r : Text) × (trim (p ++ (c ∷ s)) ≡ c ∷ r)
unfolding trim first_not_empty
trim-solid p s c a solid =
    let (r, e) = trim_right-solid p s c solid in
    (r, ap trim_left e ∙ trim_left-spaces p (c ∷ r) a (rw solid))
