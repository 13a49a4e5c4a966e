-- ===== src/Reactor/ConfigFile/Numbers.antt =====
-- config_file::GetNumber on decimal numbers.
use ylars.Base.{
  ℕ, zero, suc, ◌+◌, ◌-◌, ◌*◌, ◌/◌, ◌%◌, ◌<◌, ◌≡◌, refl, sym, ap, ◌∙◌, [], ◌∷◌, ◌++◌, some, true,
  false, arith, if◌then◌else◌, ltb, ◌==◌, Bool-cases, inl, inr, append_assoc, length, drop-append,
}
use ylars.Reactor.ConfigFile.{Text, Sections, is_space, first_not_empty, get_value}
use ylars.Reactor.ConfigFile.Text.{IsSpaces, first_not_empty-spaces}
use ylars.Reactor.ConfigFile.Getters.{is_digit, digits, positive, signed, parse_number, get_number}

-- The decimal digits of a number, with fuel for each.
unfoldable pub decimal : ℕ → ℕ → Text
decimal zero n = []
decimal (suc fuel) n =
    let front = decimal fuel (n / 10) in
    if ltb n 10 then (b'0' + n) ∷ [] else front ++ ((b'0' + n % 10) ∷ [])

digits-step : (k c : ℕ) (t : Text) → c < 10 → digits k ((b'0' + c) ∷ t) ≡ digits (10 * k + c) t
unfolding digits
digits-step k c t h =
    let d : is_digit (48 + c) ≡ true = ground arith in
    let e : 10 * k + (48 + c - 48) ≡ 10 * k + c = omega arith in rw (d, e)

-- A number has this many digits at most.
abbrev HasDigits : ℕ → ℕ → Type 0
HasDigits zero n = n < 1
HasDigits (suc fuel) n = HasDigits fuel (n / 10)

digits-decimal :
    (fuel n : ℕ) (t : Text) → HasDigits fuel n → digits 0 (decimal fuel n ++ t) ≡ digits n t
unfolding decimal
digits-decimal zero n t h = let e : n ≡ 0 = omega (arith, h) in rw e
digits-decimal (suc fuel) n t h = elim (Bool-cases (ltb n 10)) [
  | inl small ↦
      let e : 10 * 0 + n ≡ n = omega arith in
      rw small (digits-step 0 n t (ground arith) ∙ ap (λ k. digits k t) e)
  | inr large ↦
      let e : 10 * (n / 10) + n % 10 ≡ n = omega arith in
      rw large (
        ap (digits 0) (append_assoc (decimal fuel (n / 10)) ((b'0' + n % 10) ∷ []) t)
        ∙ digits-decimal fuel (n / 10) ((b'0' + n % 10) ∷ t) h
        ∙ digits-step (n / 10) (n % 10) t (omega arith)
        ∙ ap (λ k. digits k t) e)
]

-- The first byte of a number is a digit.
decimal-cons :
    (fuel n : ℕ) → (c : ℕ) × (s : Text) × (c < 10) × (decimal (suc fuel) n ≡ (b'0' + c) ∷ s)
unfolding decimal
decimal-cons zero n = elim (Bool-cases (ltb n 10)) [
  | inl small ↦ (n, [], ground arith, rw small)
  | inr large ↦ (n % 10, [], omega arith, rw large)
]
decimal-cons (suc fuel) n = elim (Bool-cases (ltb n 10)) [
  | inl small ↦ (n, [], ground arith, rw small)
  | inr large ↦
      let (c, s, h, e) = decimal-cons fuel (n / 10) in
      (c, s ++ ((b'0' + n % 10) ∷ []), h, rw large (ap (λ l. l ++ ((b'0' + n % 10) ∷ [])) e))
]

signed-digit :
    (c : ℕ) (s : Text) → c < 10 → signed ((b'0' + c) ∷ s) ≡ positive (digits 0 ((b'0' + c) ∷ s))
signed-digit c s h =
    let minus : (48 + c == b'-') ≡ false = ground arith in
    let plus : (48 + c == b'+') ≡ false = ground arith in rw (minus, plus)

-- What may stand behind a number: nothing, or a byte that is no digit.
abbrev pub EndsNumber : Text → Type 0
EndsNumber [] = Unit {0}
EndsNumber (c ∷ t) = is_digit c ≡ false

EndsNumber-digits : (n : ℕ) (t : Text) → EndsNumber t → digits n t ≡ n
unfolding digits
EndsNumber-digits n [] e = refl
EndsNumber-digits n (c ∷ t) e = rw e

first_not_empty-digit : (c : ℕ) (s : Text) → c < 10 → first_not_empty ((b'0' + c) ∷ s) ≡ 0
unfolding first_not_empty
first_not_empty-digit c s h = let e : is_space (48 + c) ≡ false = ground arith in rw e

-- The value of a key that is a number of 32 bits in decimal, with spaces before it and anything but a
-- digit behind it, is answered by GetNumber as that number.
pub get_number-decimal :
    (section key p t : Text) (n default : ℕ) (sections : Sections)
    → n < 4294967296
    → IsSpaces p
    → EndsNumber t
    → get_value section key sections ≡ some (p ++ (decimal 10 n ++ t))
    → get_number section key default sections ≡ n
unfolding get_number parse_number
get_number-decimal section key p t n default sections h a ends e =
    let few : HasDigits 10 n = omega arith in
    let (c, s, small, first) = decimal-cons 9 n in
    let whole : decimal 10 n ++ t ≡ (b'0' + c) ∷ (s ++ t) = ap (λ l. l ++ t) first in
    let front : first_not_empty (decimal 10 n ++ t) ≡ 0 =
      ap first_not_empty whole ∙ first_not_empty-digit c (s ++ t) small in
    let skip : first_not_empty (p ++ (decimal 10 n ++ t)) ≡ length p =
      omega (arith, first_not_empty-spaces p (decimal 10 n ++ t) a, front) in
    let value : digits 0 (decimal 10 n ++ t) ≡ n =
      digits-decimal 10 n t few ∙ EndsNumber-digits n t ends in
    let word : positive n ≡ n = omega arith in
    rw (e, get_number, skip, drop-append p (decimal 10 n ++ t))
      (ap signed whole
        ∙ signed-digit c (s ++ t) small
        ∙ ap positive (ap (digits 0) (sym whole) ∙ value)
        ∙ word)
