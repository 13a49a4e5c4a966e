-- ===== src/Reactor/ConfigFile/Lists.antt =====
-- config_file::GetStringList against the words that a list is made of.
use ylars.Base.{
  ℕ, zero, suc, ◌≤◌, ◌<◌, ◌≡◌, refl, sym, ap, ◌∙◌, List, [], ◌∷◌, ◌++◌, none, some, true, false,
  arith, All, map, Bool-cases, Option-cases, inl, inr, length, length-append, append-nil,
}
use ylars.Reactor.ConfigFile.{Text, Sections, get_value, get_string}
use ylars.Reactor.ConfigFile.Getters.{is_sep, go_on, next_sep, skip_seps, split, get_string_list}

abbrev pub IsSeps : Text → Type 0
IsSeps = All (λ c. is_sep c ≡ true)

-- A word has a byte, and no separator.
abbrev pub IsWord : Text → Type 0
IsWord w = (0 < length w) × All (λ c. is_sep c ≡ false) w

-- Words, each with the separators behind it: one at least, but for the last word.
abbrev pub IsItems : List (Text × Text) → Type 0
IsItems [] = ⊥
IsItems ((w, s) ∷ []) = IsWord w × IsSeps s
IsItems ((w, s) ∷ x ∷ xs) = IsWord w × IsSeps s × (0 < length s) × IsItems (x ∷ xs)

abbrev pub joined : List (Text × Text) → Text
joined [] = []
joined ((w, s) ∷ xs) = w ++ (s ++ joined xs)

next_sep-found :
    (w r : Text) (c : ℕ)
    → All (λ c. is_sep c ≡ false) w
    → is_sep c ≡ true
    → next_sep (w ++ (c ∷ r)) ≡ some (w, c ∷ r)
unfolding next_sep
next_sep-found [] r c a e = rw e
next_sep-found (d ∷ w) r c a e = rw (a.0, next_sep-found w r c a.1 e)

next_sep-none : (w : Text) → All (λ c. is_sep c ≡ false) w → next_sep w ≡ none
unfolding next_sep
next_sep-none [] a = refl
next_sep-none (d ∷ w) a = rw (a.0, next_sep-none w a.1)

skip_seps-all : (s r : Text) → IsSeps s → skip_seps (s ++ r) ≡ skip_seps r
unfolding skip_seps
skip_seps-all [] r a = refl
skip_seps-all (c ∷ s) r a = rw (a.0) (skip_seps-all s r a.1)

skip_seps-nil : skip_seps [] ≡ []
unfolding skip_seps
skip_seps-nil = refl

skip_seps-word : (w r : Text) → IsWord w → skip_seps (w ++ r) ≡ w ++ r
unfolding skip_seps
skip_seps-word [] r h = absurd (omega (arith, h.0))
skip_seps-word (c ∷ w) r h = rw (h.1.0)

-- The text of a list goes on with its next word.
skip_seps-joined :
    (x : Text × Text) (xs : List (Text × Text))
    → IsItems (x ∷ xs)
    → skip_seps (joined (x ∷ xs)) ≡ joined (x ∷ xs)
skip_seps-joined (w, s) [] h = skip_seps-word w (s ++ []) h.0
skip_seps-joined (w, s) (x ∷ xs) h = skip_seps-word w (s ++ joined (x ∷ xs)) h.0

split-found :
    (fuel : ℕ) (w r : Text) (c : ℕ)
    → All (λ c. is_sep c ≡ false) w
    → is_sep c ≡ true
    → split (suc fuel) (w ++ (c ∷ r)) ≡ w ∷ go_on (split fuel) (skip_seps (c ∷ r))
unfolding split
split-found fuel w r c a e = rw (next_sep-found w r c a e, split)

split-none : (fuel : ℕ) (w : Text) → All (λ c. is_sep c ≡ false) w → split fuel w ≡ w ∷ []
unfolding split
split-none zero w a = refl
split-none (suc fuel) w a = rw (next_sep-none w a, split)

go_on-split : (fuel : ℕ) (s : Text) → 0 < length s → go_on (split fuel) s ≡ split fuel s
go_on-split fuel [] h = absurd (omega (arith, h))
go_on-split fuel (c ∷ s) h = refl

length-joined :
    (x : Text × Text) (xs : List (Text × Text)) → IsItems (x ∷ xs) → 0 < length (joined (x ∷ xs))
length-joined (w, s) [] h = omega (arith, length-append w (s ++ []), h.0.0)
length-joined (w, s) (x ∷ xs) h = omega (arith, length-append w (s ++ joined (x ∷ xs)), h.0.0)

split-joined :
    (fuel : ℕ) (xs : List (Text × Text))
    → IsItems xs
    → length (joined xs) ≤ fuel
    → split fuel (joined xs) ≡ map (λ x. x.0) xs
split-joined fuel [] h l = absurd h
split-joined zero (x ∷ xs) h l = absurd (omega (arith, length-joined x xs h, l))
split-joined (suc fuel) ((w, []) ∷ []) h l = rw (append-nil w) (split-none (suc fuel) w h.0.1)
split-joined (suc fuel) ((w, c ∷ s) ∷ []) h l =
    let done : skip_seps (c ∷ (s ++ [])) ≡ [] = skip_seps-all (c ∷ s) [] h.1 ∙ skip_seps-nil in
    split-found fuel w (s ++ []) c h.0.1 h.1.0 ∙ ap (λ r. w ∷ go_on (split fuel) r) done
split-joined (suc fuel) ((w, []) ∷ x ∷ xs) h l = absurd (omega (arith, h.2))
split-joined (suc fuel) ((w, c ∷ s) ∷ x ∷ xs) h l =
    let more = joined (x ∷ xs) in
    let next : skip_seps (c ∷ (s ++ more)) ≡ more =
      skip_seps-all (c ∷ s) more h.1 ∙ skip_seps-joined x xs h.3 in
    let size : length more ≤ fuel =
      omega (arith, length-append w (c ∷ (s ++ more)), length-append s more, l) in
    split-found fuel w (s ++ more) c h.0.1 h.1.0
    ∙ ap (λ r. w ∷ go_on (split fuel) r) next
    ∙ ap (◌∷◌ w)
        (go_on-split fuel more (length-joined x xs h.3) ∙ split-joined fuel (x ∷ xs) h.3 size)

-- Where the value of a key is words without separators, with one or more of comma, blank and tab
-- between them, and any number of those behind the last, GetStringList answers these words.
pub get_string_list-joined :
    (section key : Text) (sections : Sections) (xs : List (Text × Text))
    → IsItems xs
    → get_value section key sections ≡ some (joined xs)
    → get_string_list section key sections ≡ map (λ x. x.0) xs
unfolding get_string_list get_string
get_string_list-joined section key sections xs h e =
    rw e (split-joined (length (joined xs)) xs h (omega arith))

-- More fuel than there are bytes changes nothing.
skip_seps-le : (s : Text) → length (skip_seps s) ≤ length s
unfolding skip_seps
skip_seps-le [] = omega arith
skip_seps-le (c ∷ s) = ground (arith, skip_seps-le s)

next_sep-shorter :
    (str : Text) {w r : Text} → next_sep str ≡ some (w, r) → length (skip_seps r) < length str
unfolding next_sep skip_seps
next_sep-shorter [] e = absurd (ground (arith, e))
next_sep-shorter (c ∷ str) {w} {r} e = elim (Bool-cases (is_sep c)) [
  | inl sep ↦
      let same : c ∷ str ≡ r = ground (arith, e, sep) in
      rw (← same) (rw sep (omega (arith, skip_seps-le str)))
  | inr other ↦ elim (Option-cases (next_sep str)) [
    | inl f ↦ absurd (ground (arith, e, other, f))
    | inr ((v, q), f) ↦
        let same : q ≡ r = ground (arith, e, other, f) in
        rw (← same) (omega (arith, next_sep-shorter str f))
  ]
]

go_on-eq : (f g : Text → List Text) (s : Text) → f s ≡ g s → go_on f s ≡ go_on g s
go_on-eq f g [] e = refl
go_on-eq f g (c ∷ s) e = e

-- The bytes of the text are fuel enough: any more changes nothing.
pub split-fuel :
    (f g : ℕ) (str : Text) → length str ≤ f → length str ≤ g → split f str ≡ split g str
unfolding split
split-fuel zero zero str h k = refl
split-fuel zero (suc g) [] h k = split-none zero [] tt ∙ sym (split-none (suc g) [] tt)
split-fuel zero (suc g) (c ∷ str) h k = absurd (omega (arith, h))
split-fuel (suc f) zero [] h k = split-none (suc f) [] tt ∙ sym (split-none zero [] tt)
split-fuel (suc f) zero (c ∷ str) h k = absurd (omega (arith, k))
split-fuel (suc f) (suc g) str h k = elim (Option-cases (next_sep str)) [
  | inl e ↦ rw (e, split)
  | inr ((w, r), e) ↦
      let less = next_sep-shorter str e in
      let rest = split-fuel f g (skip_seps r) (omega arith) (omega arith) in
      rw (e, split) (ap (◌∷◌ w) (go_on-eq (split f) (split g) (skip_seps r) rest))
]
