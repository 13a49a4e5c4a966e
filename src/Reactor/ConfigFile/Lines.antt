-- ===== src/Reactor/ConfigFile/Lines.antt =====
-- The lines of a configuration file, and what load_line reads in each.
use mathlib.Core.List.{reverse}
use ylars.Base.{
  ℕ, suc, ◌-◌, ◌<◌, ◌≡◌, refl, ap, ◌∙◌, [], ◌∷◌, ◌++◌, none, some, true, false, arith, ◌==◌, ◌||◌,
  leb, All, Bool-cases, Option-cases, ◌⊎◌, inl, inr, length, get_elem?, length-append,
  take-append_eq, append_assoc, ==_refl,
}
use ylars.Reactor.ConfigFile.{
  Text, is_space, first_not_empty, walk_back, trim, is_nil, is_at, section_in, is_section, cut,
  Loading, enter, set_value, is_comment, load_entry, load_line,
}
use ylars.Reactor.ConfigFile.Text.{
  IsSpaces, IsTight, All-append, reverse-append, trim-padded, trim-solid,
}

-- A section, a key with its value, a comment, or a line that means nothing; `p1` to `p4` are the
-- spaces that may stand between.
pub data Line : Type 0 where
  section : (p1 p2 name p3 p4 : Text) → Line
  entry : (p1 key p2 p3 value p4 : Text) → Line
  comment : (p1 : Text) → (mark : ℕ) → (more : Text) → Line
  other : Text → Line

abbrev bracketed : Text → Text → Text → Text
bracketed p2 name p3 = b'[' ∷ ((p2 ++ (name ++ p3)) ++ (b']' ∷ []))

unfoldable pub render : Line → Text
render (section p1 p2 name p3 p4) = p1 ++ (bracketed p2 name p3 ++ p4)
render (entry p1 key p2 p3 value p4) = (p1 ++ (key ++ p2)) ++ (b'=' ∷ (p3 ++ (value ++ p4)))
render (comment p1 mark more) = p1 ++ (mark ∷ more)
render (other raw) = raw

-- No '=' in a text.
abbrev pub NoEquals : Text → Type 0
NoEquals = All (λ c. (c == b'=') ≡ false)

-- A key has no '=', and its first byte begins neither a section nor a comment.
pub record IsKey (key : Text) : Type 0 where
  pub tight : IsTight key
  pub no_equals : NoEquals key
  pub some_byte : is_nil key ≡ false
  pub no_bracket : is_at key 0 b'[' ≡ false
  pub no_comment : is_comment key ≡ false

abbrev pub IsFine : Line → Type 0
IsFine (section p1 p2 name p3 p4) =
    IsSpaces p1 × IsSpaces p2 × (IsTight name × (0 < length name)) × IsSpaces p3 × IsSpaces p4
IsFine (entry p1 key p2 p3 value p4) =
    IsSpaces p1 × IsKey key × IsSpaces p2 × IsSpaces p3 × IsTight value × IsSpaces p4
IsFine (comment p1 mark more) = IsSpaces p1 × (((mark == b'#') || (mark == b';')) ≡ true)
IsFine (other raw) = (is_section raw ≡ none) × NoEquals raw

walk_back-last :
    (s : Text) (c n : ℕ) → is_space c ≡ false → walk_back (reverse (s ++ (c ∷ []))) n ≡ n
unfolding walk_back
walk_back-last s c n solid = ap (λ r. walk_back r n) (reverse-append s (c ∷ [])) ∙ rw solid

bracketed-IsTight : (p2 name p3 : Text) → IsTight (bracketed p2 name p3)
unfolding first_not_empty
bracketed-IsTight p2 name p3 = record {
  front = refl;
  back = walk_back-last (b'[' ∷ (p2 ++ (name ++ p3))) b']' (length (bracketed p2 name p3)) refl;
}

get_elem?-last : (s : Text) (c : ℕ) → get_elem? (s ++ (c ∷ [])) (length s) ≡ some c
get_elem?-last [] c = refl
get_elem?-last (d ∷ s) c = get_elem?-last s c

is_at-last : (s : Text) (d c : ℕ) → is_at (d ∷ (s ++ (c ∷ []))) (suc (length s)) c ≡ true
is_at-last s d c = rw (get_elem?-last s c, is_at) (==_refl c)

section_in-bracketed :
    (inner : Text)
    → 0 < length inner
    → section_in (b'[' ∷ (inner ++ (b']' ∷ []))) ≡ some (trim inner)
unfolding section_in
section_in-bracketed inner h =
    let size : length (inner ++ (b']' ∷ [])) ≡ suc (length inner) =
      omega (arith, length-append inner (b']' ∷ [])) in
    let long : leb (suc (length (inner ++ (b']' ∷ [])))) 2 ≡ false = ground (arith, size) in
    let at : suc (length (inner ++ (b']' ∷ []))) - 1 ≡ suc (length inner) = omega (arith, size) in
    let last = is_at-last inner b'[' b']' in
    let n : suc (length (inner ++ (b']' ∷ []))) - 2 ≡ length inner = omega (arith, size) in
    let within = take-append_eq (length inner) inner (b']' ∷ []) refl in
    rw (long, at, last, n, within)

is_section-render :
    (p1 p2 name p3 p4 : Text)
    → IsFine (section p1 p2 name p3 p4)
    → is_section (render (section p1 p2 name p3 p4)) ≡ some name
unfolding is_section render
is_section-render p1 p2 name p3 p4 (a, b, (tight, h), c, d) =
    let size = length-append p2 (name ++ p3) in
    let size' = length-append name p3 in
    ap section_in (trim-padded p1 (bracketed p2 name p3) p4 a (bracketed-IsTight p2 name p3) d)
    ∙ section_in-bracketed (p2 ++ (name ++ p3)) (omega arith)
    ∙ ap some (trim-padded p2 name p3 b tight c)

section_in-solid : (c : ℕ) (r : Text) → (c == b'[') ≡ false → section_in (c ∷ r) ≡ none
unfolding section_in
section_in-solid c r e = elim (Bool-cases (leb (suc (length r)) 2)) [
  | inl short ↦ rw short
  | inr long ↦ rw (long, e)
]

-- A line that begins otherwise is no section.
is_section-solid :
    (p s : Text) (c : ℕ)
    → IsSpaces p
    → is_space c ≡ false
    → (c == b'[') ≡ false
    → is_section (p ++ (c ∷ s)) ≡ none
unfolding is_section
is_section-solid p s c a solid e =
    let (r, cut') = trim-solid p s c a solid in ap section_in cut' ∙ section_in-solid c r e

spaces-NoEquals : (p : Text) → IsSpaces p → NoEquals p
spaces-NoEquals [] a = tt
spaces-NoEquals (c ∷ p) a = (ground (arith, a.0), spaces-NoEquals p a.1)

cut-render : (s r : Text) → NoEquals s → cut (s ++ (b'=' ∷ r)) ≡ some (s, r)
unfolding cut
cut-render [] r a = refl
cut-render (c ∷ s) r a = rw (a.0, cut-render s r a.1)

cut-none : (s : Text) → NoEquals s → cut s ≡ none
unfolding cut
cut-none [] a = refl
cut-none (c ∷ s) a = rw (a.0, cut-none s a.1)

-- What stands before the '=' of a line is part of it.
cut-head :
    (p s : Text) (c : ℕ)
    → IsSpaces p
    → (c == b'=') ≡ false
    → (cut (p ++ (c ∷ s)) ≡ none)
      ⊎ ((k : Text) × (v : Text) × (cut (p ++ (c ∷ s)) ≡ some (p ++ (c ∷ k), v)))
unfolding cut
cut-head [] s c a e = elim (Option-cases (cut s)) [
  | inl f ↦ inl (rw (e, f))
  | inr ((k, v), f) ↦ inr (k, v, rw (e, f))
]
cut-head (d ∷ p) s c a e =
    let z : (d == b'=') ≡ false = (spaces-NoEquals (d ∷ p) a).0 in
    elim (cut-head p s c a.1 e) [ inl f ↦ inl (rw (z, f)) | inr (k, v, f) ↦ inr (k, v, rw (z, f)) ]

-- A line of a section begins that section.
pub load_line-section :
    (p1 p2 name p3 p4 : Text) (l : Loading)
    → IsFine (section p1 p2 name p3 p4)
    → load_line (render (section p1 p2 name p3 p4)) l ≡ some (enter name l)
unfolding load_line
load_line-section p1 p2 name p3 p4 l f = rw (is_section-render p1 p2 name p3 p4 f, load_line)

load_line-cut :
    (line : Text) (l : Loading) (e : Text × Text)
    → is_section line ≡ none
    → cut line ≡ some e
    → load_line line l ≡ load_entry e l
unfolding load_line
load_line-cut line l e s c = rw (s, c, load_line)

load_line-uncut :
    (line : Text) (l : Loading)
    → is_section line ≡ none
    → cut line ≡ none
    → load_line line l ≡ some l
unfolding load_line
load_line-uncut line l s c = rw (s, c, load_line)

solid : (x : ℕ) (xs : Text) → first_not_empty (x ∷ xs) ≡ 0 → is_space x ≡ false
unfolding first_not_empty
solid x xs e = elim (Bool-cases (is_space x)) [
  | inr s ↦ s
  | inl s ↦ let e' = (rw s at e) in absurd (omega (arith, e'))
]

-- A line of a key sets its value.
pub load_line-entry :
    (p1 key p2 p3 value p4 : Text) (l : Loading)
    → IsFine (entry p1 key p2 p3 value p4)
    → load_line (render (entry p1 key p2 p3 value p4)) l ≡ set_value key value l
unfolding render
load_line-entry p1 key p2 p3 value p4 l (a, k, b, c, v, d) =
    load_line-cut (render (entry p1 key p2 p3 value p4)) l (p1 ++ (key ++ p2), p3 ++ (value ++ p4))
      (no_section key k) whole
    ∙ rw (
      trim-padded p1 key p2 a k.tight b,
      trim-padded p3 value p4 c v d,
      k.some_byte,
      k.no_comment,
    )
  where
    whole :
        cut (render (entry p1 key p2 p3 value p4)) ≡ some (p1 ++ (key ++ p2), p3 ++ (value ++ p4))
    whole = cut-render (p1 ++ (key ++ p2)) (p3 ++ (value ++ p4)) (
        All-append _ p1 (key ++ p2) (spaces-NoEquals p1 a)
          (All-append _ key p2 k.no_equals (spaces-NoEquals p2 b)))

    no_section :
        (key : Text)
        → IsKey key
        → is_section ((p1 ++ (key ++ p2)) ++ (b'=' ∷ (p3 ++ (value ++ p4)))) ≡ none
    no_section [] j = absurd (ground (arith, j.some_byte))
    no_section (x ∷ xs) j =
        let rest = (xs ++ p2) ++ (b'=' ∷ (p3 ++ (value ++ p4))) in
        ap is_section (append_assoc p1 (x ∷ (xs ++ p2)) (b'=' ∷ (p3 ++ (value ++ p4))))
        ∙ is_section-solid p1 rest x a (solid x xs j.tight.front) j.no_bracket

-- A comment means nothing, even where it has a '='.
pub load_line-comment :
    (p1 : Text) (mark : ℕ) (more : Text) (l : Loading)
    → IsFine (comment p1 mark more)
    → load_line (render (comment p1 mark more)) l ≡ some l
unfolding render
load_line-comment p1 mark more l (a, m) =
    let solid' : is_space mark ≡ false = ground (arith, m) in
    let none' = is_section-solid p1 more mark a solid' (ground (arith, m)) in
    elim (cut-head p1 more mark a (ground (arith, m))) [
      | inl e ↦ load_line-uncut (p1 ++ (mark ∷ more)) l none' e
      | inr (k, v, e) ↦
          let (r, t) = trim-solid p1 k mark a solid' in
          load_line-cut (p1 ++ (mark ∷ more)) l (p1 ++ (mark ∷ k), v) none' e ∙ rw (t, m)
    ]

pub load_line-other :
    (raw : Text) (l : Loading) → IsFine (other raw) → load_line (render (other raw)) l ≡ some l
unfolding render
load_line-other raw l (s, n) = load_line-uncut raw l s (cut-none raw n)
