-- ===== src/Reactor/ConfigFile/Tables.antt =====
-- The two maps of config_file.cpp: what is found after a value is set, and after a section begins.
use ylars.Base.{
  ◌≡◌, ◌↔◌, refl, [], ◌∷◌, none, some, true, arith, ◌==◌, ◌&&◌, if◌then◌else◌, Bool-cases,
  Option-cases, inl, inr, is_some, ==_iff,
}
use ylars.Reactor.ConfigFile.{
  Text, same_text, Table, find, put, Loading, enter, set_value, get_value,
}

pub same_text-eq : (s t : Text) → same_text s t ≡ true → s ≡ t
same_text-eq [] [] e = refl
same_text-eq [] (d ∷ t) e = absurd (ground (arith, e))
same_text-eq (c ∷ s) [] e = absurd (ground (arith, e))
same_text-eq (c ∷ s) (d ∷ t) e =
    let h : (c == d) ≡ true = ground (arith, e) in
    let r : same_text s t ≡ true = ground (arith, e) in rw ((==_iff c d).0 h, same_text-eq s t r)

pub same_text_refl : (s : Text) → same_text s s ≡ true
same_text_refl [] = refl
same_text_refl (c ∷ s) = ground (arith, same_text_refl s)

pub same_text_iff : (s t : Text) → (same_text s t ≡ true) ↔ (s ≡ t)
same_text_iff s t = (same_text-eq s t, λ e. rw e (same_text_refl t))

module _ {ℓ} {V : Type ℓ} where
  pub find-put :
      (j k : Text) (v : V) (t : Table V)
      → find j (put k v t) ≡ (if same_text k j then some v else find j t)
  unfolding find put
  find-put j k v [] = refl
  find-put j k v ((i, w) ∷ t) =
      ground (arith, same_text_iff k j, same_text_iff i k, same_text_iff i j, find-put j k v t)

-- The pointer leads to a section.
abbrev pub IsPointing : Loading → Type 0
IsPointing l = elim l.m [ none ↦ Unit {0} | some s ↦ is_some (find s l.sections) ≡ true ]

pub get_value-enter :
    (name section key : Text) (l : Loading)
    → get_value section key (enter name l).sections ≡ get_value section key l.sections
unfolding get_value enter find
get_value-enter name section key l = elim (Option-cases (find name l.sections)) [
  | inr (t, e) ↦ rw e
  | inl e ↦ elim (Bool-cases (same_text name section)) [
    | inr other ↦ rw (e, find-put section name [] l.sections, other)
    | inl same ↦
        let absent : find section l.sections ≡ none = rw (← same_text-eq name section same) e in
        rw (e, find-put section name [] l.sections, same, absent)
  ]
]

pub enter-IsPointing :
    (name : Text) (l : Loading) → (IsPointing (enter name l)) × ((enter name l).m ≡ some name)
unfolding enter
enter-IsPointing name l = elim (Option-cases (find name l.sections)) [
  | inr (t, e) ↦ rw e (rw e, refl)
  | inl e ↦ rw e (rw (find-put name name [] l.sections, same_text_refl name), refl)
]

-- What a key holds after it has been set in the section that the pointer leads to.
pub get_value-set_value :
    (s key value : Text) (l : Loading)
    → l.m ≡ some s
    → IsPointing l
    → (l' : Loading) × (set_value key value l ≡ some l')
      × (l'.m ≡ some s)
      × IsPointing l'
      × ((section k : Text)
          → get_value section k l'.sections ≡ (
              if same_text s section && same_text key k
              then some value
              else get_value section k l.sections))
unfolding set_value get_value
get_value-set_value s key value l at p = elim (Option-cases (find s l.sections)) [
  | inl e ↦ let p' = (rw (at, e) at p) in absurd (ground (arith, p'))
  | inr (table, e) ↦ (
    record l { sections = put s (put key value table) l.sections },
    rw (at, e),
    at,
    rw (at, find-put s s (put key value table) l.sections, same_text_refl s),
    λ section k. elim (Bool-cases (same_text s section)) [
      | inr other ↦ rw (find-put section s (put key value table) l.sections, other)
      | inl same ↦
          let there : find section l.sections ≡ some table = rw (← same_text-eq s section same) e in
          rw (
            find-put section s (put key value table) l.sections,
            same,
            there,
            find-put k key value table,
          )
    ],
  )
]
