-- ===== src/Reactor/ConfigFile/Load.antt =====
-- config_file::Load and the values that it leaves.
use ylars.Base.{
  ◌≡◌, refl, ap, ◌∙◌, List, [], ◌∷◌, ◌++◌, Option, none, some, Bool, true, false, ◌==◌, ◌&&◌,
  if◌then◌else◌, All, Option-cases, inl, inr, map, get_or_else,
}
use ylars.Reactor.ConfigFile.{
  Text, same_text, find, Sections, Loading, enter, set_value, load_line, load_lines, lines_of, load,
  get_value, get_string, is_section, section_in, trim, trim_left, first_not_empty, trim_right,
  walk_back,
}
use ylars.Reactor.ConfigFile.Tables.{
  IsPointing, get_value-enter, enter-IsPointing, get_value-set_value,
}
use ylars.Reactor.ConfigFile.Lines.{
  Line, section, entry, comment, other, render, IsFine, load_line-section, load_line-entry,
  load_line-comment, load_line-other,
}

-- A line has no line break in it.
abbrev pub NoBreak : Text → Type 0
NoBreak = All (λ c. (c == b'\n') ≡ false)

abbrev pub IsFile : List Line → Type 0
IsFile = All (λ x. IsFine x × NoBreak (render x))

-- Every line ends in a line break.
abbrev pub render_all : List Line → Text
render_all [] = []
render_all (x ∷ xs) = render x ++ (b'\n' ∷ render_all xs)

lines_of-break : (s r : Text) → NoBreak s → lines_of (s ++ (b'\n' ∷ r)) ≡ s ∷ lines_of r
unfolding lines_of
lines_of-break [] r a = refl
lines_of-break (c ∷ s) r a = rw (a.0, lines_of-break s r a.1)

lines_of-render_all :
    (xs : List Line) → IsFile xs → lines_of (render_all xs) ≡ map render xs ++ ([] ∷ [])
unfolding lines_of
lines_of-render_all [] a = refl
lines_of-render_all (x ∷ xs) a =
    lines_of-break (render x) (render_all xs) a.0.1
    ∙ ap (◌∷◌ (render x)) (lines_of-render_all xs a.1)

-- No key comes before the first section.
abbrev pub IsPlaced : Option Text → List Line → Type 0
IsPlaced m [] = Unit {0}
IsPlaced m (section p1 p2 name p3 p4 ∷ xs) = IsPlaced (some name) xs
IsPlaced none (entry p1 key p2 p3 value p4 ∷ xs) = ⊥
IsPlaced (some s) (entry p1 key p2 p3 value p4 ∷ xs) = IsPlaced (some s) xs
IsPlaced m (comment p1 mark more ∷ xs) = IsPlaced m xs
IsPlaced m (other raw ∷ xs) = IsPlaced m xs

abbrev pub is_key_of : Option Text → Text → Text → Text → Bool
is_key_of none name key k = false
is_key_of (some s) name key k = same_text s name && same_text key k

-- The last value that the lines give a key of a section, after `m` and behind an earlier value.
abbrev pub last_value : Text → Text → Option Text → Option Text → List Line → Option Text
last_value name k m value [] = value
last_value name k m value (section p1 p2 s p3 p4 ∷ xs) = last_value name k (some s) value xs
last_value name k m value (entry p1 key p2 p3 v p4 ∷ xs) =
    last_value name k m (if is_key_of m name key k then some v else value) xs
last_value name k m value (comment p1 mark more ∷ xs) = last_value name k m value xs
last_value name k m value (other raw ∷ xs) = last_value name k m value xs

-- What is loaded from these lines.
abbrev Loads : List Line → Loading → Loading → Type 0
Loads xs l end =
    (load_lines (map render xs ++ ([] ∷ [])) l ≡ some end)
    × ((name k : Text)
        → get_value name k end.sections ≡ last_value name k l.m (get_value name k l.sections) xs)

blank-line : (l : Loading) → load_line [] l ≡ some l
unfolding is_section section_in trim trim_left first_not_empty trim_right walk_back render
blank-line l = load_line-other [] l (refl, tt)

load-step :
    (x : Line) (xs : List Line) (l l' : Loading)
    → load_line (render x) l ≡ some l'
    → load_lines (map render (x ∷ xs) ++ ([] ∷ [])) l ≡ load_lines (map render xs ++ ([] ∷ [])) l'
unfolding load_lines
load-step x xs l l' e = rw e

load_lines-Loads :
    (xs : List Line) (l : Loading)
    → IsFile xs
    → IsPlaced l.m xs
    → IsPointing l
    → (end : Loading) × Loads xs l end
unfolding load_lines
load_lines-Loads [] l a p q = (l, (rw (blank-line l), λ name k. refl))
load_lines-Loads (section p1 p2 s p3 p4 ∷ xs) l a p q =
    let (pointing, at) = enter-IsPointing s l in
    let (end, loads) = load_lines-Loads xs (enter s l) a.1 (rw at p) pointing in
    (
      end,
      (
        load-step (section p1 p2 s p3 p4) xs l (enter s l) (load_line-section p1 p2 s p3 p4 l a.0.0)
            ∙ loads.0,
        λ name k. loads.1 name k ∙ rw (at, get_value-enter s name k l),
      ),
    )
load_lines-Loads (comment p1 mark more ∷ xs) l a p q =
    let (end, loads) = load_lines-Loads xs l a.1 p q in
    let step = load_line-comment p1 mark more l a.0.0 in
    (end, (load-step (comment p1 mark more) xs l l step ∙ loads.0, loads.1))
load_lines-Loads (other raw ∷ xs) l a p q =
    let (end, loads) = load_lines-Loads xs l a.1 p q in
    (end, (load-step (other raw) xs l l (load_line-other raw l a.0.0) ∙ loads.0, loads.1))
load_lines-Loads (entry p1 key p2 p3 v p4 ∷ xs) l a p q = elim (Option-cases l.m) [
  | inl e ↦ let none' = (rw e at p) in absurd none'
  | inr (s, e) ↦
      let (l', set', at, pointing, values) = get_value-set_value s key v l e q in
      let p' : IsPlaced (some s) xs = (rw e at p) in
      let (end, loads) = load_lines-Loads xs l' a.1 (rw at p') pointing in
      let step = load_line-entry p1 key p2 p3 v p4 l a.0.0 ∙ set' in
      (
        end,
        (
          load-step (entry p1 key p2 p3 v p4) xs l l' step ∙ loads.0,
          λ name k. loads.1 name k ∙ rw (at, e, values name k),
        ),
      )
]

-- A file of sections, keys, comments and lines without meaning, with spaces around them, where no key
-- comes before the first section, is loaded, and GetString then answers for each key of each section
-- the last value that the file gives it there, or the default where it gives none.
pub get_string-last_value :
    (xs : List Line)
    → IsFile xs
    → IsPlaced none xs
    → (sections : Sections) × (load (some (render_all xs)) [] ≡ some (true, sections))
      × ((name key default : Text)
          → get_string name key default sections
            ≡ get_or_else (last_value name key none none xs) default)
unfolding load get_string get_value find
get_string-last_value xs a p =
    let (end, loads) = load_lines-Loads xs (record { sections = []; m = none }) a p tt in
    let lines = lines_of-render_all xs a in
    (
      end.sections,
      rw (lines, loads.0),
      λ name key default. ap (λ o. get_or_else o default) (loads.1 name key),
    )

-- Comments and lines without meaning.
abbrev pub IsIdle : Line → Type 0
IsIdle (comment p1 mark more) = Unit {0}
IsIdle (other raw) = Unit {0}
IsIdle x = ⊥

load_lines-null :
    (xs ys : List Line) (p1 key p2 p3 v p4 : Text) (l : Loading)
    → l.m ≡ none
    → All IsIdle xs
    → IsFile (xs ++ (entry p1 key p2 p3 v p4 ∷ ys))
    → load_lines (map render (xs ++ (entry p1 key p2 p3 v p4 ∷ ys)) ++ ([] ∷ [])) l ≡ none
unfolding load_lines set_value
load_lines-null [] ys p1 key p2 p3 v p4 l at i a =
    rw (load_line-entry p1 key p2 p3 v p4 l a.0.0, at)
load_lines-null (comment q mark more ∷ xs) ys p1 key p2 p3 v p4 l at i a =
    rw (load_line-comment q mark more l a.0.0)
      (load_lines-null xs ys p1 key p2 p3 v p4 l at i.1 a.1)
load_lines-null (other raw ∷ xs) ys p1 key p2 p3 v p4 l at i a =
    rw (load_line-other raw l a.0.0) (load_lines-null xs ys p1 key p2 p3 v p4 l at i.1 a.1)
load_lines-null (section q1 q2 s q3 q4 ∷ xs) ys p1 key p2 p3 v p4 l at i a = absurd i.0
load_lines-null (entry q1 k q2 q3 w q4 ∷ xs) ys p1 key p2 p3 v p4 l at i a = absurd i.0

-- A file whose first line that means something is a key makes Load use a null pointer, whatever comes
-- before it and after it.
pub load-null :
    (xs ys : List Line) (p1 key p2 p3 v p4 : Text)
    → All IsIdle xs
    → IsFile (xs ++ (entry p1 key p2 p3 v p4 ∷ ys))
    → load (some (render_all (xs ++ (entry p1 key p2 p3 v p4 ∷ ys)))) [] ≡ none
unfolding load
load-null xs ys p1 key p2 p3 v p4 i a =
    let l : Loading = record { sections = []; m = none } in
    let lines = lines_of-render_all (xs ++ (entry p1 key p2 p3 v p4 ∷ ys)) a in
    rw (lines, load_lines-null xs ys p1 key p2 p3 v p4 l refl i a)
