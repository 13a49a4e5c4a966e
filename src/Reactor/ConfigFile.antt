-- ===== src/Reactor/ConfigFile.antt =====
-- reactor/src/config_file.cpp: a file of sections and keys, as lists of bytes. A null pointer that is
-- used, and an assertion that fails, are `none`. GetFloat is left out: it reads and prints floats.
pub mod Getters
pub mod Text
pub mod Tables
pub mod Lines
pub mod Load
pub mod Lists
pub mod Numbers
mod Tests
use mathlib.Core.List.{reverse}
use Prim.Native.Char.{code}
use Prim.Native.String.{String}
use ylars.Base.{
  ℕ, zero, suc, ◌+◌, ◌-◌, ◌*◌, ◌%◌, ◌^◌, List, [], ◌∷◌, ◌++◌, Option, none, some, map, Bool, true,
  false, not, leb, ltb, ◌==◌, ◌&&◌, ◌||◌, if◌then◌else◌, ◌>>=◌, length, take, drop, get_elem?,
  get_or_else, is_some,
}

abbrev pub Text : Type 0
Text = List ℕ

-- The bytes of a literal.
abbrev pub codes : String → Text
codes String.[] = []
codes (String.◌∷◌ c s) = code c ∷ codes s

-- isspace in the C locale: the blank, and the bytes from \t to \r.
abbrev pub is_space : ℕ → Bool
is_space c = (c == 32) || (leb 9 c && leb c 13)

unfoldable pub first_not_empty : Text → ℕ
first_not_empty [] = 0
first_not_empty (c ∷ s) = let more = first_not_empty s in if is_space c then suc more else 0

unfoldable pub trim_left : Text → Text
trim_left s = drop (first_not_empty s) s

-- The walk from the end of the text, whose bytes come in the order that the iterator meets them.
unfoldable pub walk_back : Text → ℕ → ℕ
walk_back [] last_not_empty = last_not_empty
walk_back (c ∷ back) last_not_empty =
    let more = walk_back back (last_not_empty - 1) in if is_space c then more else last_not_empty

unfoldable pub trim_right : Text → Text
trim_right s = take (walk_back (reverse s) (length s)) s

unfoldable pub trim : Text → Text
trim s = trim_left (trim_right s)

abbrev pub is_nil : Text → Bool
is_nil [] = true
is_nil (c ∷ s) = false

-- s.at(i) == c, where i is in range.
abbrev pub is_at : Text → ℕ → ℕ → Bool
is_at s i c = elim (get_elem? s i) [ none ↦ false | some d ↦ d == c ]

unfoldable pub section_in : Text → Option Text
section_in s =
    if is_nil s || leb (length s) 2
    then none
    else if not (is_at s 0 b'[') || not (is_at s (length s - 1) b']')
    then none
    else some (trim (take (length s - 2) (drop 1 s)))

unfoldable pub is_section : Text → Option Text
is_section line = section_in (trim line)

-- What stands before and after the first '='.
unfoldable pub cut : Text → Option (Text × Text)
cut [] = none
cut (c ∷ s) =
    let more = cut s in
    if c == b'=' then some ([], s) else (more >>= λ (key, value). some (c ∷ key, value))

abbrev pub same_text : Text → Text → Bool
same_text [] [] = true
same_text [] (d ∷ t) = false
same_text (c ∷ s) [] = false
same_text (c ∷ s) (d ∷ t) = (c == d) && same_text s t

-- std::map with a text for its key; nothing depends on the order.
abbrev pub Table {ℓ} : Type ℓ → Type ℓ
Table V = List (Text × V)

module _ {ℓ} {V : Type ℓ} where
  unfoldable pub find : Text → Table V → Option V
  find k [] = none
  find k ((j, v) ∷ t) = if same_text j k then some v else find k t

  unfoldable pub put : Text → V → Table V → Table V
  put k v [] = (k, v) ∷ []
  put k v ((j, w) ∷ t) = if same_text j k then (k, v) ∷ t else (j, w) ∷ put k v t

abbrev pub Sections : Type 0
Sections = Table (Table Text)

-- `m` points to the table of a section, or nowhere.
pub record Loading : Type 0 where
  pub sections : Sections
  pub m : Option Text

unfoldable pub enter : Text → Loading → Loading
enter section l =
    if is_some (find section l.sections)
    then record l { m = some section }
    else record { sections = put section [] l.sections; m = some section }

unfoldable pub set_value : Text → Text → Loading → Option Loading
set_value key value l = l.m >>= λ section. find section l.sections >>= λ table.
    some (record l { sections = put section (put key value table) l.sections })

abbrev pub is_comment : Text → Bool
is_comment key = is_at key 0 b'#' || is_at key 0 b';'

abbrev pub load_entry : Text × Text → Loading → Option Loading
load_entry (left, right) l =
    if is_nil (trim left) || is_comment (trim left)
    then some l
    else set_value (trim left) (trim right) l

unfoldable pub load_line : Text → Loading → Option Loading
load_line line l = elim (is_section line) [
  | some section ↦ some (enter section l)
  | none ↦ elim (cut line) [ none ↦ some l | some entry ↦ load_entry entry l ]
]

unfoldable pub load_lines : List Text → Loading → Option Loading
load_lines [] l = some l
load_lines (line ∷ lines) l = load_line line l >>= λ l'. load_lines lines l'

-- The lines that getline yields; behind the last line break is one more, which may be empty.
abbrev pub add_byte : ℕ → List Text → List Text
add_byte c [] = (c ∷ []) ∷ []
add_byte c (line ∷ lines) = (c ∷ line) ∷ lines

unfoldable pub lines_of : Text → List Text
lines_of [] = [] ∷ []
lines_of (c ∷ s) = let more = lines_of s in if c == b'\n' then [] ∷ more else add_byte c more

-- The content of the file, `none` where it is not there.
unfoldable pub load : Option Text → Sections → Option (Bool × Sections)
load none sections = some (false, sections)
load (some text) sections =
    load_lines (lines_of text) (record { sections = sections; m = none }) >>= λ l.
    some (true, l.sections)

unfoldable pub get_value : Text → Text → Sections → Option Text
get_value section key sections = find section sections >>= find key

unfoldable pub get_string : Text → Text → Text → Sections → Text
get_string section key default sections = get_or_else (get_value section key sections) default

-- setPath, which sets the one configuration of the process.
unfoldable pub set_path : Option Text → Option Sections → Option (Bool × Option Sections)
set_path file (some config) = none
set_path file none = load file [] >>= λ (ok, sections). some (ok, some sections)
