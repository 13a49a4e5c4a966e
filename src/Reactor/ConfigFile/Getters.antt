-- ===== src/Reactor/ConfigFile/Getters.antt =====
-- reactor/src/config_file.cpp: GetNumber, GetBool and GetStringList. Numbers are read as operator>>
-- of a long long reads them: a number out of its range becomes the nearest in it, and where no number
-- stands the result is 0.
use ylars.Base.{
  ℕ, zero, suc, ◌+◌, ◌-◌, ◌*◌, ◌%◌, ◌^◌, List, [], ◌∷◌, Option, none, some, Bool, true, map, leb,
  ◌==◌, ◌&&◌, ◌||◌, if◌then◌else◌, length, drop, min,
}
use ylars.Reactor.ConfigFile.{Text, Sections, same_text, get_value, get_string, first_not_empty}

abbrev pub is_digit : ℕ → Bool
is_digit c = leb b'0' c && leb c b'9'

-- The number that the digits at the front of a text spell, behind those that were read before.
unfoldable pub digits : ℕ → Text → ℕ
digits n [] = n
digits n (c ∷ s) = let more = digits (10 * n + (c - b'0')) s in if is_digit c then more else n

abbrev pub long_max : ℕ
long_max = 9223372036854775807

-- The low 32 bits of the long long.
abbrev pub positive : ℕ → ℕ
positive n = min n long_max % 2 ^ 32

abbrev pub negative : ℕ → ℕ
negative n = (2 ^ 32 - min n (long_max + 1) % 2 ^ 32) % 2 ^ 32

abbrev pub signed : Text → ℕ
signed [] = 0
signed (c ∷ s) =
    if c == b'-'
    then negative (digits 0 s)
    else if c == b'+'
    then positive (digits 0 s)
    else positive (digits 0 (c ∷ s))

unfoldable pub parse_number : Text → ℕ
parse_number s = signed (drop (first_not_empty s) s)

unfoldable pub get_number : Text → Text → ℕ → Sections → ℕ
get_number section key default sections = elim (get_value section key sections) [
  | none ↦ default
  | some text ↦ parse_number text
]

abbrev pub to_lower : ℕ → ℕ
to_lower c = if leb b'A' c && leb c b'Z' then c + 32 else c

-- c_str ends at the first byte 0.
unfoldable pub c_str : Text → Text
c_str [] = []
c_str (c ∷ s) = let more = c_str s in if c == 0 then [] else c ∷ more

abbrev pub same_case : Text → Text → Bool
same_case s t = same_text (map to_lower (c_str s)) (map to_lower (c_str t))

abbrev pub true_text : Text
true_text = b't' ∷ b'r' ∷ b'u' ∷ b'e' ∷ []

unfoldable pub get_bool : Text → Text → Bool → Sections → Bool
get_bool section key default sections = elim (get_value section key sections) [
  | none ↦ default
  | some text ↦ if same_case text true_text then true else default
]

-- ", \t"
abbrev pub is_sep : ℕ → Bool
is_sep c = (c == b',') || ((c == 32) || (c == 9))

-- str.substr(start, index - start), where index is the next separator, and what stands from there;
-- `none` where there is no separator.
unfoldable pub next_sep : Text → Option (Text × Text)
next_sep [] = none
next_sep (c ∷ s) =
    let more = next_sep s in
    if is_sep c
    then some ([], c ∷ s)
    else elim more [ none ↦ none | some (word, rest) ↦ some (c ∷ word, rest) ]

-- From find_first_not_of on; empty where that is npos.
unfoldable pub skip_seps : Text → Text
skip_seps [] = []
skip_seps (c ∷ s) = let more = skip_seps s in if is_sep c then more else c ∷ s

-- The loop ends where nothing stands behind the separators.
abbrev pub go_on : (Text → List Text) → Text → List Text
go_on more [] = []
go_on more (c ∷ s) = more (c ∷ s)

-- The loop from `start` on. Each turn goes past a separator, so that the bytes are fuel enough.
unfoldable pub split : ℕ → Text → List Text
split zero str = str ∷ []
split (suc fuel) str = elim (next_sep str) [
  | none ↦ str ∷ []
  | some (word, rest) ↦ word ∷ go_on (split fuel) (skip_seps rest)
]

unfoldable pub get_string_list : Text → Text → Sections → List Text
get_string_list section key sections =
    let str = get_string section key [] sections in split (length str) str
