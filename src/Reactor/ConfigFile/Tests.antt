-- ===== src/Reactor/ConfigFile/Tests.antt =====
-- A small configuration file.
use mathlib.Core.List.{reverse}
use ylars.Base.{
  ◌≡◌, refl, true, false, List, [], ◌∷◌, ◌++◌, none, some, map, arith, get_or_else, length,
}
use ylars.Reactor.ConfigFile.{
  Text, codes, Sections, load, get_string, get_value, find, put, is_section, section_in, trim,
  trim_left, trim_right, walk_back, first_not_empty, load_lines, load_line, lines_of, cut, enter,
  set_value,
}
use ylars.Reactor.ConfigFile.Getters.{
  get_number, get_bool, get_string_list, parse_number, digits, c_str, split, next_sep, skip_seps,
}
use ylars.Reactor.ConfigFile.Text.{IsTight}
use ylars.Reactor.ConfigFile.Lines.{Line, section, entry, comment, render, IsKey}
use ylars.Reactor.ConfigFile.Load.{IsFile, render_all, last_value, get_string-last_value, load-null}
use ylars.Reactor.ConfigFile.Lists.{get_string_list-joined}
use ylars.Reactor.ConfigFile.Numbers.{decimal, get_number-decimal}

abbrev text : Text
text =
    codes
      "# start\n[reactor]\nip = 0.0.0.0 \nport=7779\nport = 80 x\n\n[ mysql ]\nlist = a, b\tc \n;x=1\non = TRUE\n"

abbrev loaded : Sections
loaded =
    (codes "reactor", (codes "ip", codes "0.0.0.0") ∷ (codes "port", codes "80 x") ∷ [])
    ∷ (codes "mysql", (codes "list", codes "a, b\tc") ∷ (codes "on", codes "TRUE") ∷ [])
    ∷ []

load-text : load (some text) [] ≡ some (true, loaded)
unfolding load load_lines load_line lines_of is_section section_in trim trim_left trim_right
    walk_back first_not_empty cut enter set_value find put
load-text = refl

port-text : get_number (codes "reactor") (codes "port") 1 loaded ≡ 80
unfolding get_number get_value find parse_number first_not_empty digits
port-text = refl

list-text :
    get_string_list (codes "mysql") (codes "list") loaded ≡ codes "a" ∷ codes "b" ∷ codes "c" ∷ []
unfolding get_string_list get_string get_value find split next_sep skip_seps
list-text = refl

on-text : get_bool (codes "mysql") (codes "on") false loaded ≡ true
unfolding get_bool get_value find c_str
on-text = refl

-- The value of a flag that is there and not true is the default.
off-text : get_bool (codes "reactor") (codes "ip") true loaded ≡ true
unfolding get_bool get_value find c_str
off-text = refl

abbrev port_line : Line
port_line = entry [] (codes "port") (codes " ") (codes " ") (codes "80") []

abbrev sample : List Line
sample =
    comment [] b'#' (codes " start")
    ∷ section [] [] (codes "reactor") [] []
    ∷ entry [] (codes "port") [] [] (codes "7779") []
    ∷ port_line
    ∷ []

tight : (t : Text) → first_not_empty t ≡ 0 → walk_back (reverse t) (length t) ≡ length t → IsTight t
tight t f b = record { front = f; back = b }

port-IsKey : IsKey (codes "port")
unfolding first_not_empty walk_back
port-IsKey = record {
  tight = tight (codes "port") refl refl;
  no_equals = (refl, (refl, (refl, (refl, tt))));
  some_byte = refl;
  no_bracket = refl;
  no_comment = refl;
}

port_line-IsFile : IsFile (port_line ∷ [])
unfolding first_not_empty walk_back render
port_line-IsFile = (
  (
    (tt, port-IsKey, (refl, tt), (refl, tt), tight (codes "80") refl refl, tt),
    (refl, (refl, (refl, (refl, (refl, (refl, (refl, (refl, (refl, tt))))))))),
  ),
  tt,
)

sample-IsFile : IsFile sample
unfolding first_not_empty walk_back render
sample-IsFile = (
  ((tt, refl), (refl, (refl, (refl, (refl, (refl, (refl, (refl, tt)))))))),
  (
    (
      (tt, tt, (tight (codes "reactor") refl refl, omega arith), tt, tt),
      (refl, (refl, (refl, (refl, (refl, (refl, (refl, (refl, (refl, tt))))))))),
    ),
    (
      (
        (tt, port-IsKey, tt, tt, tight (codes "7779") refl refl, tt),
        (refl, (refl, (refl, (refl, (refl, (refl, (refl, (refl, (refl, tt))))))))),
      ),
      port_line-IsFile,
    ),
  ),
)

get_string-last_value_example :
    (sections : Sections) × (load (some (render_all sample)) [] ≡ some (true, sections))
    × ((name key default : Text)
        → get_string name key default sections
          ≡ get_or_else (last_value name key none none sample) default)
get_string-last_value_example = get_string-last_value sample sample-IsFile tt

load-null_example : load (some (render_all ([] ++ (port_line ∷ [])))) [] ≡ none
load-null_example =
    load-null [] [] [] (codes "port") (codes " ") (codes " ") (codes "80") [] tt port_line-IsFile

abbrev items : List (Text × Text)
items = (codes "a", codes ", ") ∷ (codes "b", codes "\t") ∷ (codes "c", []) ∷ []

get_string_list-joined_example :
    get_string_list (codes "mysql") (codes "list") loaded ≡ map (λ x. x.0) items
unfolding get_value find
get_string_list-joined_example =
    get_string_list-joined (codes "mysql") (codes "list") loaded items
      (
        (omega arith, (refl, tt)),
        (refl, (refl, tt)),
        omega arith,
        ((omega arith, (refl, tt)), (refl, tt), omega arith, ((omega arith, (refl, tt)), tt)),
      )
      refl

get_number-decimal_example : get_number (codes "reactor") (codes "port") 1 loaded ≡ 80
unfolding get_value find decimal
get_number-decimal_example =
    get_number-decimal (codes "reactor") (codes "port") [] (codes " x") 80 1 loaded (omega arith) tt
      refl refl
