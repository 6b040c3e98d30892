-- ===== src/Text.antt =====
-- The text functions of src/spinner_core/spinner_core_util.cpp (trim, join, split, format_with_commas), and
-- parse_command of src/util.cpp, with what they use of the standard library. A string is the list of its bytes.
pub mod Split
pub mod Commas
pub mod Numbers
pub mod Equal
pub mod Trim
use Prim.Native.Char.{code}
use Prim.Native.String.{String}
use data_spinner.Base.{
  ℕ, zero, suc, ◌+◌, ◌-◌, ◌*◌, ◌/◌, ◌%◌, Bool, true, false, ◌&&◌, ◌||◌, not, Option, none, some,
  List, [], ◌∷◌, ◌++◌, ltb, leb, ◌==◌, if◌then◌else◌, length, take, drop,
}
use data_spinner.Records.{Str}
use mathlib.Core.List.{reverse}

-- The bytes of an ASCII literal.
abbrev pub codes : String → Str
codes String.[] = []
codes (String.◌∷◌ c s) = code c ∷ codes s

-- operator== of std::string
unfoldable pub same_str : Str → Str → Bool
same_str [] [] = true
same_str [] (b ∷ t) = false
same_str (a ∷ s) [] = false
same_str (a ∷ s) (b ∷ t) = (a == b) && same_str s t

-- std::isspace in the C locale
abbrev pub isspace : ℕ → Bool
isspace c = (c == 32) || (leb 9 c && leb c 13)

-- s.erase(s.begin(), std::find_if(s.begin(), s.end(), ...))
unfoldable pub erase_front : Str → Str
erase_front [] = []
erase_front (c ∷ s) = if isspace c then erase_front s else c ∷ s

-- A byte in front of what is left of the rest.
unfoldable pub keep : ℕ → Str → Str
keep c [] = if isspace c then [] else c ∷ []
keep c (d ∷ t) = c ∷ d ∷ t

-- s.erase(std::find_if(s.rbegin(), s.rend(), ...).base(), s.end())
unfoldable pub erase_back : Str → Str
erase_back [] = []
erase_back (c ∷ s) = keep c (erase_back s)

-- void trim(std::string& s)
unfoldable pub trim : Str → Str
trim s = erase_back (erase_front s)

-- The loop of std::accumulate.
unfoldable pub join_onto : ℕ → Str → List Str → Str
join_onto separator s0 [] = s0
join_onto separator s0 (s1 ∷ v) = join_onto separator (s0 ++ (separator ∷ s1)) v

-- std::string join(v, separator): on an empty vector it reads v[0], which is undefined.
unfoldable pub join : List Str → ℕ → Option Str
join [] separator = none
join (s ∷ v) separator = some (join_onto separator s v)

-- std::getline(f, s1, separator): the text up to the separator, and what is left behind it; `none` at the
-- end of the stream.
unfoldable pub getline : ℕ → Str → Option (Str × Str)
getline separator [] = none
getline separator (c ∷ s) =
    if c == separator
    then some ([], s)
    else elim (getline separator s) [ none ↦ some (c ∷ [], []) | some (l, r) ↦ some (c ∷ l, r) ]

-- The loop of split; each round takes a byte at least, so the length is enough fuel.
unfoldable pub split_loop : ℕ → ℕ → Str → List Str
split_loop zero separator f = []
split_loop (suc fuel) separator f = elim (getline separator f) [
  | none ↦ []
  | some (s1, rest) ↦ s1 ∷ split_loop fuel separator rest
]

-- std::vector<std::string> split(s, separator)
unfoldable pub split : Str → ℕ → List Str
unfolding split_loop getline
split s separator = split_loop (length s) separator s

-- An int; `negsuc n` is -(n + 1).
pub data ℤ : Type 0 where
  pos : ℕ → ℤ
  negsuc : ℕ → ℤ

-- The decimal digits of a number before those in `acc`; a number has at most as many as its value, and one.
unfoldable pub digits_onto : ℕ → ℕ → Str → Str
digits_onto zero n acc = acc
digits_onto (suc fuel) n acc =
    let rest = digits_onto fuel (n / 10) ((48 + n % 10) ∷ acc) in
    if ltb n 10 then (48 + n) ∷ acc else rest

-- std::to_string of an int
unfoldable pub to_string : ℤ → Str
unfolding digits_onto
to_string (pos n) = digits_onto (suc n) n []
to_string (negsuc n) = 45 ∷ digits_onto (suc (suc n)) (suc n) []

-- rv.insert(at, ",")
unfoldable pub insert_comma : ℕ → Str → Str
insert_comma at rv = take at rv ++ (44 ∷ drop at rv)

-- `while (insertPosition > 0)`; the position falls, so it is enough fuel itself. Below 0 it is 0 here.
unfoldable pub comma_loop : ℕ → ℕ → Str → Str
comma_loop zero insert_position rv = rv
comma_loop (suc fuel) insert_position rv =
    let rest = comma_loop fuel (insert_position - 3) (insert_comma insert_position rv) in
    if ltb 0 insert_position then rest else rv

-- What format_with_commas does with the text of the number.
unfoldable pub with_commas : Str → Str
unfolding comma_loop insert_comma
with_commas rv = comma_loop (length rv - 3) (length rv - 3) rv

-- std::string format_with_commas(int number)
unfoldable pub format_with_commas : ℤ → Str
unfolding with_commas to_string
format_with_commas number = with_commas (to_string number)

abbrev pub isdigit : ℕ → Bool
isdigit c = leb 48 c && leb c 57

-- The value of the digits in front of a text, behind those that gave `value`.
unfoldable pub digits_value : ℕ → Str → ℕ
digits_value value [] = value
digits_value value (c ∷ s) =
    let rest = digits_value (value * 10 + (c - 48)) s in if isdigit c then rest else value

-- The digits behind the sign: `none` is std::invalid_argument.
unfoldable pub unsigned : Str → Option ℕ
unsigned [] = none
unsigned (c ∷ s) = if isdigit c then some (digits_value 0 (c ∷ s)) else none

-- What does not fit an int is std::out_of_range, `none` too.
abbrev pub to_int : Option ℕ → Option ℤ
to_int none = none
to_int (some n) = if ltb n 2147483648 then some (pos n) else none

abbrev pub to_negative : Option ℕ → Option ℤ
to_negative none = none
to_negative (some zero) = some (pos 0)
to_negative (some (suc n)) = if ltb n 2147483648 then some (negsuc n) else none

unfoldable pub signed : Str → Option ℤ
unfolding unsigned
signed [] = none
signed (c ∷ s) =
    if c == 45
    then to_negative (unsigned s)
    else if c == 43
    then to_int (unsigned s)
    else to_int (unsigned (c ∷ s))

-- std::stoi: what follows the digits is ignored.
unfoldable pub stoi : Str → Option ℤ
unfolding signed erase_front
stoi s = signed (erase_front s)

-- ECommand parse_command(const std::string& s), by its uint8_t; what is not recognised is cmd_none.
unfoldable pub parse_command : Str → ℕ
parse_command [] = 0
parse_command (v ∷ s) =
    if (v == 115) || (v == 117) || (v == 116) || (v == 110) || (v == 98) || (v == 108) || (v == 113)
    then v
    else 0
