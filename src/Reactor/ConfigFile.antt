-- ===== src/Reactor/ConfigFile.antt =====
-- reactor/include/config_file.h and reactor/src/config_file.cc: the configuration in sections of
-- keys and values. The contents of the file are an argument, none if it cannot be opened.
pub mod Lines
pub mod Log
pub mod Lists
pub mod Numbers
use rins.Prelude.{
  ℕ, zero, suc, ◌+◌, ◌-◌, ◌*◌, ◌^◌, ◌%◌, min, ◌==◌, leb, if◌then◌else◌, Bool, true, false, ◌&&◌,
  ◌||◌, List, [], ◌∷◌, length, take, drop, get_elem?, Option, none, some, Result, ok, fault, ◌>>=◌,
  ◌>>◌, check, assertion, bad_pointer, out_of_fuel,
}
use rins.Prelude.Words.{low32}
use rins.Reactor.Text.{Text, text_eq, find, put, first_not_empty, trim, index_of}

abbrev pub StrMap : Type 0
StrMap = List (Text × List (Text × Text))

-- `s[i] == c`
unfoldable pub is_at : Text → ℕ → ℕ → Bool
is_at s i c = elim (get_elem? s i) [ none ↦ false | some d ↦ d == c ]

-- `config_file::is_section`, with the name where it returns true
unfoldable pub is_section : Text → Option Text
is_section line =
    let section = trim line in
    if leb (length section) 2
    then none
    else if is_at section 0 b'[' && is_at section (length section - 1) b']'
    then some (trim (take (length section - 2) (drop 1 section)))
    else none

-- The variables of `load`: `section` names the section that `m` points to, none for a null `m`.
pub record Loader : Type 0 where
  pub map : StrMap
  pub section : Option Text

-- A line with a section: `m` points to the section of that name, which is made if it is new.
unfoldable pub open_section : Text → Loader → Loader
open_section name l = record {
  map = elim (find name l.map) [ none ↦ put name [] l.map | some entries ↦ l.map ];
  section = some name;
}

-- The value is stored under the key in the section that `m` points to.
unfoldable pub assign : Text → Text → Loader → Result Loader
assign key value l = elim l.section [
  | none ↦ fault bad_pointer
  | some name ↦ elim (find name l.map) [
    | none ↦ fault bad_pointer
    | some entries ↦ ok (record l { map = put name (put key value entries) l.map })
  ]
]

-- A line with a `=`, from the two sides of it
unfoldable pub read_entry : Text → Text → Loader → Result Loader
read_entry key value l =
    if length key == 0
    then ok l
    else if is_at key 0 b'#' || is_at key 0 b';'
    then ok l
    else assign key value l

-- One round of the loop of `load`
unfoldable pub read_line : Text → Loader → Result Loader
read_line line l = elim (is_section line) [
  | some name ↦ ok (open_section name l)
  | none ↦ elim (index_of b'=' line) [
    | none ↦ ok l
    | some equ_pos ↦ read_entry (trim (take equ_pos line)) (trim (drop (equ_pos + 1) line)) l
  ]
]

unfoldable pub add_first : ℕ → List Text → List Text
add_first c [] = (c ∷ []) ∷ []
add_first c (line ∷ lines) = (c ∷ line) ∷ lines

-- What the calls of `getline` give until the end of the file, the last line also where it is empty
unfoldable pub split_lines : Text → List Text
split_lines [] = [] ∷ []
split_lines (c ∷ s) =
    let lines = split_lines s in if c == b'\n' then [] ∷ lines else add_first c lines

unfoldable pub read_lines : List Text → Loader → Result Loader
read_lines [] l = ok l
read_lines (line ∷ lines) l = do next ← read_line line l; read_lines lines next

-- `config_file::load`
unfoldable pub load : Option Text → StrMap → Result (Bool × StrMap)
load none m = ok (false, m)
load (some text) m = do
  l ← read_lines (split_lines text) (record { map = m; section = none })
  ok (true, l.map)

-- `config_file::set_path`, with the static `config` before and after
unfoldable pub set_path : Option Text → Option StrMap → Result (Bool × Option StrMap)
set_path file (some m) = fault assertion
set_path file none = do r ← load file []; ok (r.0, some r.1)

-- `config_file::instance`
unfoldable pub config_instance : Option StrMap → Result StrMap
config_instance none = fault assertion
config_instance (some m) = ok m

-- `find` in the section and then for the key
unfoldable pub find_value : Text → Text → StrMap → Option Text
find_value section key m = elim (find section m) [ none ↦ none | some entries ↦ find key entries ]

-- `config_file::get_string`
unfoldable pub get_string : Text → Text → Text → StrMap → Text
get_string section key default_value m = elim (find_value section key m) [
  | none ↦ default_value
  | some value ↦ value
]

unfoldable pub to_lower : ℕ → ℕ
to_lower c = if leb b'A' c && leb c b'Z' then c + 32 else c

-- `strcasecmp(s.c_str(), t.c_str()) == 0`: the strings end at their first 0.
unfoldable pub strcaseeq : Text → Text → Bool
strcaseeq [] [] = true
strcaseeq [] (d ∷ t) = d == 0
strcaseeq (c ∷ s) [] = c == 0
strcaseeq (c ∷ s) (d ∷ t) = to_lower c == to_lower d && (c == 0 || strcaseeq s t)

-- `config_file::get_bool`
unfoldable pub get_bool : Text → Text → Bool → StrMap → Bool
get_bool section key default_value m = elim (find_value section key m) [
  | none ↦ default_value
  | some value ↦ if strcaseeq value (b't' ∷ b'r' ∷ b'u' ∷ b'e' ∷ []) then true else default_value
]

-- The digits in front, as a number
unfoldable pub read_digits : Text → ℕ → ℕ
read_digits [] n = n
read_digits (c ∷ s) n =
    let rest = read_digits s (n * 10 + (c - b'0')) in if leb b'0' c && leb c b'9' then rest else n

-- `iss >> v` for a `long long`, as a 64-bit pattern: behind white space and a sign, clamped
unfoldable pub read_signed : Text → ℕ
read_signed [] = 0
read_signed (c ∷ s) =
    if c == b'-'
    then (2 ^ 64 - min (read_digits s 0) (2 ^ 63)) % 2 ^ 64
    else min (read_digits (if c == b'+' then s else c ∷ s) 0) (2 ^ 63 - 1)

-- `config_file::parse_number`
unfoldable pub parse_number : Text → ℕ
parse_number s = low32 (read_signed (drop (first_not_empty s 0) s))

-- `config_file::get_number`
unfoldable pub get_number : Text → Text → ℕ → StrMap → ℕ
get_number section key default_value m = elim (find_value section key m) [
  | none ↦ default_value
  | some value ↦ parse_number value
]

-- `config_file::get_float`; `show` is the `<<` of a `float` into a stream, and `read` what `>>` leaves
-- in `result`, also where it fails. The default goes through its text.
unfoldable pub get_float : {F : Type 0} → (F → Text) → (Text → F) → Text → Text → F → StrMap → F
get_float show read section key default_value m =
    read (get_string section key (show default_value) m)

unfoldable pub is_sep : ℕ → Bool
is_sep c = c == b',' || c == b'\t'

-- `str.find_first_of(sep, start)` for true, `str.find_first_not_of(sep, start)` for false, in the
-- text from `start` on
unfoldable pub find_first : Bool → Text → ℕ → Option ℕ
find_first wanted [] start = none
find_first true (c ∷ s) start = if is_sep c then some start else find_first true s (start + 1)
find_first false (c ∷ s) start = if is_sep c then find_first false s (start + 1) else some start

-- The loop of `get_string_list` from `start` on. Each round takes one byte at least.
unfoldable pub list_loop : ℕ → Text → ℕ → Result (List Text)
list_loop zero str start = fault out_of_fuel
list_loop (suc fuel) str start = elim (find_first true (drop start str) start) [
  | none ↦ ok (drop start str ∷ [])
  | some index ↦ elim (find_first false (drop index str) index) [
    | none ↦ ok (take (index - start) (drop start str) ∷ [])
    | some next ↦ do
      substrs ← list_loop fuel str next
      ok (take (index - start) (drop start str) ∷ substrs)
  ]
]

-- `config_file::get_string_list`
unfoldable pub get_string_list : Text → Text → StrMap → Result (List Text)
get_string_list section key m =
    let str = get_string section key [] m in list_loop (suc (length str)) str 0
