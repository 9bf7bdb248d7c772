-- ===== src/Reactor/ConfigTests.antt =====
-- The theorems on the configuration at concrete texts.
use rins.Prelude.{◌≡◌, refl, List, [], ◌∷◌, true, ok, fault, bad_pointer, arith}
use rins.Reactor.Text.{
  Text, text_eq, find, is_space, first_not_empty, trim_left, last_not_empty, trim_right, trim,
  index_of,
}
use rins.Reactor.Text.Trim.{leading}
use rins.Reactor.ConfigFile.{
  StrMap, is_at, is_section, split_lines, add_first, get_string, find_value, get_string_list,
  is_sep, get_bool, strcaseeq, to_lower, parse_number, read_signed, read_digits,
}
use rins.Reactor.ConfigFile.Log.{
  Directive, opens, sets, directive, entry_directive, entry_log, last_value, logged_value,
  load-last_value, load_and_get,
}
use rins.Reactor.ConfigFile.Lines.{print, load-print}
use rins.Reactor.ConfigFile.Numbers.{number, print_digits, parse_number-print_digits}
use rins.Reactor.ConfigFile.Lists.{pieces, get_string_list-pieces}

-- "[r]\n port = 80 \nport=81"
abbrev two_ports : Text
two_ports =
    b'[' ∷ b'r' ∷ b']' ∷ b'\n' ∷ b' ' ∷ b'p' ∷ b' ' ∷ b'=' ∷ b' ' ∷ b'8' ∷ b' ' ∷ b'\n' ∷ b'p'
    ∷ b'=' ∷ b'9' ∷ []

load-last_value_example : load_and_get two_ports (b'r' ∷ []) (b'p' ∷ []) [] ≡ ok (true, b'9' ∷ [])
unfolding entry_log last_value logged_value directive entry_directive is_section is_at split_lines
    add_first text_eq is_space first_not_empty trim_left last_not_empty trim_right trim index_of
load-last_value_example = load-last_value two_ports (b'r' ∷ []) (b'p' ∷ []) []

-- An entry before the first section
stray_entry : load_and_get ((b'p' ∷ b'=' ∷ b'9' ∷ [])) [] [] [] ≡ fault bad_pointer
unfolding entry_log last_value logged_value directive entry_directive is_section is_at split_lines
    add_first is_space first_not_empty trim_left last_not_empty trim_right trim index_of
stray_entry = load-last_value (b'p' ∷ b'=' ∷ b'9' ∷ []) [] [] []

abbrev one_entry : List Directive
one_entry = opens (b'r' ∷ []) ∷ sets (b'p' ∷ []) (b'8' ∷ b' ' ∷ b'9' ∷ []) ∷ []

load-print_example :
    load_and_get ((print one_entry)) (b'r' ∷ []) (b'p' ∷ []) [] ≡ ok (true, b'8' ∷ b' ' ∷ b'9' ∷ [])
unfolding entry_log last_value logged_value text_eq leading is_space is_at
load-print_example = load-print one_entry (b'r' ∷ []) (b'p' ∷ []) [] (
  record { tight = (refl, refl); full = omega arith; one_line = (refl, tt) },
  (
    (
      record {
        tight = (refl, refl);
        one_line = (refl, tt);
        full = omega arith;
        no_equals = (refl, tt);
        no_bracket = refl;
        no_hash = refl;
        no_semicolon = refl;
      },
      ((refl, refl), (refl, (refl, (refl, tt)))),
    ),
    tt,
  ),
)

-- "1,\t2," under the key "l" of the section "r"
abbrev with_list : StrMap
with_list = (b'r' ∷ [], (b'l' ∷ [], b'1' ∷ b',' ∷ b'\t' ∷ b'2' ∷ b',' ∷ []) ∷ []) ∷ []

get_string_list-pieces_example :
    get_string_list (b'r' ∷ []) (b'l' ∷ []) with_list ≡ ok ((b'1' ∷ []) ∷ (b'2' ∷ []) ∷ [])
unfolding pieces add_first is_sep get_string find_value find text_eq
get_string_list-pieces_example = get_string_list-pieces (b'r' ∷ []) (b'l' ∷ []) with_list

-- A value that says false does not override a default that is true.
get_bool_false :
    get_bool (b'r' ∷ []) (b'l' ∷ []) true ((b'r' ∷ [], (b'l' ∷ [], b'f' ∷ []) ∷ []) ∷ []) ≡ true
unfolding get_bool find_value find text_eq strcaseeq to_lower
get_bool_false = refl

negative_number : parse_number (b' ' ∷ b'-' ∷ b'1' ∷ b'2' ∷ b'x' ∷ []) ≡ 4294967284
unfolding parse_number read_signed read_digits first_not_empty is_space
negative_number = refl

-- "1024"
reads_digits : parse_number (print_digits (1 ∷ 0 ∷ 2 ∷ 4 ∷ [])) ≡ 1024
unfolding number
reads_digits =
    parse_number-print_digits (1 ∷ 0 ∷ 2 ∷ 4 ∷ [])
      (omega arith, (omega arith, (omega arith, (omega arith, tt)))) (omega arith)
