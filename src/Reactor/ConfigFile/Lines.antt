-- ===== src/Reactor/ConfigFile/Lines.antt =====
-- A configuration written out line by line.
use rins.Prelude.{
  ℕ, zero, suc, ◌+◌, ◌<◌, ◌≡◌, refl, ap, ◌∙◌, ◌==◌, if◌then◌else◌, false, List, [], ◌∷◌, ◌++◌, map,
  reverse, reverse-append, length, length-append, take, drop, All-append, take-length-append,
  get_elem?, Option, none, some, All, arith,
}
use rins.Reactor.Text.{
  Text, is_space, trim, trim_right, trim_left, first_not_empty, index_of, last_not_empty,
}
use rins.Reactor.Text.Trim.{IsTight, trim-IsTight, leading, trim_left_lem}
use rins.Reactor.ConfigFile.{is_at, is_section, add_first, split_lines}
use rins.Reactor.ConfigFile.Log.{
  Directive, opens, sets, skips, entry_directive, directive, entry_log, logged_value,
  load-last_value, load_and_get,
}

abbrev LacksByte : ℕ → Text → Type 0
LacksByte c = All (λ d. (d == c) ≡ false)

unfoldable pub print_directive : Directive → Text
print_directive (opens name) = b'[' ∷ name ++ (b']' ∷ [])
print_directive (sets key value) = key ++ (b'=' ∷ value)
print_directive skips = []

unfoldable pub print : List Directive → Text
print [] = []
print (d ∷ ds) = print_directive d ++ (b'\n' ∷ print ds)

-- What a section's name and a key must be to be read back.
pub record IsName (name : Text) : Type 0 where
  pub tight : IsTight name
  pub full : 0 < length name
  pub one_line : LacksByte b'\n' name

pub record IsKey (key : Text) : Type 0 where
  pub tight : IsTight key
  pub one_line : LacksByte b'\n' key
  pub full : 0 < length key
  pub no_equals : LacksByte b'=' key
  pub no_bracket : is_at key 0 b'[' ≡ false
  pub no_hash : is_at key 0 b'#' ≡ false
  pub no_semicolon : is_at key 0 b';' ≡ false

abbrev pub IsWritable : Directive → Type 0
IsWritable (opens name) = IsName name
IsWritable (sets key value) = IsKey key × (IsTight value × LacksByte b'\n' value)
IsWritable skips = Unit

LacksByte-append : (c : ℕ) (s t : Text) → LacksByte c s → LacksByte c t → LacksByte c (s ++ t)
LacksByte-append c s t h k = All-append (λ d. (d == c) ≡ false) s t h k

split_lines-append :
    (line rest : Text)
    → LacksByte b'\n' line
    → split_lines (line ++ (b'\n' ∷ rest)) ≡ line ∷ split_lines rest
unfolding split_lines add_first
split_lines-append [] rest h = refl
split_lines-append (c ∷ line) rest h = rw (h.0, split_lines-append line rest h.1) refl

index_of-append : (c : ℕ) (s t : Text) → LacksByte c s → index_of c (s ++ (c ∷ t)) ≡ some (length s)
unfolding index_of
index_of-append c [] t h = ground arith
index_of-append c (d ∷ s) t h = ground (arith, index_of-append c s t h.1)

dropped_after : (s : Text) (c : ℕ) (t : Text) → drop (suc (length s)) (s ++ (c ∷ t)) ≡ t
dropped_after [] c t = refl
dropped_after (d ∷ s) c t = dropped_after s c t

drop-suc-append : (s : Text) (c : ℕ) (t : Text) → drop (length s + 1) (s ++ (c ∷ t)) ≡ t
drop-suc-append s c t =
    let size : length s + 1 ≡ suc (length s) = omega arith in
    ap (λ n. drop n (s ++ (c ∷ t))) size ∙ dropped_after s c t

get_elem?-length-append : (s : Text) (c : ℕ) → get_elem? (s ++ (c ∷ [])) (length s) ≡ some c
get_elem?-length-append [] c = refl
get_elem?-length-append (d ∷ s) c = get_elem?-length-append s c

bracketed-IsTight : (name : Text) → IsTight (b'[' ∷ name ++ (b']' ∷ []))
unfolding leading is_space
bracketed-IsTight name = (refl, ap leading (reverse-append (b'[' ∷ name) (b']' ∷ [])))

is_section-bracketed :
    (name : Text) → IsName name → is_section (b'[' ∷ name ++ (b']' ∷ [])) ≡ some name
unfolding is_section is_at
is_section-bracketed name h =
    let line : Text = b'[' ∷ name ++ (b']' ∷ []) in
    let size : length line ≡ length name + 2 = omega (arith, length-append name (b']' ∷ [])) in
    ground (
      arith,
      trim-IsTight line (bracketed-IsTight name),
      size,
      h.full,
      get_elem?-length-append (b'[' ∷ name) b']',
      take-length-append name (b']' ∷ []),
      trim-IsTight name h.tight,
    )

take_front :
    (n c : ℕ) (s : Text)
    → is_space c ≡ false
    → is_at (trim_left (take n (c ∷ s))) 0 b'[' ≡ (if n == 0 then false else c == b'[')
unfolding is_at leading
take_front zero c s h = rw (trim_left_lem []) refl
take_front (suc n) c s h = rw (trim_left_lem (c ∷ take n s)) (ground arith)

trim_front :
    (c : ℕ) (s : Text)
    → is_space c ≡ false
    → (c == b'[') ≡ false
    → is_at (trim (c ∷ s)) 0 b'[' ≡ false
unfolding trim trim_right
trim_front c s h k =
    let n = last_not_empty (reverse (c ∷ s)) (length (c ∷ s)) in ground (arith, take_front n c s h)

is_section-key : (key value : Text) → IsKey key → is_section (key ++ (b'=' ∷ value)) ≡ none
unfolding is_section leading is_at
is_section-key [] value h = absurd (omega (arith, h.full))
is_section-key (c ∷ key) value h =
    ground (arith, h.tight.0, h.no_bracket, trim_front c (key ++ (b'=' ∷ value)))

directive_nothing : directive [] ≡ skips
unfolding directive is_section trim trim_left first_not_empty trim_right last_not_empty index_of
directive_nothing = refl

directive-print_directive : (d : Directive) → IsWritable d → directive (print_directive d) ≡ d
unfolding directive print_directive entry_directive
directive-print_directive (opens name) h = rw (is_section-bracketed name h, directive) refl
directive-print_directive skips h = directive_nothing
directive-print_directive (sets key value) h = ground (
  arith,
  is_section-key key value h.0,
  index_of-append b'=' key value h.0.no_equals,
  take-length-append key (b'=' ∷ value),
  drop-suc-append key b'=' value,
  trim-IsTight key h.0.tight,
  trim-IsTight value h.1.0,
  h.0.full,
  h.0.no_hash,
  h.0.no_semicolon,
)

print_directive-line : (d : Directive) → IsWritable d → LacksByte b'\n' (print_directive d)
unfolding print_directive
print_directive-line (opens name) h =
    (refl, LacksByte-append b'\n' name (b']' ∷ []) h.one_line (refl, tt))
print_directive-line skips h = tt
print_directive-line (sets key value) h =
    LacksByte-append b'\n' key (b'=' ∷ value) h.0.one_line (refl, h.1.1)

-- The lines mean what was printed, and the empty line at the end means nothing.
pub directives-print :
    (ds : List Directive)
    → All IsWritable ds
    → map directive (split_lines (print ds)) ≡ ds ++ (skips ∷ [])
unfolding print split_lines
directives-print [] h = ap (λ d. d ∷ []) directive_nothing
directives-print (d ∷ ds) h =
    ap (map directive)
      (split_lines-append (print_directive d) (print ds) (print_directive-line d h.0))
    ∙ rw (directive-print_directive d h.0, directives-print ds h.1) refl

entry_log-append_skips :
    (section : Option Text) (ds : List Directive)
    → entry_log section (ds ++ (skips ∷ [])) ≡ entry_log section ds
unfolding entry_log
entry_log-append_skips section [] = refl
entry_log-append_skips section (opens name ∷ ds) = entry_log-append_skips (some name) ds
entry_log-append_skips section (skips ∷ ds) = entry_log-append_skips section ds
entry_log-append_skips none (sets key value ∷ ds) = refl
entry_log-append_skips (some name) (sets key value ∷ ds) =
    rw (entry_log-append_skips (some name) ds) refl

-- A configuration that is written out line by line, with names, keys and values on one line and
-- without spaces around them, names and keys not empty, and keys without `=` and not beginning with
-- `[`, `#` or `;`, is loaded as it was written: get_string answers the last value that the
-- configuration gives a key, and load fails just if it gives a value before the first section.
pub load-print :
    (ds : List Directive) (section key before : Text)
    → All IsWritable ds
    → load_and_get (print ds) section key before
      ≡ logged_value section key before (entry_log none ds)
load-print ds section key before h =
    load-last_value (print ds) section key before
    ∙ ap (λ ls. logged_value section key before (entry_log none ls)) (directives-print ds h)
    ∙ ap (logged_value section key before) (entry_log-append_skips none ds)
