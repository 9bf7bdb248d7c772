-- ===== src/Reactor/ConfigFile/Log.antt =====
-- The configuration as the sequence of the lines' meanings, of which the last assignment counts.
use rins.Prelude.{
  ◌+◌, ◌≡◌, refl, sym, ap, fun_ext, ◌∙◌, ◌==◌, if◌then◌else◌, Bool, true, ◌&&◌, ◌||◌, List, [], ◌∷◌,
  map, length, take, drop, Option, none, some, Result, ok, fault, ◌>>=◌, >>=-assoc, bad_pointer,
  Option-cases, inl, inr, arith,
}
use rins.Reactor.Text.{Text, text_eq, find, put, trim, index_of}
use rins.Reactor.Text.Trim.{text_eq_iff, find-put}
use rins.Reactor.ConfigFile.{
  StrMap, Loader, is_at, is_section, open_section, assign, read_entry, read_line, split_lines,
  read_lines, load, find_value, get_string,
}

-- What a line says: a section begins, a key gets a value, or nothing.
pub data Directive : Type 0 where
  opens : Text → Directive
  sets : Text → Text → Directive
  skips : Directive

unfoldable pub entry_directive : Text → Text → Directive
entry_directive key value =
    if length key == 0
    then skips
    else if is_at key 0 b'#' || is_at key 0 b';'
    then skips
    else sets key value

unfoldable pub directive : Text → Directive
directive line = elim (is_section line) [
  | some name ↦ opens name
  | none ↦ elim (index_of b'=' line) [
    | none ↦ skips
    | some i ↦ entry_directive (trim (take i line)) (trim (drop (i + 1) line))
  ]
]

-- The assignments in their order, each with its section, or none if one stands outside of sections.
unfoldable pub entry_log : Option Text → List Directive → Option (List (Text × (Text × Text)))
entry_log section [] = some []
entry_log section (opens name ∷ ds) = entry_log (some name) ds
entry_log section (skips ∷ ds) = entry_log section ds
entry_log none (sets key value ∷ ds) = none
entry_log (some name) (sets key value ∷ ds) = elim (entry_log (some name) ds) [
  | none ↦ none
  | some log ↦ some ((name, (key, value)) ∷ log)
]

-- The value that the last assignment to the key gives, or the one from before.
unfoldable pub last_value : Text → Text → Text → List (Text × (Text × Text)) → Text
last_value section key before [] = before
last_value section key before ((s, (k, v)) ∷ log) =
    last_value section key (if text_eq s section && text_eq k key then v else before) log

unfoldable pub logged_value :
    Text → Text → Text → Option (List (Text × (Text × Text))) → Result (Bool × Text)
logged_value section key before none = fault bad_pointer
logged_value section key before (some log) = ok (true, last_value section key before log)

run : Directive → Loader → Result Loader
run (opens name) l = ok (open_section name l)
run (sets key value) l = assign key value l
run skips l = ok l

read_line-run : (line : Text) (l : Loader) → read_line line l ≡ run (directive line) l
unfolding read_line directive entry_directive read_entry run
read_line-run line l = ground arith

abbrev HasSection : Text → StrMap → Type 0
HasSection name m = (entries : List (Text × Text)) × (find name m ≡ some entries)

open_section-HasSection : (name : Text) (l : Loader) → HasSection name (open_section name l).map
unfolding open_section
open_section-HasSection name l = elim (Option-cases (find name l.map)) [
  | inr (entries, e) ↦ (entries, ground arith)
  | inl e ↦ ([], ground (arith, find-put name name [] l.map, text_eq_iff name name))
]

module _ (section key before : Text) where
  open_section-get_string :
      (name : Text) (l : Loader)
      → get_string section key before (open_section name l).map
        ≡ get_string section key before l.map
  unfolding open_section get_string find_value find
  open_section-get_string name l =
      ground (arith, find-put name section [] l.map, text_eq_iff name section)

  put-get_string :
      (name k v : Text) (m : StrMap) (entries : List (Text × Text))
      → find name m ≡ some entries
      → get_string section key before (put name (put k v entries) m)
        ≡ (if text_eq name section && text_eq k key then v else get_string section key before m)
  unfolding get_string find_value
  put-get_string name k v m entries e = ground (
    arith,
    find-put name section (put k v entries) m,
    find-put k key v entries,
    text_eq_iff name section,
  )

run_all : List Directive → Loader → Result Loader
run_all [] l = ok l
run_all (d ∷ ds) l = run d l >>= run_all ds

read_lines-run_all :
    (lines : List Text) (l : Loader) → read_lines lines l ≡ run_all (map directive lines) l
unfolding read_lines run_all
read_lines-run_all [] l = refl
read_lines-run_all (line ∷ lines) l =
    rw (read_line-run line l)
      (ap (λ f. run (directive line) l >>= f) (fun_ext (read_lines-run_all lines)))

module _ (section key before : Text) where
  finish : Result Loader → Result (Bool × Text)
  finish r = r >>= λ l. ok (true, get_string section key before l.map)

  logged : Option Text → List Directive → Text → Result (Bool × Text)
  logged current ds v = logged_value section key v (entry_log current ds)

  run_all-finish_inside :
      (ds : List Directive) (m : StrMap) (name : Text) (entries : List (Text × Text))
      → find name m ≡ some entries
      → finish (run_all ds (record { map = m; section = some name }))
        ≡ logged (some name) ds (get_string section key before m)
  unfolding run_all run finish logged logged_value last_value entry_log assign open_section
  run_all-finish_inside [] m name entries h = refl
  run_all-finish_inside (skips ∷ ds) m name entries h = run_all-finish_inside ds m name entries h
  run_all-finish_inside (opens other ∷ ds) m name entries h =
      let l : Loader = record { map = m; section = some name } in
      let there = open_section-HasSection other l in
      run_all-finish_inside ds (open_section other l).map other there.0 there.1
      ∙ ap (logged (some other) ds) (open_section-get_string section key before other l)
  run_all-finish_inside (sets k v ∷ ds) m name entries h =
      let n = put name (put k v entries) m in
      ground (
        arith,
        h,
        run_all-finish_inside ds n name (put k v entries)
            (ground (arith, find-put name name (put k v entries) m, text_eq_iff name name)),
        put-get_string section key before name k v m entries h,
      )

  run_all-finish :
      (ds : List Directive) (m : StrMap)
      → finish (run_all ds (record { map = m; section = none }))
        ≡ logged none ds (get_string section key before m)
  unfolding run_all run finish logged logged_value last_value entry_log assign open_section
  run_all-finish [] m = refl
  run_all-finish (skips ∷ ds) m = run_all-finish ds m
  run_all-finish (sets k v ∷ ds) m = refl
  run_all-finish (opens other ∷ ds) m =
      let l : Loader = record { map = m; section = none } in
      let there = open_section-HasSection other l in
      run_all-finish_inside ds (open_section other l).map other there.0 there.1
      ∙ ap (logged (some other) ds) (open_section-get_string section key before other l)

-- A text is loaded, and a key is looked up.
abbrev pub load_and_get : Text → Text → Text → Text → Result (Bool × Text)
load_and_get text section key before =
    load (some text) [] >>= λ r. ok (r.0, get_string section key before r.1)

-- A file that can be opened, whatever its bytes, is loaded with the result that get_string answers
-- for every section and key the value of the last assignment to that key under that section, or the
-- default where there is none; if an assignment stands before the first section, load follows a
-- null pointer, and only then.
pub load-last_value :
    (text section key before : Text)
    → load_and_get text section key before
      ≡ logged_value section key before (entry_log none (map directive (split_lines text)))
unfolding load finish logged get_string find_value find
load-last_value text section key before =
    sym (
      >>=-assoc (read_lines (split_lines text) (record { map = []; section = none }))
        (λ l. ok (true, l.map)) (λ r. ok (r.0, get_string section key before r.1)))
    ∙ ap (finish section key before)
        (read_lines-run_all (split_lines text) (record { map = []; section = none }))
    ∙ run_all-finish section key before (map directive (split_lines text)) []
