-- ===== src/Shell/Editor.antt =====
-- CommandLineEditor in kernel/src/shell/command_line_editor.rs. A string is the list of its bytes in
-- UTF-8, a character its number. What is printed is left aside.
pub mod Ascii
pub mod Zipper
pub mod Invariant
pub mod Session
mod Tests
use wasm_os.Base.{
  ℕ, zero, suc, ◌+◌, ◌-◌, ◌≤◌, ◌<◌, Bool, true, false, ◌&&◌, not, List, [], ◌∷◌, ◌++◌, Option, none,
  some, if◌then◌else◌, ltb, leb, ◌/◌, ◌%◌, ◌*◌, ◌==◌, length, get_elem?, set, take, drop,
}
use wasm_os.Base.Opt.{◌>>=◌}
use wasm_os.Shell.Keys.{Key}

pub record CommandLineEditor : Type 0 where
  pub buffer : List ℕ
  pub cursor_pos : ℕ
  pub history : List (List ℕ)
  pub history_index : ℕ
  pub needs_render : Bool

abbrev pub new_editor : CommandLineEditor
new_editor = record {
  buffer = [];
  cursor_pos = 0;
  history = [];
  history_index = 0;
  needs_render = true;
}

-- The bytes of a character.
unfoldable pub utf8 : ℕ → List ℕ
utf8 c =
    if ltb c 0x80
    then c ∷ []
    else if ltb c 0x800
    then (0xC0 + c / 64) ∷ (0x80 + c % 64) ∷ []
    else if ltb c 0x10000
    then (0xE0 + c / 4096) ∷ (0x80 + c / 64 % 64) ∷ (0x80 + c % 64) ∷ []
    else (0xF0 + c / 262144) ∷ (0x80 + c / 4096 % 64) ∷ (0x80 + c / 64 % 64) ∷ (0x80 + c % 64) ∷ []

-- A byte that begins no character.
abbrev pub continues : ℕ → Bool
continues b = leb 0x80 b && ltb b 0xC0

-- The bytes of a character behind its first one, `b`.
abbrev pub more_bytes : ℕ → ℕ
more_bytes b = if ltb b 0x80 then 0 else if ltb b 0xE0 then 1 else if ltb b 0xF0 then 2 else 3

-- `String::insert` and `String::remove`; `none` is their panic out of range and off a character's bounds.
unfoldable pub string_insert : List ℕ → ℕ → ℕ → Option (List ℕ)
unfolding utf8
string_insert [] zero c = some (utf8 c)
string_insert (x ∷ xs) zero c = if continues x then none else some (utf8 c ++ (x ∷ xs))
string_insert [] (suc i) c = none
string_insert (x ∷ xs) (suc i) c = string_insert xs i c >>= (λ ys. some (x ∷ ys))

unfoldable pub string_remove : List ℕ → ℕ → Option (List ℕ)
string_remove [] i = none
string_remove (x ∷ xs) zero = if continues x then none else some (drop (more_bytes x) xs)
string_remove (x ∷ xs) (suc i) = string_remove xs i >>= (λ ys. some (x ∷ ys))

unfoldable pub insert_char : ℕ → CommandLineEditor → Option CommandLineEditor
unfolding string_insert utf8
insert_char c e =
    (if ltb e.cursor_pos (length e.buffer)
      then string_insert e.buffer e.cursor_pos c
      else some (e.buffer ++ utf8 c))
    >>= (λ buffer.
        some (record e { buffer = buffer; cursor_pos = e.cursor_pos + 1; needs_render = true }))

unfoldable pub move_left : CommandLineEditor → CommandLineEditor
move_left e =
    if ltb 0 e.cursor_pos
    then record e { cursor_pos = e.cursor_pos - 1; needs_render = true }
    else e

unfoldable pub move_right : CommandLineEditor → CommandLineEditor
move_right e =
    if ltb e.cursor_pos (length e.buffer)
    then record e { cursor_pos = e.cursor_pos + 1; needs_render = true }
    else e

unfoldable pub delete_left : CommandLineEditor → Option CommandLineEditor
unfolding string_remove
delete_left e =
    if ltb 0 e.cursor_pos
    then string_remove e.buffer (e.cursor_pos - 1) >>= (λ buffer.
      some (record e { buffer = buffer; cursor_pos = e.cursor_pos - 1; needs_render = true }))
    else some e

unfoldable pub delete_right : CommandLineEditor → Option CommandLineEditor
unfolding string_remove
delete_right e =
    if ltb e.cursor_pos (length e.buffer)
    then string_remove e.buffer e.cursor_pos
      >>= (λ buffer. some (record e { buffer = buffer; needs_render = true }))
    else some e

unfoldable pub move_home : CommandLineEditor → CommandLineEditor
move_home e =
    if not (e.cursor_pos == 0) then record e { cursor_pos = 0; needs_render = true } else e

unfoldable pub move_end : CommandLineEditor → CommandLineEditor
move_end e =
    if not (e.cursor_pos == length e.buffer)
    then record e { cursor_pos = length e.buffer; needs_render = true }
    else e

-- The line of the history at an index; `none` is the panic out of range.
unfoldable pub recall : ℕ → CommandLineEditor → Option CommandLineEditor
recall i e = get_elem? e.history i >>= (λ line.
    some (record e {
      buffer = line;
      cursor_pos = length line;
      history_index = i;
      needs_render = true;
    }))

unfoldable pub navigate_history_up : CommandLineEditor → Option CommandLineEditor
unfolding recall
navigate_history_up e =
    if not (length e.history == 0) && ltb 0 e.history_index
    then recall (e.history_index - 1) e
    else some e

unfoldable pub navigate_history_down : CommandLineEditor → Option CommandLineEditor
unfolding recall
navigate_history_down e =
    if ltb e.history_index (length e.history)
    then if ltb (e.history_index + 1) (length e.history)
      then recall (e.history_index + 1) e
      else some (record e {
        buffer = [];
        cursor_pos = 0;
        history_index = e.history_index + 1;
        needs_render = true;
      })
    else some e

unfoldable pub starts_with : List ℕ → List ℕ → Bool
starts_with name [] = true
starts_with [] (p ∷ ps) = false
starts_with (c ∷ cs) (p ∷ ps) = let rest = starts_with cs ps in if c == p then rest else false

unfoldable pub filter_prefix : List ℕ → List (List ℕ) → List (List ℕ)
unfolding starts_with
filter_prefix prefix [] = []
filter_prefix prefix (name ∷ names) =
    let rest = filter_prefix prefix names in if starts_with name prefix then name ∷ rest else rest

unfoldable pub render : CommandLineEditor → CommandLineEditor
render e = if not e.needs_render then e else record e { needs_render = false }

unfoldable pub complete : List (List ℕ) → CommandLineEditor → CommandLineEditor
unfolding render
complete [] e = e
complete (name ∷ []) e =
    render (record e { buffer = name; cursor_pos = length name; needs_render = true })
complete (name ∷ other ∷ more) e = render (record e { needs_render = true })

unfoldable pub auto_complete : List (List ℕ) → CommandLineEditor → CommandLineEditor
unfolding complete filter_prefix
auto_complete names e = complete (filter_prefix e.buffer names) e

unfoldable pub handle_key : List (List ℕ) → Key → CommandLineEditor → Option CommandLineEditor
unfolding insert_char move_left move_right delete_left delete_right move_home move_end
    navigate_history_up navigate_history_down auto_complete
handle_key names (Key.char c) e = insert_char c e
handle_key names Key.arrow_left e = some (move_left e)
handle_key names Key.arrow_right e = some (move_right e)
handle_key names Key.backspace e = delete_left e
handle_key names Key.delete e = delete_right e
handle_key names Key.home e = some (move_home e)
handle_key names Key.end e = some (move_end e)
handle_key names Key.arrow_up e = navigate_history_up e
handle_key names Key.arrow_down e = navigate_history_down e
handle_key names Key.tab e = some (auto_complete names e)
handle_key names Key.enter e = some e
handle_key names Key.unknown e = some e

-- The command that Enter completes.
unfoldable pub accept_line : CommandLineEditor → CommandLineEditor × Option (List ℕ)
accept_line e =
    if not (length e.buffer == 0)
    then (
      record e {
        history = e.history ++ (e.buffer ∷ []);
        history_index = length (e.history ++ (e.buffer ∷ []));
        buffer = [];
        cursor_pos = 0;
        needs_render = true;
      },
      some e.buffer,
    )
    else (e, none)

abbrev keyed : CommandLineEditor → CommandLineEditor × Option (List ℕ)
keyed e = (e, none)

unfoldable pub get_input :
    List (List ℕ) → Option Key → CommandLineEditor → Option (CommandLineEditor × Option (List ℕ))
unfolding accept_line handle_key
get_input names none e = some (e, none)
get_input names (some Key.enter) e = some (accept_line e)
get_input names (some k) e = handle_key names k e >>= (λ e. some (keyed e))
