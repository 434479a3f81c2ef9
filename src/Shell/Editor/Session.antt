-- ===== src/Shell/Editor/Session.antt =====
-- The editor over a sequence of keys.
use wasm_os.Base.{
  All, ℕ, ◌-◌, ◌<◌, true, false, List, [], ◌∷◌, ◌++◌, Option, none, some, ltb, ◌==◌, length,
  length-append, get_elem?, get_elem?-append, ◌≡◌, refl, ap, ◌∙◌, arith,
}
use wasm_os.Base.Opt.{◌>>=◌}
use wasm_os.Shell.Keys.{Key}
use wasm_os.Shell.Keys.Ascii.{IsAscii}
use wasm_os.Shell.Editor.Ascii.{IsLine}
use wasm_os.Shell.Editor.{CommandLineEditor, get_input, accept_line, navigate_history_up, recall}
use wasm_os.Shell.Editor.Invariant.{IsEditor, Handled, handle_key-Handled, IsEditor-accepted}

-- The commands entered, oldest first, and the editor afterwards.
pub type_keys :
    List (List ℕ)
    → List (Option Key)
    → CommandLineEditor
    → Option (CommandLineEditor × List (Option (List ℕ)))
type_keys names [] e = some (e, [])
type_keys names (k ∷ ks) e =
    get_input names k e
    >>= (λ (e, command). type_keys names ks e >>= (λ (e, commands). some (e, command ∷ commands)))

-- A key is taken without a panic.
abbrev Taken : Option (CommandLineEditor × Option (List ℕ)) → Type 0
Taken o =
    (e : CommandLineEditor) × (command : Option (List ℕ)) × (o ≡ some (e, command)) × IsEditor e

Handled-Taken : (o : Option CommandLineEditor) → Handled o → Taken (o >>= (λ e. some (e, none)))
Handled-Taken o (Handled.handled e h) = (e, none, refl, h)

-- What a key decodes to, if there is one.
unfoldable pub IsAsciiInput : Option Key → Type 0
IsAsciiInput none = Unit
IsAsciiInput (some k) = IsAscii k

module _ (names : List (List ℕ)) (a : All IsLine names) where
  key-Taken :
      (k : Key) (e : CommandLineEditor)
      → IsEditor e
      → IsAscii k
      → Taken (get_input names (some k) e)
  unfolding get_input
  key-Taken k e h IsAscii.enter = (_, (accept_line e).1, refl, IsEditor-accepted e h)
  key-Taken k e h (IsAscii.printable c low high) =
      Handled-Taken _ (handle_key-Handled e h names k a (IsAscii.printable c low high))
  key-Taken k e h IsAscii.backspace =
      Handled-Taken _ (handle_key-Handled e h names k a IsAscii.backspace)
  key-Taken k e h IsAscii.arrow_left =
      Handled-Taken _ (handle_key-Handled e h names k a IsAscii.arrow_left)
  key-Taken k e h IsAscii.arrow_right =
      Handled-Taken _ (handle_key-Handled e h names k a IsAscii.arrow_right)
  key-Taken k e h IsAscii.arrow_up =
      Handled-Taken _ (handle_key-Handled e h names k a IsAscii.arrow_up)
  key-Taken k e h IsAscii.arrow_down =
      Handled-Taken _ (handle_key-Handled e h names k a IsAscii.arrow_down)
  key-Taken k e h IsAscii.delete = Handled-Taken _ (handle_key-Handled e h names k a IsAscii.delete)
  key-Taken k e h IsAscii.home = Handled-Taken _ (handle_key-Handled e h names k a IsAscii.home)
  key-Taken k e h IsAscii.end = Handled-Taken _ (handle_key-Handled e h names k a IsAscii.end)
  key-Taken k e h IsAscii.tab = Handled-Taken _ (handle_key-Handled e h names k a IsAscii.tab)
  key-Taken k e h IsAscii.unknown =
      Handled-Taken _ (handle_key-Handled e h names k a IsAscii.unknown)

  get_input-Taken :
      (k : Option Key) (e : CommandLineEditor)
      → IsEditor e
      → IsAsciiInput k
      → Taken (get_input names k e)
  unfolding get_input IsAsciiInput
  get_input-Taken none e h i = (e, none, refl, h)
  get_input-Taken (some k) e h i = key-Taken k e h i

-- From an editor whose line and history are ASCII and whose cursor and place in the history are in range,
-- with names of commands that are ASCII, any sequence of keys that the decoding can give is taken without
-- a panic and leaves such an editor.
pub type_keys-IsEditor :
    (names : List (List ℕ)) (ks : List (Option Key)) (e : CommandLineEditor)
    → All IsLine names
    → All IsAsciiInput ks
    → IsEditor e
    → (f : CommandLineEditor) × (commands : List (Option (List ℕ))) × (type_keys names ks e
        ≡ some (f, commands))
      × IsEditor f
unfolding type_keys
type_keys-IsEditor names [] e a i h = (e, [], refl, h)
type_keys-IsEditor names (k ∷ ks) e a i h =
    let (f, command, taken, valid) = get_input-Taken names a k e h i.0 in
    let (g, commands, rest, last) = type_keys-IsEditor names ks f a i.1 valid in
    (g, command ∷ commands, rw (taken, rest) refl, last)

-- Enter on a line that is not empty answers it and empties the line. The arrow up then brings the line
-- back, with the cursor at its end.
pub enter_then_up :
    (names : List (List ℕ)) (e : CommandLineEditor)
    → 0 < length e.buffer
    → (f g : CommandLineEditor) × (get_input names (some Key.enter) e ≡ some (f, some e.buffer))
      × (f.buffer ≡ [])
      × (get_input names (some Key.arrow_up) f ≡ some (g, none))
      × (g.buffer ≡ e.buffer)
      × (g.cursor_pos ≡ length e.buffer)
unfolding get_input accept_line navigate_history_up recall
enter_then_up names e pos =
    let some_text : (length e.buffer == 0) ≡ false = ground (arith, pos) in
    let lines = e.history ++ (e.buffer ∷ []) in
    let len = length-append e.history (e.buffer ∷ []) in
    let some_lines : (length lines == 0) ≡ false = ground (arith, len) in
    let place : ltb 0 (length lines) ≡ true = ground (arith, len) in
    let last : get_elem? lines (length lines - 1) ≡ some e.buffer =
      ap (get_elem? lines) (omega (arith, len)) ∙ get_elem?-append e.history e.buffer [] in
    (
      record e {
        history = lines;
        history_index = length lines;
        buffer = [];
        cursor_pos = 0;
        needs_render = true;
      },
      record e {
        history = lines;
        history_index = length lines - 1;
        buffer = e.buffer;
        cursor_pos = length e.buffer;
        needs_render = true;
      },
      rw some_text refl,
      refl,
      rw (some_lines, place, last) refl,
      refl,
      refl,
    )
