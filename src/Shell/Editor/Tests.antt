-- ===== src/Shell/Editor/Tests.antt =====
-- Keys typed into an editor.
use wasm_os.Base.{ℕ, true, false, List, [], ◌∷◌, Option, none, some, ◌≡◌, refl, arith}
use wasm_os.Shell.Keys.{Key, try_next_key, serial_byte_to_key}
use wasm_os.Shell.Keys.Ascii.{IsAscii, keys-IsAscii}
use wasm_os.Shell.Editor.{CommandLineEditor, handle_key, delete_left, string_remove}
use wasm_os.Shell.Editor.Zipper.{Edits, edit, IsEdit, handle_key-Edits, unwind}
use wasm_os.Shell.Editor.Invariant.{IsEditor}
use wasm_os.Shell.Editor.Session.{type_keys, IsAsciiInput, type_keys-IsEditor}

abbrev two_letters : CommandLineEditor
two_letters = record {
  buffer = 108 ∷ 115 ∷ [];
  cursor_pos = 1;
  history = [];
  history_index = 0;
  needs_render = false;
}

abbrev names : List (List ℕ)
names = (108 ∷ 115 ∷ []) ∷ (99 ∷ 100 ∷ []) ∷ []

keys-IsAscii_example : IsAscii (Key.char 81) × IsAscii (serial_byte_to_key 97)
unfolding try_next_key
keys-IsAscii_example = keys-IsAscii 1 0x10 97 true (Key.char 81) refl

handle_key-Edits_example :
    Edits
      (edit Key.backspace (record { before = 108 ∷ []; after = 115 ∷ [] }))
      (handle_key names Key.backspace two_letters)
unfolding unwind
handle_key-Edits_example =
    handle_key-Edits names Key.backspace two_letters
      (record { before = 108 ∷ []; after = 115 ∷ [] }) IsEdit.backspace
      (record { before = (omega arith, tt); after = (omega arith, tt) })
      (record { text = refl; cursor = refl })

abbrev keys : List (Option Key)
keys = some (Key.char 33) ∷ some Key.enter ∷ none ∷ some Key.arrow_up ∷ some Key.delete ∷ []

type_keys-IsEditor_example :
    (f : CommandLineEditor) × (commands : List (Option (List ℕ))) × (type_keys names keys
        two_letters
      ≡ some (f, commands))
    × IsEditor f
unfolding IsAsciiInput
type_keys-IsEditor_example =
    type_keys-IsEditor names keys two_letters
      ((omega arith, (omega arith, tt)), ((omega arith, (omega arith, tt)), tt))
      (
        IsAscii.printable 33 (omega arith) (omega arith),
        (IsAscii.enter, (tt, (IsAscii.arrow_up, (IsAscii.delete, tt)))),
      )
      (record {
        cursor = omega arith;
        place = omega arith;
        line = (omega arith, (omega arith, tt));
        lines = tt;
      })

-- Backspace behind a character of two bytes stops the kernel.
stops : delete_left (record two_letters { buffer = 0xC3 ∷ 0xA9 ∷ []; cursor_pos = 2 }) ≡ none
unfolding delete_left string_remove
stops = refl
