-- ===== src/Shell/Editor/Invariant.antt =====
-- The cursor and the place in the history, over any sequence of keys.
use wasm_os.Base.{
  ℕ, ◌+◌, ◌-◌, ◌≤◌, ◌<◌, ◌&&◌, not, Bool-cases, inl, inr, List, [], ◌∷◌, Option, some, if_both,
  if_split, ltb, ltb→lt, ◌==◌, length, length-append, All, All-append, All-get_elem?, arith,
}
use wasm_os.Shell.Keys.{Key}
use wasm_os.Shell.Keys.Ascii.{IsAscii}
use wasm_os.Shell.Editor.Ascii.{IsLine, utf8-ascii, string_insert-total, string_remove-total}
use wasm_os.Shell.Editor.{
  CommandLineEditor, insert_char, move_left, move_right, delete_left, delete_right, move_home,
  move_end, recall, navigate_history_up, navigate_history_down, render, complete, auto_complete,
  filter_prefix, starts_with, handle_key, accept_line,
}

-- The line and those of the history are ASCII; the cursor stands in the line or at its end, and so does
-- the place in the history.
pub record IsEditor (e : CommandLineEditor) : Type 0 where
  pub cursor : e.cursor_pos ≤ length e.buffer
  pub place : e.history_index ≤ length e.history
  pub line : IsLine e.buffer
  pub lines : All IsLine e.history

pub data Handled : Option CommandLineEditor → Type 0 where
  handled : (e : CommandLineEditor) → IsEditor e → Handled (some e)

All-filter_prefix :
    (prefix : List ℕ) (names : List (List ℕ))
    → All IsLine names
    → All IsLine (filter_prefix prefix names)
unfolding filter_prefix
All-filter_prefix prefix [] h = tt
All-filter_prefix prefix (name ∷ names) h =
    if_both (All IsLine) (starts_with name prefix) (h.0, All-filter_prefix prefix names h.1)
      (All-filter_prefix prefix names h.1)

module _ (e : CommandLineEditor) (h : IsEditor e) where
  insert_char-Handled : (c : ℕ) → c < 128 → Handled (insert_char c e)
  unfolding insert_char
  insert_char-Handled c low =
      let (ys, eq, len, line) = string_insert-total e.buffer e.cursor_pos c h.line low h.cursor in
      elim (Bool-cases (ltb e.cursor_pos (length e.buffer))) [
        | inl t ↦
            rw (t, eq)
              (Handled.handled _ (record {
                cursor = omega (arith, h.cursor, len);
                place = h.place;
                line = line;
                lines = h.lines;
              }))
        | inr t ↦
            rw (t, utf8-ascii c low)
              (Handled.handled _ (record {
                cursor = omega (arith, h.cursor, length-append e.buffer (c ∷ []));
                place = h.place;
                line = All-append (λ b. b < 128) e.buffer (c ∷ []) h.line (low, tt);
                lines = h.lines;
              }))
      ]

  IsEditor-left : IsEditor (move_left e)
  unfolding move_left
  IsEditor-left =
      if_both IsEditor (ltb 0 e.cursor_pos)
        (record {
          cursor = omega (arith, h.cursor);
          place = h.place;
          line = h.line;
          lines = h.lines;
        })
        h

  IsEditor-right : IsEditor (move_right e)
  unfolding move_right
  IsEditor-right =
      if_split IsEditor (ltb e.cursor_pos (length e.buffer))
        (λ t. record {
          cursor = omega (arith, ltb→lt e.cursor_pos (length e.buffer) t);
          place = h.place;
          line = h.line;
          lines = h.lines;
        })
        (λ t. h)

  delete_left-Handled : Handled (delete_left e)
  unfolding delete_left
  delete_left-Handled =
      if_split Handled (ltb 0 e.cursor_pos)
        (λ t.
          let inside = ltb→lt 0 e.cursor_pos t in
          let (ys, eq, len, line) =
            string_remove-total e.buffer (e.cursor_pos - 1) h.line
              (omega (arith, inside, h.cursor)) in
          rw eq (
            Handled.handled _ (record {
              cursor = omega (arith, h.cursor, len);
              place = h.place;
              line = line;
              lines = h.lines;
            })))
        (λ t. Handled.handled e h)

  delete_right-Handled : Handled (delete_right e)
  unfolding delete_right
  delete_right-Handled =
      if_split Handled (ltb e.cursor_pos (length e.buffer))
        (λ t.
          let inside = ltb→lt e.cursor_pos (length e.buffer) t in
          let (ys, eq, len, line) = string_remove-total e.buffer e.cursor_pos h.line inside in
          rw eq (
            Handled.handled _ (record {
              cursor = omega (arith, inside, len);
              place = h.place;
              line = line;
              lines = h.lines;
            })))
        (λ t. Handled.handled e h)

  IsEditor-home : IsEditor (move_home e)
  unfolding move_home
  IsEditor-home =
      if_both IsEditor (not (e.cursor_pos == 0))
        (record { cursor = omega arith; place = h.place; line = h.line; lines = h.lines }) h

  IsEditor-end : IsEditor (move_end e)
  unfolding move_end
  IsEditor-end =
      if_both IsEditor (not (e.cursor_pos == length e.buffer))
        (record { cursor = omega arith; place = h.place; line = h.line; lines = h.lines }) h

  recall-Handled : (i : ℕ) → i < length e.history → Handled (recall i e)
  unfolding recall
  recall-Handled i lt =
      let (line, eq, ascii) = All-get_elem? IsLine e.history i h.lines lt in
      rw eq (
        Handled.handled _ (record {
          cursor = omega arith;
          place = omega (arith, lt);
          line = ascii;
          lines = h.lines;
        }))

  up-Handled : Handled (navigate_history_up e)
  unfolding navigate_history_up
  up-Handled = elim (Bool-cases (ltb 0 e.history_index)) [
    | inl t ↦
        let positive = ltb→lt 0 e.history_index t in
        if_both Handled (not (length e.history == 0) && ltb 0 e.history_index)
          (recall-Handled (e.history_index - 1) (omega (arith, positive, h.place)))
          (Handled.handled e h)
    | inr t ↦ elim (Bool-cases (not (length e.history == 0))) [
      | inl u ↦ rw (u, t) (Handled.handled e h)
      | inr u ↦ rw u (Handled.handled e h)
    ]
  ]

  down-Handled : Handled (navigate_history_down e)
  unfolding navigate_history_down
  down-Handled =
      if_split Handled (ltb e.history_index (length e.history))
        (λ t.
          if_split Handled (ltb (e.history_index + 1) (length e.history))
            (λ u.
              recall-Handled (e.history_index + 1)
                (ltb→lt (e.history_index + 1) (length e.history) u))
            (λ u. Handled.handled _ (record {
              cursor = omega arith;
              place = omega (arith, ltb→lt e.history_index (length e.history) t);
              line = tt;
              lines = h.lines;
            })))
        (λ t. Handled.handled e h)

  IsEditor-complete : (matches : List (List ℕ)) → All IsLine matches → IsEditor (complete matches e)
  unfolding complete render
  IsEditor-complete [] k = h
  IsEditor-complete (name ∷ []) k = record {
    cursor = omega arith;
    place = h.place;
    line = k.0;
    lines = h.lines;
  }
  IsEditor-complete (name ∷ other ∷ more) k = record {
    cursor = h.cursor;
    place = h.place;
    line = h.line;
    lines = h.lines;
  }

  pub handle_key-Handled :
      (names : List (List ℕ)) (k : Key)
      → All IsLine names
      → IsAscii k
      → Handled (handle_key names k e)
  unfolding handle_key auto_complete
  handle_key-Handled names k a (IsAscii.printable c low high) =
      insert_char-Handled c (omega (arith, high))
  handle_key-Handled names k a IsAscii.arrow_left = Handled.handled _ IsEditor-left
  handle_key-Handled names k a IsAscii.arrow_right = Handled.handled _ IsEditor-right
  handle_key-Handled names k a IsAscii.backspace = delete_left-Handled
  handle_key-Handled names k a IsAscii.delete = delete_right-Handled
  handle_key-Handled names k a IsAscii.home = Handled.handled _ IsEditor-home
  handle_key-Handled names k a IsAscii.end = Handled.handled _ IsEditor-end
  handle_key-Handled names k a IsAscii.arrow_up = up-Handled
  handle_key-Handled names k a IsAscii.arrow_down = down-Handled
  handle_key-Handled names k a IsAscii.tab =
      Handled.handled _
        (IsEditor-complete (filter_prefix e.buffer names) (All-filter_prefix e.buffer names a))
  handle_key-Handled names k a IsAscii.enter = Handled.handled e h
  handle_key-Handled names k a IsAscii.unknown = Handled.handled e h

  pub IsEditor-accepted : IsEditor (accept_line e).0
  unfolding accept_line
  IsEditor-accepted =
      if_both (λ (r : CommandLineEditor × Option (List ℕ)). IsEditor r.0)
        (not (length e.buffer == 0))
        (record {
          cursor = omega arith;
          place = omega arith;
          line = tt;
          lines = All-append IsLine e.history (e.buffer ∷ []) h.lines (h.line, tt);
        })
        h
