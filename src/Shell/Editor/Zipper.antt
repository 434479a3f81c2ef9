-- ===== src/Shell/Editor/Zipper.antt =====
-- A line with a cursor as two lists: what stands before the cursor, nearest first, and what behind it.
use wasm_os.Base.{
  ℕ, suc, ◌+◌, ◌-◌, ◌≤◌, ◌<◌, true, false, List, [], ◌∷◌, ◌++◌, Option, some, ltb, ◌==◌, length,
  Bool-cases, inl, inr, ap₂, ==→eq, ◌≡◌, refl, sym, ap, ◌∙◌, arith,
}
use wasm_os.Shell.Keys.{Key}
use wasm_os.Shell.Editor.Ascii.{IsLine, utf8-ascii, string_insert-first, string_remove-first}
use wasm_os.Shell.Editor.{
  CommandLineEditor, string_insert, string_remove, insert_char, move_left, move_right, delete_left,
  delete_right, move_home, move_end, handle_key,
}

pub record Zipper : Type 0 where
  pub before : List ℕ
  pub after : List ℕ

-- The first list reversed in front of the second.
unfoldable pub unwind : List ℕ → List ℕ → List ℕ
unwind [] ys = ys
unwind (x ∷ xs) ys = unwind xs (x ∷ ys)

left_of : List ℕ → List ℕ → Zipper
left_of [] ys = record { before = []; after = ys }
left_of (x ∷ xs) ys = record { before = xs; after = x ∷ ys }

right_of : List ℕ → List ℕ → Zipper
right_of xs [] = record { before = xs; after = [] }
right_of xs (y ∷ ys) = record { before = y ∷ xs; after = ys }

abbrev tail : List ℕ → List ℕ
tail [] = []
tail (x ∷ xs) = xs

-- What an editing key does to the line.
unfoldable pub edit : Key → Zipper → Zipper
unfolding left_of right_of unwind
edit (Key.char c) z = record { before = c ∷ z.before; after = z.after }
edit Key.arrow_left z = left_of z.before z.after
edit Key.arrow_right z = right_of z.before z.after
edit Key.backspace z = record { before = tail z.before; after = z.after }
edit Key.delete z = record { before = z.before; after = tail z.after }
edit Key.home z = record { before = []; after = unwind z.before z.after }
edit Key.end z = record { before = unwind z.after z.before; after = [] }
edit _ z = z

-- The keys that edit the line, with ASCII characters.
pub data IsEdit : Key → Type 0 where
  char : (c : ℕ) → c < 128 → IsEdit (Key.char c)
  arrow_left : IsEdit Key.arrow_left
  arrow_right : IsEdit Key.arrow_right
  backspace : IsEdit Key.backspace
  delete : IsEdit Key.delete
  home : IsEdit Key.home
  end : IsEdit Key.end

-- A line of ASCII characters.
pub record IsText (z : Zipper) : Type 0 where
  pub before : IsLine z.before
  pub after : IsLine z.after

-- The editor's buffer and cursor represent a line.
pub record Represents (e : CommandLineEditor) (z : Zipper) : Type 0 where
  pub text : e.buffer ≡ unwind z.before z.after
  pub cursor : e.cursor_pos ≡ length z.before

length-unwind : (xs ys : List ℕ) → length (unwind xs ys) ≡ length xs + length ys
unfolding unwind
length-unwind [] ys = omega arith
length-unwind (x ∷ xs) ys = omega (arith, length-unwind xs (x ∷ ys))

unwind-append : (xs ys zs : List ℕ) → unwind xs ys ++ zs ≡ unwind xs (ys ++ zs)
unfolding unwind
unwind-append [] ys zs = refl
unwind-append (x ∷ xs) ys zs = unwind-append xs (x ∷ ys) zs

unwind-unwind : (xs ys zs : List ℕ) → unwind (unwind ys xs) zs ≡ unwind xs (ys ++ zs)
unfolding unwind
unwind-unwind xs [] zs = refl
unwind-unwind xs (y ∷ ys) zs = unwind-unwind (y ∷ xs) ys zs

append_nil : (xs : List ℕ) → xs ++ [] ≡ xs
append_nil [] = refl
append_nil (x ∷ xs) = ap (◌∷◌ x) (append_nil xs)

-- An insertion, or a removal, behind what stands before the cursor.
string_insert-unwind :
    (xs zs ws : List ℕ) (i c : ℕ)
    → string_insert zs i c ≡ some ws
    → string_insert (unwind xs zs) (length xs + i) c ≡ some (unwind xs ws)
unfolding unwind string_insert
string_insert-unwind [] zs ws i c h = ap (λ n. string_insert zs n c) (omega arith) ∙ h
string_insert-unwind (x ∷ xs) zs ws i c h =
    let shifted : string_insert (x ∷ zs) (suc i) c ≡ some (x ∷ ws) = rw h refl in
    let moved : suc (length xs) + i ≡ length xs + suc i = omega arith in
    ap (λ n. string_insert (unwind xs (x ∷ zs)) n c) moved
    ∙ string_insert-unwind xs (x ∷ zs) (x ∷ ws) (suc i) c shifted

string_remove-unwind :
    (xs zs ws : List ℕ) (i : ℕ)
    → string_remove zs i ≡ some ws
    → string_remove (unwind xs zs) (length xs + i) ≡ some (unwind xs ws)
unfolding unwind string_remove
string_remove-unwind [] zs ws i h = ap (string_remove zs) (omega arith) ∙ h
string_remove-unwind (x ∷ xs) zs ws i h =
    let shifted : string_remove (x ∷ zs) (suc i) ≡ some (x ∷ ws) = rw h refl in
    let moved : suc (length xs) + i ≡ length xs + suc i = omega arith in
    ap (string_remove (unwind xs (x ∷ zs))) moved
    ∙ string_remove-unwind xs (x ∷ zs) (x ∷ ws) (suc i) shifted

-- The edited editor represents the edited line.
pub data Edits (z : Zipper) : Option CommandLineEditor → Type 0 where
  edits : (e : CommandLineEditor) → Represents e z → Edits z (some e)

push_end : (ys : List ℕ) (c : ℕ) → length ys ≤ 0 → ys ++ (c ∷ []) ≡ c ∷ ys
push_end [] c h = refl
push_end (y ∷ ys) c h = absurd (omega arith)

module _ (e : CommandLineEditor) where
  sizes : (z : Zipper) → Represents e z → length e.buffer ≡ length z.before + length z.after
  sizes z h = ap length h.text ∙ length-unwind z.before z.after

  char-Edits :
      (c : ℕ) (z : Zipper)
      → c < 128
      → IsText z
      → Represents e z
      → Edits (record { before = c ∷ z.before; after = z.after }) (insert_char c e)
  unfolding insert_char unwind
  char-Edits c z low a h = elim (Bool-cases (ltb e.cursor_pos (length e.buffer))) [
    | inl t ↦
        let inserted : string_insert e.buffer e.cursor_pos c
            ≡ some (unwind z.before (c ∷ z.after)) =
          ap₂ (λ b n. string_insert b n c) h.text (omega (arith, h.cursor))
          ∙ string_insert-unwind z.before z.after (c ∷ z.after) 0 c
              (string_insert-first z.after c a.after low) in
        rw (t, inserted) (Edits.edits _ (record { text = refl; cursor = omega (arith, h.cursor) }))
    | inr t ↦
        let pushed : e.buffer ++ (c ∷ []) ≡ unwind z.before (c ∷ z.after) =
          ap (λ b. b ++ (c ∷ [])) h.text
          ∙ unwind-append z.before z.after (c ∷ [])
          ∙ ap (unwind z.before) (push_end z.after c (ground (arith, t, h.cursor, sizes z h))) in
        rw (t, utf8-ascii c low)
          (Edits.edits _ (record { text = pushed; cursor = omega (arith, h.cursor) }))
  ]

  left-Edits :
      (xs ys : List ℕ)
      → Represents e (record { before = xs; after = ys })
      → Edits (left_of xs ys) (some (move_left e))
  unfolding move_left left_of unwind
  left-Edits [] ys h =
      let at_start : ltb 0 e.cursor_pos ≡ false = ground (arith, h.cursor) in
      rw at_start (Edits.edits e h)
  left-Edits (x ∷ xs) ys h =
      let inside : ltb 0 e.cursor_pos ≡ true = ground (arith, h.cursor) in
      rw inside (Edits.edits _ (record { text = h.text; cursor = omega (arith, h.cursor) }))

  right-Edits :
      (xs ys : List ℕ)
      → Represents e (record { before = xs; after = ys })
      → Edits (right_of xs ys) (some (move_right e))
  unfolding move_right right_of unwind
  right-Edits xs [] h =
      let at_end : ltb e.cursor_pos (length e.buffer) ≡ false =
        ground (arith, h.cursor, sizes (record { before = xs; after = [] }) h) in
      rw at_end (Edits.edits e h)
  right-Edits xs (y ∷ ys) h =
      let inside : ltb e.cursor_pos (length e.buffer) ≡ true =
        ground (arith, h.cursor, sizes (record { before = xs; after = y ∷ ys }) h) in
      rw inside (Edits.edits _ (record { text = h.text; cursor = omega (arith, h.cursor) }))

  backspace-Edits :
      (xs ys : List ℕ)
      → IsLine xs
      → Represents e (record { before = xs; after = ys })
      → Edits (record { before = tail xs; after = ys }) (delete_left e)
  unfolding delete_left unwind
  backspace-Edits [] ys a h =
      let at_start : ltb 0 e.cursor_pos ≡ false = ground (arith, h.cursor) in
      rw at_start (Edits.edits e h)
  backspace-Edits (x ∷ xs) ys a h =
      let inside : ltb 0 e.cursor_pos ≡ true = ground (arith, h.cursor) in
      let removed : string_remove e.buffer (e.cursor_pos - 1) ≡ some (unwind xs ys) =
        ap₂ string_remove h.text (omega (arith, h.cursor))
        ∙ string_remove-unwind xs (x ∷ ys) ys 0 (string_remove-first x ys a.0) in
      rw (inside, removed)
        (Edits.edits _ (record { text = refl; cursor = omega (arith, h.cursor) }))

  delete-Edits :
      (xs ys : List ℕ)
      → IsLine ys
      → Represents e (record { before = xs; after = ys })
      → Edits (record { before = xs; after = tail ys }) (delete_right e)
  unfolding delete_right unwind
  delete-Edits xs [] a h =
      let at_end : ltb e.cursor_pos (length e.buffer) ≡ false =
        ground (arith, h.cursor, sizes (record { before = xs; after = [] }) h) in
      rw at_end (Edits.edits e h)
  delete-Edits xs (y ∷ ys) a h =
      let inside : ltb e.cursor_pos (length e.buffer) ≡ true =
        ground (arith, h.cursor, sizes (record { before = xs; after = y ∷ ys }) h) in
      let removed : string_remove e.buffer e.cursor_pos ≡ some (unwind xs ys) =
        ap₂ string_remove h.text (omega (arith, h.cursor))
        ∙ string_remove-unwind xs (y ∷ ys) ys 0 (string_remove-first y ys a.0) in
      rw (inside, removed) (Edits.edits _ (record { text = refl; cursor = h.cursor }))

  home-Edits :
      (z : Zipper)
      → Represents e z
      → Edits (record { before = []; after = unwind z.before z.after }) (some (move_home e))
  unfolding move_home unwind
  home-Edits z h = elim (Bool-cases (e.cursor_pos == 0)) [
    | inl t ↦ rw t (Edits.edits e (record { text = h.text; cursor = ground arith }))
    | inr t ↦ rw t (Edits.edits _ (record { text = h.text; cursor = refl }))
  ]

  end-Edits :
      (z : Zipper)
      → Represents e z
      → Edits (record { before = unwind z.after z.before; after = [] }) (some (move_end e))
  unfolding move_end
  end-Edits z h =
      let whole : e.buffer ≡ unwind (unwind z.after z.before) [] =
        h.text
        ∙ sym (unwind-unwind z.before z.after [] ∙ ap (unwind z.before) (append_nil z.after)) in
      let len : length e.buffer ≡ length (unwind z.after z.before) =
        omega (arith, sizes z h, length-unwind z.after z.before) in
      elim (Bool-cases (e.cursor_pos == length e.buffer)) [
        | inl t ↦ rw t (Edits.edits e (record { text = whole; cursor = ==→eq _ _ t ∙ len }))
        | inr t ↦ rw t (Edits.edits _ (record { text = whole; cursor = len }))
      ]

-- An editor whose buffer and cursor represent a line of ASCII characters handles every editing key, with
-- an ASCII character if it is one, without a panic, and represents afterwards the line that the key makes
-- of it: the list before the cursor and the list behind it, with insertions and deletions at the point
-- where they meet.
pub handle_key-Edits :
    (names : List (List ℕ)) (k : Key) (e : CommandLineEditor) (z : Zipper)
    → IsEdit k
    → IsText z
    → Represents e z
    → Edits (edit k z) (handle_key names k e)
unfolding handle_key edit
handle_key-Edits names k e z (IsEdit.char c low) a h = char-Edits e c z low a h
handle_key-Edits names k e z IsEdit.arrow_left a h = left-Edits e z.before z.after h
handle_key-Edits names k e z IsEdit.arrow_right a h = right-Edits e z.before z.after h
handle_key-Edits names k e z IsEdit.backspace a h = backspace-Edits e z.before z.after a.before h
handle_key-Edits names k e z IsEdit.delete a h = delete-Edits e z.before z.after a.after h
handle_key-Edits names k e z IsEdit.home a h = home-Edits e z h
handle_key-Edits names k e z IsEdit.end a h = end-Edits e z h
