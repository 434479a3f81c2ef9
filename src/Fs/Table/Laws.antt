-- ===== src/Fs/Table/Laws.antt =====
-- The table as a list of names with their bytes, in order of registration.
use wasm_os.Base.{
  ℕ, zero, suc, ◌≤◌, ◌<◌, min, Bool, true, false, Bool-cases, inl, inr, List, [], ◌∷◌, ◌++◌, Option,
  none, some, if◌then◌else◌, ltb, ltb→lt, if_split, bytes_eq, length, length-set, replicate, set,
  take_all, slice-overwrite, ◌≡◌, refl, ap, ◌∙◌, arith,
}
use wasm_os.Fs.Table.{
  File, FileTable, max_files, empty_table, name_str, new_file, register_file, find_in, find_file,
  remove_in, remove_file, visit_in, for_each_file,
}

-- An association list: the first entry for a name, and the list without it.
unfoldable pub first_of : List ℕ → List (List ℕ × List ℕ) → Option (List ℕ)
first_of name [] = none
first_of name ((n, b) ∷ files) =
    let further = first_of name files in if bytes_eq n name then some b else further

unfoldable pub without_first : List ℕ → List (List ℕ × List ℕ) → List (List ℕ × List ℕ)
without_first name [] = []
without_first name ((n, b) ∷ files) =
    let rest = without_first name files in if bytes_eq n name then files else (n, b) ∷ rest

pub contains : List ℕ → List (List ℕ × List ℕ) → Bool
contains name [] = false
contains name ((n, b) ∷ files) =
    let rest = contains name files in if bytes_eq n name then true else rest

pub sizes : List (List ℕ × List ℕ) → List (List ℕ × ℕ)
sizes [] = []
sizes ((n, b) ∷ files) = (n, length b) ∷ sizes files

module _ (is_utf8 : List ℕ → Bool) where
  files_in : ℕ → List (Option File) → List (List ℕ × List ℕ)
  files_in zero entries = []
  files_in (suc n) [] = []
  files_in (suc n) (none ∷ entries) = files_in n entries
  files_in (suc n) (some f ∷ entries) = (name_str is_utf8 f, f.contents) ∷ files_in n entries

  -- The files that the table holds.
  pub files : FileTable → List (List ℕ × List ℕ)
  files t = files_in t.count t.entries

  pub files-empty_table : files empty_table ≡ []
  unfolding files files_in
  files-empty_table = refl

  find_in-first_of :
      (n : ℕ) (entries : List (Option File)) (name : List ℕ)
      → find_in is_utf8 n entries name ≡ first_of name (files_in n entries)
  unfolding find_in first_of files_in
  find_in-first_of zero entries name = refl
  find_in-first_of (suc n) [] name = refl
  find_in-first_of (suc n) (none ∷ entries) name = find_in-first_of n entries name
  find_in-first_of (suc n) (some f ∷ entries) name =
      ap (λ further. if bytes_eq (name_str is_utf8 f) name then some f.contents else further)
        (find_in-first_of n entries name)

  visit_in-sizes :
      (n : ℕ) (entries : List (Option File))
      → visit_in is_utf8 n entries ≡ sizes (files_in n entries)
  unfolding visit_in sizes files_in
  visit_in-sizes zero entries = refl
  visit_in-sizes (suc n) [] = refl
  visit_in-sizes (suc n) (none ∷ entries) = visit_in-sizes n entries
  visit_in-sizes (suc n) (some f ∷ entries) =
      ap (◌∷◌ (name_str is_utf8 f, length f.contents)) (visit_in-sizes n entries)

  remove_in-without :
      (n : ℕ) (entries : List (Option File)) (name : List ℕ)
      → (files_in n (remove_in is_utf8 n entries name).0 ≡ without_first name (files_in n entries))
        × ((remove_in is_utf8 n entries name).1 ≡ contains name (files_in n entries))
        × (length (remove_in is_utf8 n entries name).0 ≡ length entries)
  unfolding remove_in without_first contains files_in
  remove_in-without zero entries name = (refl, refl, refl)
  remove_in-without (suc n) [] name = (refl, refl, refl)
  remove_in-without (suc n) (none ∷ entries) name =
      let (f, c, l) = remove_in-without n entries name in (f, c, ap suc l)
  remove_in-without (suc n) (some f ∷ entries) name =
      let (g, c, l) = remove_in-without n entries name in
      elim (Bool-cases (bytes_eq (name_str is_utf8 f) name)) [
        | inl t ↦ rw t (refl, refl, refl)
        | inr t ↦ rw t (ap (◌∷◌ (name_str is_utf8 f, f.contents)) g, c, ap suc l)
      ]

  files_in-set :
      (n : ℕ) (entries : List (Option File)) (f : File)
      → n < length entries
      → files_in (suc n) (set entries n (some f))
        ≡ files_in n entries ++ ((name_str is_utf8 f, f.contents) ∷ [])
  unfolding files_in
  files_in-set n [] f h = absurd (omega arith)
  files_in-set zero (e ∷ entries) f h = refl
  files_in-set (suc n) (none ∷ entries) f h = files_in-set n entries f (omega arith)
  files_in-set (suc n) (some g ∷ entries) f h =
      ap (◌∷◌ (name_str is_utf8 g, g.contents)) (files_in-set n entries f (omega arith))

  -- A name that fits its field, as valid UTF-8, is kept.
  name_str-new_file :
      (name contents : List ℕ)
      → length name ≤ 64
      → is_utf8 name ≡ true
      → name_str is_utf8 (new_file name contents) ≡ name
  unfolding name_str new_file
  name_str-new_file name contents fits text =
      let len : min (length name) 64 ≡ length name = omega (arith, fits) in
      let kept = slice-overwrite (replicate 64 0) 0 name (omega (arith, fits)) in
      rw (len, take_all (length name) name (omega arith), kept, text) refl

  -- The table has its 64 entries, and its count does not exceed them.
  pub record IsTable (t : FileTable) : Type 0 where
    pub size : length t.entries ≡ max_files
    pub used : t.count ≤ max_files

  files-register_file :
      (name contents : List ℕ) (t : FileTable)
      → IsTable t
      → length name ≤ 64
      → is_utf8 name ≡ true
      → files (register_file name contents t)
        ≡ (if ltb t.count max_files then files t ++ ((name, contents) ∷ []) else files t)
  unfolding register_file files new_file
  files-register_file name contents t h fits text = elim (Bool-cases (ltb t.count max_files)) [
    | inr ge ↦ rw ge refl
    | inl lt ↦
        let f = new_file name contents in
        let inside = ltb→lt t.count max_files lt in
        rw lt (
          ap (λ m. files_in m (set t.entries t.count (some f))) (omega arith)
          ∙ files_in-set t.count t.entries f (omega (arith, inside, h.size))
          ∙ ap (λ n. files_in t.count t.entries ++ ((n, contents) ∷ []))
              (name_str-new_file name contents fits text))
  ]

  -- A table with its 64 entries and a count within them stands for a list of names with their bytes. A
  -- search answers the first entry for the name, a removal takes out the first entry and says whether
  -- there was one, and the visit lists the names and sizes in order. While the count is below 64, a
  -- registration under a name of at most 64 bytes of valid UTF-8 appends an entry; from then on it
  -- changes nothing. No removal lowers the count.
  pub table_lem :
      (name contents : List ℕ) (t : FileTable)
      → IsTable t
      → length name ≤ 64
      → is_utf8 name ≡ true
      → (find_file is_utf8 name t ≡ first_of name (files t))
        × (files (remove_file is_utf8 name t).0 ≡ without_first name (files t))
        × ((remove_file is_utf8 name t).1 ≡ contains name (files t))
        × (for_each_file is_utf8 t ≡ sizes (files t))
        × (files (register_file name contents t)
            ≡ (if ltb t.count max_files then files t ++ ((name, contents) ∷ []) else files t))
        × ((remove_file is_utf8 name t).0.count ≡ t.count)
        × IsTable (remove_file is_utf8 name t).0
        × IsTable (register_file name contents t)
  unfolding find_file remove_file for_each_file register_file files
  table_lem name contents t h fits text =
      let (rest, found, len) = remove_in-without t.count t.entries name in
      (
        find_in-first_of t.count t.entries name,
        rest,
        found,
        visit_in-sizes t.count t.entries,
        files-register_file name contents t h fits text,
        refl,
        record { size = len ∙ h.size; used = h.used },
        if_split IsTable (ltb t.count max_files)
            (λ lt. record {
              size = length-set t.entries t.count _ ∙ h.size;
              used = omega (arith, ltb→lt t.count max_files lt);
            })
            (λ ge. h),
      )
