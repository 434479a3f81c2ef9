-- ===== src/Fs/Table.antt =====
-- The table of files in kernel/src/fs/mod.rs. A file's bytes are held, not referred to. The check of
-- UTF-8, and the writing of a file to the FAT volume, are arguments.
pub mod Laws
use wasm_os.Base.{
  ℕ, zero, suc, ◌+◌, ◌<◌, min, Bool, true, false, List, [], ◌∷◌, Option, none, some, if◌then◌else◌,
  ltb, bytes_eq, length, replicate, set, take, overwrite,
}

abbrev pub max_files : ℕ
max_files = 64

pub record File : Type 0 where
  pub name : List ℕ
  pub name_len : ℕ
  pub contents : List ℕ

pub record FileTable : Type 0 where
  pub entries : List (Option File)
  pub count : ℕ

abbrev pub empty_table : FileTable
empty_table = record { entries = replicate max_files none; count = 0 }

unfoldable pub name_str : (List ℕ → Bool) → File → List ℕ
name_str is_utf8 f = let bytes = take f.name_len f.name in if is_utf8 bytes then bytes else []

-- The entry for a name, cut off at 64 bytes.
unfoldable pub new_file : List ℕ → List ℕ → File
new_file name contents =
    let len = min (length name) 64 in
    record {
      name = overwrite (replicate 64 0) 0 (take len name);
      name_len = len;
      contents = contents;
    }

unfoldable pub register_file : List ℕ → List ℕ → FileTable → FileTable
unfolding new_file
register_file name contents t =
    if ltb t.count max_files
    then record {
      entries = set t.entries t.count (some (new_file name contents));
      count = t.count + 1;
    }
    else t

-- The loops over the first entries, as many as the count says.
module _ (is_utf8 : List ℕ → Bool) where
  unfoldable pub find_in : ℕ → List (Option File) → List ℕ → Option (List ℕ)
  unfolding name_str
  find_in zero entries name = none
  find_in (suc n) [] name = none
  find_in (suc n) (none ∷ entries) name = find_in n entries name
  find_in (suc n) (some f ∷ entries) name =
      let further = find_in n entries name in
      if bytes_eq (name_str is_utf8 f) name then some f.contents else further

  unfoldable pub find_file : List ℕ → FileTable → Option (List ℕ)
  unfolding find_in
  find_file name t = find_in t.count t.entries name

  unfoldable pub remove_in : ℕ → List (Option File) → List ℕ → List (Option File) × Bool
  unfolding name_str
  remove_in zero entries name = (entries, false)
  remove_in (suc n) [] name = ([], false)
  remove_in (suc n) (none ∷ entries) name =
      let rest = remove_in n entries name in (none ∷ rest.0, rest.1)
  remove_in (suc n) (some f ∷ entries) name =
      let rest = remove_in n entries name in
      if bytes_eq (name_str is_utf8 f) name
      then (none ∷ entries, true)
      else (some f ∷ rest.0, rest.1)

  unfoldable pub remove_file : List ℕ → FileTable → FileTable × Bool
  unfolding remove_in
  remove_file name t =
      let r = remove_in t.count t.entries name in (record { entries = r.0; count = t.count }, r.1)

  -- The names and sizes that the callback gets, in this order.
  unfoldable pub visit_in : ℕ → List (Option File) → List (List ℕ × ℕ)
  unfolding name_str
  visit_in zero entries = []
  visit_in (suc n) [] = []
  visit_in (suc n) (none ∷ entries) = visit_in n entries
  visit_in (suc n) (some f ∷ entries) = (name_str is_utf8 f, length f.contents) ∷ visit_in n entries

  unfoldable pub for_each_file : FileTable → List (List ℕ × ℕ)
  unfolding visit_in
  for_each_file t = visit_in t.count t.entries

  -- The volume after each file that is in the table has been written, and how many were.
  module _ {V : Type 0} (fat_write_file : V → List ℕ → List ℕ → V × Bool) where
    unfoldable pub save_in : ℕ → List (Option File) → V → ℕ → V × ℕ
    unfolding name_str
    save_in zero entries v saved = (v, saved)
    save_in (suc n) [] v saved = (v, saved)
    save_in (suc n) (none ∷ entries) v saved = save_in n entries v saved
    save_in (suc n) (some f ∷ entries) v saved =
        let r = fat_write_file v (name_str is_utf8 f) f.contents in
        save_in n entries r.0 (if r.1 then saved + 1 else saved)

    unfoldable pub save_to_fat : FileTable → V → V × ℕ
    unfolding save_in
    save_to_fat t v = save_in t.count t.entries v 0
