-- ===== src/Wasm/Engine/Stored.antt =====
-- What a program's fs_write does to the files that programs see, and what a read finds afterwards.
use wasm_os.Base.{
  ℕ, ◌-◌, ◌+◌, ◌≤◌, ◌<◌, ◌^◌, min, Bool, true, false, List, [], ◌∷◌, ◌++◌, none, some, ltb, leb,
  if◌then◌else◌, bytes_eq_refl, length, length-take, length-drop, slice, drop, set, ◌≡◌, refl, ap,
  ap₂, ◌∙◌, arith,
}
use wasm_os.Wasm.Interp.State.{stack_depth}
use wasm_os.Fs.Table.{max_files, find_file, remove_file, register_file}
use wasm_os.Fs.Table.Laws.{IsTable, files, first_of, without_first, table_lem}
use wasm_os.Fs.Arena.{write_slots, write_slot_cap}
use wasm_os.Fs.Arena.Laws.{IsPool, alloc_write_buf-stores}
use wasm_os.Wasm.Engine.Host.{Kernel, Call, done, saturating_add, range}
use wasm_os.Wasm.Engine.Files.{filed, store_file, write_named}

length-slice : (xs : List ℕ) (from n : ℕ) → from + n ≤ length xs → length (slice xs from n) ≡ n
length-slice xs from n h = omega (arith, h, length-take n (drop from xs), length-drop from xs)

saturating : (a b size : ℕ) → a + b ≤ size → size < 2 ^ 64 → ltb size (saturating_add a b) ≡ false
saturating a b size h k = ground arith

first_of-end :
    (name bytes : List ℕ) (fs : List (List ℕ × List ℕ))
    → first_of name fs ≡ none
    → first_of name (fs ++ (name, bytes) ∷ []) ≡ some bytes
unfolding first_of
first_of-end name bytes [] h = rw (bytes_eq_refl name) refl
first_of-end name bytes ((n, b) ∷ fs) h = ground (arith, h, first_of-end name bytes fs)

first_of-if :
    (test : Bool) (name bytes : List ℕ) (fs : List (List ℕ × List ℕ))
    → first_of name fs ≡ none
    → first_of name (if test then fs ++ (name, bytes) ∷ [] else fs)
      ≡ (if test then some bytes else none)
first_of-if true name bytes fs h = first_of-end name bytes fs h
first_of-if false name bytes fs h = h

range-inside :
    (mem : List ℕ) (from n : ℕ)
    → from + n ≤ length mem
    → range mem from (from + n) ≡ some (slice mem from n)
range-inside mem from n h =
    let ordered : ltb (from + n) from ≡ false = ground arith in
    let inside : ltb (length mem) (from + n) ≡ false = ground (arith, h) in
    let size : from + n - from ≡ n = omega arith in rw (ordered, inside, size) refl

module _ (is_utf8 : List ℕ → Bool) where
  -- A call of fs_write whose pointers lie in the memory, with a name of at most 64 bytes of text and
  -- data that the pool has room for.
  pub record IsWrite (name_ptr name_len ptr len : ℕ) (c : Call) : Type 0 where
    pub room : c.vsp < stack_depth
    pub table : IsTable is_utf8 c.kernel.files
    pub pool : IsPool c.kernel.pool
    pub small : length c.mem < 2 ^ 64
    pub name_inside : name_ptr + name_len ≤ length c.mem
    pub data_inside : ptr + len ≤ length c.mem
    pub short : name_len ≤ 64
    pub text : is_utf8 (slice c.mem name_ptr name_len) ≡ true
    pub fits : len ≤ write_slot_cap
    pub free : c.kernel.pool.next < write_slots

  -- Such a call answers 0 and replaces the first file of that name; at a full table it only removes it.
  write_named-files :
      (name_ptr name_len ptr len : ℕ) (c : Call)
      → IsWrite name_ptr name_len ptr len c
      → (k : Kernel) × (write_named is_utf8 name_ptr name_len ptr len c
          ≡ done (record c { kernel = k; vstack = set c.vstack c.vsp 0; vsp = c.vsp + 1 }))
        × (files is_utf8 k.files ≡ (
            if ltb c.kernel.files.count max_files
            then without_first (slice c.mem name_ptr name_len) (files is_utf8 c.kernel.files)
              ++ (slice c.mem name_ptr name_len, slice c.mem ptr len) ∷ []
            else without_first (slice c.mem name_ptr name_len) (files is_utf8 c.kernel.files)))
        × (find_file is_utf8 (slice c.mem name_ptr name_len) k.files
            ≡ first_of (slice c.mem name_ptr name_len) (files is_utf8 k.files))
  unfolding write_named store_file
  write_named-files name_ptr name_len ptr len c h =
      let name = slice c.mem name_ptr name_len in
      let bytes = slice c.mem ptr len in
      let name_size = length-slice c.mem name_ptr name_len h.name_inside in
      let size = length-slice c.mem ptr len h.data_inside in
      let cut : name_ptr + min name_len 64 ≡ name_ptr + name_len = omega (arith, h.short) in
      let name_at = range-inside c.mem name_ptr name_len h.name_inside in
      let data_at = range-inside c.mem ptr len h.data_inside in
      let (q, claimed, held, kept, next) =
        alloc_write_buf-stores bytes c.kernel.pool (c.kernel.pool.next + 1) h.pool
          (omega (arith, size, h.fits)) h.free (λ e. omega (arith, e)) in
      let (found, removed, had, listed, added, count, table, both) =
        table_lem is_utf8 name bytes c.kernel.files h.table (omega (arith, name_size, h.short))
          h.text in
      let rest = (remove_file is_utf8 name c.kernel.files).0 in
      let (found', removed', had', listed', added', count', table', both') =
        table_lem is_utf8 name bytes rest table (omega (arith, name_size, h.short)) h.text in
      let found_after =
        (table_lem is_utf8 name bytes (register_file name bytes rest) both'
          (omega (arith, name_size, h.short)) h.text).0 in
      let here : leb stack_depth c.vsp ≡ false = ground (arith, h.room) in
      (
        (filed is_utf8 q name bytes c).kernel,
        rw
            (
              saturating name_ptr name_len (length c.mem) h.name_inside h.small,
              saturating ptr len (length c.mem) h.data_inside h.small,
              cut,
              name_at,
              h.text,
              data_at,
              claimed,
              held,
              here,
            )
            refl,
        added'
            ∙ ap₂ (λ fs (n : ℕ). if ltb n max_files then fs ++ (name, bytes) ∷ [] else fs) removed
                count,
        found_after,
      )

  -- A call of fs_write with pointers in the memory, a text of at most 64 bytes as the name and room in
  -- the pool, where the table has at most one file of that name, answers 0. A search for the name then
  -- finds the data while fewer than 64 files have been registered; from then on it finds nothing.
  pub write_named-find_file :
      (name_ptr name_len ptr len : ℕ) (c : Call)
      → IsWrite name_ptr name_len ptr len c
      → first_of
          (slice c.mem name_ptr name_len)
          (without_first (slice c.mem name_ptr name_len) (files is_utf8 c.kernel.files))
        ≡ none
      → (k : Kernel) × (write_named is_utf8 name_ptr name_len ptr len c
          ≡ done (record c { kernel = k; vstack = set c.vstack c.vsp 0; vsp = c.vsp + 1 }))
        × (find_file is_utf8 (slice c.mem name_ptr name_len) k.files
            ≡ (if ltb c.kernel.files.count max_files then some (slice c.mem ptr len) else none))
  write_named-find_file name_ptr name_len ptr len c h single =
      let name = slice c.mem name_ptr name_len in
      let bytes = slice c.mem ptr len in
      let rest = without_first name (files is_utf8 c.kernel.files) in
      let (k, wrote, held, found) = write_named-files name_ptr name_len ptr len c h in
      (
        k,
        wrote,
        found
            ∙ ap (first_of name) held
            ∙ first_of-if (ltb c.kernel.files.count max_files) name bytes rest single,
      )
