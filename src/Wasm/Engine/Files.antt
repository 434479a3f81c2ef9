-- ===== src/Wasm/Engine/Files.antt =====
-- The host functions on files and arguments in kernel/src/wasm/engine.rs. `none` is a panic.
use wasm_os.Base.{
  ℕ, ◌+◌, min, Bool, ◌||◌, List, ◌++◌, [], ◌∷◌, Option, none, some, if◌then◌else◌, ltb, length,
  slice, get_or,
}
use wasm_os.Base.Opt.{◌>>=◌}
use wasm_os.Fs.Table.{find_file, remove_file, register_file}
use wasm_os.Fs.Arena.{WritePool, alloc_write_buf}
use wasm_os.Wasm.Engine.Host.{
  Call, Outcome, arg, pop, with_args, push, minus_one, saturating_add, range, copy_into,
}

-- `break 'done v` and its like: the call with the answer pushed.
abbrev pub answer : Call → ℕ → Outcome
answer c v = push v c

unfoldable pub size_of : Option (List ℕ) → ℕ
size_of none = minus_one
size_of (some bytes) = length bytes

-- `data` goes to `buf_ptr`, where it fits the buffer and the buffer the memory.
unfoldable pub copy_file : Option (List ℕ) → ℕ → ℕ → Call → Outcome
copy_file none ptr cap c = answer c minus_one
copy_file (some bytes) ptr cap c =
    if ltb (length c.mem) (saturating_add ptr cap) || ltb cap (length bytes)
    then answer c minus_one
    else copy_into c.mem ptr bytes >>= λ mem. answer (record c { mem = mem }) (length bytes)

module _ (is_utf8 : List ℕ → Bool) where
  unfoldable pub read_named : ℕ → ℕ → ℕ → ℕ → Call → Outcome
  unfolding copy_file
  read_named name_ptr name_len ptr cap c =
      let name_end = saturating_add name_ptr name_len in
      if ltb (length c.mem) name_end
      then answer c minus_one
      else range c.mem name_ptr name_end >>= λ name.
          if is_utf8 name
          then copy_file (find_file is_utf8 name c.kernel.files) ptr cap c
          else answer c minus_one

  unfoldable pub host_fs_read : Call → Outcome
  unfolding read_named
  host_fs_read c = with_args 4 c (read_named (arg c 4) (arg c 3) (arg c 2) (arg c 1) (pop 4 c))

  -- The file replaced in the table and handed to the FAT volume.
  abbrev pub filed : WritePool → List ℕ → List ℕ → Call → Call
  filed pool name held c = record c {
    kernel = record c.kernel {
      pool = pool;
      files = register_file name held (remove_file is_utf8 name c.kernel.files).0;
      fat_writes = c.kernel.fat_writes ++ (name, held) ∷ [];
    };
  }

  -- By the pool's answer.
  unfoldable pub store_file : WritePool × Option ℕ → List ℕ → List ℕ → Call → Outcome
  store_file (pool, none) name bytes c =
      answer (record c { kernel = record c.kernel { pool = pool } }) minus_one
  store_file (pool, some i) name bytes c =
      answer (filed pool name (slice (get_or pool.slots i []) 0 (length bytes)) c) 0

  -- The data are sliced after the name has been read.
  unfoldable pub write_named : ℕ → ℕ → ℕ → ℕ → Call → Outcome
  unfolding store_file
  write_named name_ptr name_len ptr len c =
      if ltb (length c.mem) (saturating_add name_ptr name_len)
        || ltb (length c.mem) (saturating_add ptr len)
      then answer c minus_one
      else range c.mem name_ptr (name_ptr + min name_len 64) >>= λ name.
          if is_utf8 name
          then range c.mem ptr (ptr + len)
            >>= (λ bytes. store_file (alloc_write_buf bytes c.kernel.pool) name bytes c)
          else answer c minus_one

  unfoldable pub host_fs_write : Call → Outcome
  unfolding write_named
  host_fs_write c = with_args 4 c (write_named (arg c 4) (arg c 3) (arg c 2) (arg c 1) (pop 4 c))

  unfoldable pub size_named : ℕ → ℕ → Call → Outcome
  unfolding size_of
  size_named name_ptr name_len c =
      let name_end = saturating_add name_ptr name_len in
      if ltb (length c.mem) name_end
      then answer c minus_one
      else range c.mem name_ptr name_end >>= λ name.
          if is_utf8 name
          then answer c (size_of (find_file is_utf8 name c.kernel.files))
          else answer c minus_one

  unfoldable pub host_fs_size : Call → Outcome
  unfolding size_named
  host_fs_size c = with_args 2 c (size_named (arg c 2) (arg c 1) (pop 2 c))

unfoldable pub copy_args : ℕ → ℕ → Call → Outcome
copy_args ptr cap c =
    let len = length c.kernel.args in
    if ltb (length c.mem) (saturating_add ptr len) || ltb cap len
    then answer c minus_one
    else copy_into c.mem ptr c.kernel.args >>= λ mem. answer (record c { mem = mem }) len

unfoldable pub host_args_get : Call → Outcome
unfolding copy_args
host_args_get c = with_args 2 c (copy_args (arg c 2) (arg c 1) (pop 2 c))
