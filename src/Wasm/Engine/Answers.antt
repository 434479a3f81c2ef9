-- ===== src/Wasm/Engine/Answers.antt =====
-- What the host functions of the engine do to the stack and the memory, and when they cannot panic.
use wasm_os.Base.{
  ℕ, ◌+◌, ◌-◌, ◌≤◌, ◌<◌, ◌^◌, min, Bool, true, false, List, Option, none, some, ltb, leb,
  if◌then◌else◌, if_both, if_split, Bool-cases, inl, inr, ltb_false→le, length, overwrite, slice,
  get_or, [], length-set, length-overwrite, ◌≡◌, refl, ◌∙◌, arith,
}
use wasm_os.Wasm.Interp.State.{InterpError, stack_depth}
use wasm_os.Fs.Table.{find_file}
use wasm_os.Fs.Arena.{WritePool, alloc_write_buf}
use wasm_os.Wasm.Engine.Host.{
  saturating_add, with_args, arg, Call, Outcome, done, pop, push, minus_one, print, host_print,
}
use wasm_os.Wasm.Engine.Files.{
  answer, copy_file, read_named, host_fs_read, filed, store_file, write_named, host_fs_write,
  size_of, size_named, copy_args, host_fs_size, host_args_get,
}

-- The stack pointer lies on the stack.
pub record IsCall (c : Call) : Type 0 where
  pub stack : length c.vstack ≡ stack_depth
  pub bound : c.vsp ≤ stack_depth

-- The call returns, normally or with an error, having kept the sizes of the stack and the memory.
pub data Answers (size : ℕ) : Outcome → Type 0 where
  answers :
      {c : Call} {e : Option InterpError}
      → IsCall c
      → length c.mem ≡ size
      → Answers size (some (c, e))

push-Answers :
    (v : ℕ) (c : Call) (size : ℕ)
    → length c.vstack ≡ stack_depth
    → c.vsp < stack_depth
    → length c.mem ≡ size
    → Answers size (push v c)
push-Answers v c size h lt k =
    let room : leb stack_depth c.vsp ≡ false = ground (arith, lt) in
    rw room
      (answers (record { stack = length-set c.vstack c.vsp v ∙ h; bound = omega (arith, lt) }) k)

copy_file-Answers :
    (found : Option (List ℕ)) (ptr cap : ℕ) (c : Call)
    → length c.mem < 2 ^ 63
    → length c.vstack ≡ stack_depth
    → c.vsp < stack_depth
    → Answers (length c.mem) (copy_file found ptr cap c)
unfolding copy_file
copy_file-Answers none ptr cap c m h lt = push-Answers minus_one c _ h lt refl
copy_file-Answers (some bytes) ptr cap c m h lt =
    let kept = length-overwrite c.mem ptr bytes in
    let refused = push-Answers minus_one c _ h lt refl in
    elim (Bool-cases (ltb (length c.mem) (saturating_add ptr cap))) [
      | inl t ↦ rw t refused
      | inr t ↦ elim (Bool-cases (ltb cap (length bytes))) [
        | inl u ↦ rw (t, u) refused
        | inr u ↦
            let there : ltb (length c.mem) (ptr + length bytes) ≡ false = ground (arith, t, u, m) in
            rw (t, u, there)
              (push-Answers (length bytes) (record c { mem = overwrite c.mem ptr bytes }) _ h lt
                kept)
      ]
    ]

-- A call whose `k` arguments are popped if they are there.
pub with_args-Answers :
    (k : ℕ) (c : Call) (rest : Outcome)
    → IsCall c
    → 1 ≤ k
    → (c.vsp - k < stack_depth → Answers (length c.mem) rest)
    → Answers (length c.mem) (with_args k c rest)
with_args-Answers k c rest h pos f =
    if_split (Answers (length c.mem)) (ltb c.vsp k) (λ t. answers h refl)
      λ t. f (omega (arith, ltb_false→le c.vsp k t, h.bound, pos))

module _ (is_utf8 : List ℕ → Bool) where
  store_file-Answers :
      (r : WritePool × Option ℕ) (name bytes : List ℕ) (c : Call)
      → length c.vstack ≡ stack_depth
      → c.vsp < stack_depth
      → Answers (length c.mem) (store_file is_utf8 r name bytes c)
  unfolding store_file
  store_file-Answers (pool, none) name bytes c h lt =
      push-Answers minus_one (record c { kernel = record c.kernel { pool = pool } }) _ h lt refl
  store_file-Answers (pool, some i) name bytes c h lt =
      push-Answers 0 (filed is_utf8 pool name (slice (get_or pool.slots i []) 0 (length bytes)) c) _
        h lt refl

  -- A name that is text, or is refused.
  named-Answers :
      (text : Bool) (c : Call) {rest : Outcome}
      → length c.vstack ≡ stack_depth
      → c.vsp < stack_depth
      → Answers (length c.mem) rest
      → Answers (length c.mem) (if text then rest else answer c minus_one)
  named-Answers text c h lt k =
      if_both (Answers (length c.mem)) text k (push-Answers minus_one c _ h lt refl)

  read_named-Answers :
      (name_ptr name_len ptr cap : ℕ) (c : Call)
      → length c.mem < 2 ^ 63
      → length c.vstack ≡ stack_depth
      → c.vsp < stack_depth
      → Answers (length c.mem) (read_named is_utf8 name_ptr name_len ptr cap c)
  unfolding read_named
  read_named-Answers name_ptr name_len ptr cap c m h lt =
      let stop = saturating_add name_ptr name_len in
      let name = slice c.mem name_ptr (stop - name_ptr) in
      elim (Bool-cases (ltb (length c.mem) stop)) [
        | inl t ↦ rw t (push-Answers minus_one c _ h lt refl)
        | inr t ↦
            let ordered : ltb stop name_ptr ≡ false = ground (arith, t, m) in
            rw (t, ordered)
              (named-Answers (is_utf8 name) c h lt
                (copy_file-Answers (find_file is_utf8 name c.kernel.files) ptr cap c m h lt))
      ]

  write_named-Answers :
      (name_ptr name_len ptr len : ℕ) (c : Call)
      → length c.mem < 2 ^ 63
      → length c.vstack ≡ stack_depth
      → c.vsp < stack_depth
      → Answers (length c.mem) (write_named is_utf8 name_ptr name_len ptr len c)
  unfolding write_named
  write_named-Answers name_ptr name_len ptr len c m h lt =
      let stop = name_ptr + min name_len 64 in
      let name = slice c.mem name_ptr (stop - name_ptr) in
      let bytes = slice c.mem ptr (ptr + len - ptr) in
      let refused = push-Answers minus_one c _ h lt refl in
      elim (Bool-cases (ltb (length c.mem) (saturating_add name_ptr name_len))) [
        | inl t ↦ rw t refused
        | inr t ↦ elim (Bool-cases (ltb (length c.mem) (saturating_add ptr len))) [
          | inl u ↦ rw (t, u) refused
          | inr u ↦
              let ordered : ltb stop name_ptr ≡ false = ground arith in
              let inside : ltb (length c.mem) stop ≡ false = ground (arith, t, m) in
              let ordered' : ltb (ptr + len) ptr ≡ false = ground arith in
              let inside' : ltb (length c.mem) (ptr + len) ≡ false = ground (arith, u, m) in
              rw (t, u, ordered, inside, ordered', inside')
                (named-Answers (is_utf8 name) c h lt
                  (store_file-Answers (alloc_write_buf bytes c.kernel.pool) name bytes c h lt))
        ]
      ]

  size_named-Answers :
      (name_ptr name_len : ℕ) (c : Call)
      → length c.mem < 2 ^ 63
      → length c.vstack ≡ stack_depth
      → c.vsp < stack_depth
      → Answers (length c.mem) (size_named is_utf8 name_ptr name_len c)
  unfolding size_named
  size_named-Answers name_ptr name_len c m h lt =
      let stop = saturating_add name_ptr name_len in
      let name = slice c.mem name_ptr (stop - name_ptr) in
      elim (Bool-cases (ltb (length c.mem) stop)) [
        | inl t ↦ rw t (push-Answers minus_one c _ h lt refl)
        | inr t ↦
            let ordered : ltb stop name_ptr ≡ false = ground (arith, t, m) in
            rw (t, ordered)
              (named-Answers (is_utf8 name) c h lt
                (push-Answers (size_of (find_file is_utf8 name c.kernel.files)) c _ h lt refl))
      ]

  copy_args-Answers :
      (ptr cap : ℕ) (c : Call)
      → length c.mem < 2 ^ 63
      → length c.vstack ≡ stack_depth
      → c.vsp < stack_depth
      → Answers (length c.mem) (copy_args ptr cap c)
  unfolding copy_args
  copy_args-Answers ptr cap c m h lt =
      let args = c.kernel.args in
      let refused = push-Answers minus_one c _ h lt refl in
      elim (Bool-cases (ltb (length c.mem) (saturating_add ptr (length args)))) [
        | inl t ↦ rw t refused
        | inr t ↦
            let there : ltb (length c.mem) (ptr + length args) ≡ false = ground (arith, t, m) in
            elim (Bool-cases (ltb cap (length args))) [
              | inl u ↦ rw (t, u) refused
              | inr u ↦
                  rw (t, u, there)
                    (push-Answers (length args) (record c { mem = overwrite c.mem ptr args }) _ h lt
                      (length-overwrite c.mem ptr args))
            ]
      ]

  -- In every state of the kernel, with a memory shorter than 2 ^ 63 bytes, a program's call of fs_read,
  -- fs_write, fs_size or args_get returns without a panic, whatever pointers and lengths it gives: no
  -- slice of the memory runs out of bounds, the value stack stays within its bounds and the memory keeps
  -- its size.
  pub files-Answers :
      (c : Call)
      → IsCall c
      → length c.mem < 2 ^ 63
      → Answers (length c.mem) (host_fs_read is_utf8 c)
        × Answers (length c.mem) (host_fs_write is_utf8 c)
        × Answers (length c.mem) (host_fs_size is_utf8 c)
        × Answers (length c.mem) (host_args_get c)
  unfolding host_fs_read host_fs_write host_fs_size host_args_get
  files-Answers c h m = (
    with_args-Answers 4 c _ h (omega arith)
        λ lt. read_named-Answers (arg c 4) (arg c 3) (arg c 2) (arg c 1) (pop 4 c) m h.stack lt,
    with_args-Answers 4 c _ h (omega arith)
        λ lt. write_named-Answers (arg c 4) (arg c 3) (arg c 2) (arg c 1) (pop 4 c) m h.stack lt,
    with_args-Answers 2 c _ h (omega arith)
        λ lt. size_named-Answers (arg c 2) (arg c 1) (pop 2 c) m h.stack lt,
    with_args-Answers 2 c _ h (omega arith)
        λ lt. copy_args-Answers (arg c 2) (arg c 1) (pop 2 c) m h.stack lt,
  )

  -- A call of print with its two arguments there, the pointer below 2 ^ 64, stops the kernel where the
  -- pointer lies beyond the end of the memory. Elsewhere it returns, whatever the length: the value stack
  -- stays within its bounds and the memory keeps its size.
  pub host_print_lem :
      (c : Call)
      → IsCall c
      → 2 ≤ c.vsp
      → arg c 2 < 2 ^ 64
      → (length c.mem < arg c 2 → host_print is_utf8 c ≡ none)
        × (arg c 2 ≤ length c.mem → Answers (length c.mem) (host_print is_utf8 c))
  unfolding host_print
  host_print_lem c h two word =
      let there : ltb c.vsp 2 ≡ false = ground (arith, two) in
      let stop = min (saturating_add (arg c 2) (arg c 1)) (length c.mem) in
      let bytes = slice c.mem (arg c 2) (stop - arg c 2) in
      let left : IsCall (pop 2 c) = record { stack = h.stack; bound = omega (arith, h.bound) } in
      (
        (λ beyond.
            let before : ltb stop (arg c 2) ≡ true = ground (arith, beyond) in
            rw (there, before) refl),
        (λ inside.
            let ordered : ltb stop (arg c 2) ≡ false = ground (arith, inside, word) in
            let ended : ltb (length c.mem) stop ≡ false = ground arith in
            rw (there, ordered, ended) (printed (is_utf8 bytes) (pop 2 c) bytes left)),
      )
    where
      printed :
          (text : Bool) (c : Call) (bytes : List ℕ)
          → IsCall c
          → Answers (length c.mem) (done (if text then print bytes c else c))
      printed true c bytes h = answers (record { stack = h.stack; bound = h.bound }) refl
      printed false c bytes h = answers h refl
