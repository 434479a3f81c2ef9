-- ===== src/Fs/Arena.antt =====
-- The static memory of files in kernel/src/fs/mod.rs, and the heap of kernel/src/memory/allocator.rs:
-- bump allocators. An address is an offset into its arena. A size of at most `isize::MAX`, as in a Layout,
-- does not overflow a sum in usize; the length of a file slot has no such bound. Rounding up, `(x + a - 1) & !(a - 1)` for a power of two, is written with
-- the quotient.
pub mod Laws
use wasm_os.Base.{
  ℕ, zero, suc, ◌+◌, ◌-◌, ◌*◌, ◌/◌, ◌<◌, ◌^◌, List, [], ◌∷◌, Option, none, some, if◌then◌else◌, ltb,
  leb, ◌==◌, length, get_or, set, take, overwrite, replicate,
}

abbrev pub file_buf_size : ℕ
file_buf_size = 4194304

abbrev pub heap_size : ℕ
heap_size = 8388608

abbrev pub write_slots : ℕ
write_slots = 16

abbrev pub write_slot_cap : ℕ
write_slot_cap = 4096

-- FILE_BUF_NEXT before and after, and the offset of the slot; `none` is the overflow of `base + len`.
unfoldable pub alloc_disk_slot : ℕ → ℕ → Option (ℕ × Option ℕ)
alloc_disk_slot len next =
    let base = (next + 7) / 8 * 8 in
    let new_end = base + len in
    if len == 0
    then some (next, none)
    else if ltb (2 ^ 64 - 1) new_end
    then none
    else if ltb file_buf_size new_end
    then some (next, none)
    else some (new_end, some base)

-- HEAP_NEXT before and after, and the offset of the block; `none` is the null pointer.
unfoldable pub heap_alloc : ℕ → ℕ → ℕ → ℕ × Option ℕ
heap_alloc align size current =
    let aligned = (current + align - 1) / align * align in
    let block_end = aligned + size in
    if ltb heap_size block_end then (current, none) else (block_end, some aligned)

unfoldable pub heap_dealloc : ℕ → ℕ → ℕ
heap_dealloc block current = current

pub record WritePool : Type 0 where
  pub slots : List (List ℕ)
  pub next : ℕ

abbrev pub new_pool : WritePool
new_pool = record { slots = replicate write_slots (replicate write_slot_cap 0); next = 0 }

-- The slot claimed; the slice answered is its beginning, of the length of the data.
unfoldable pub alloc_write_buf : List ℕ → WritePool → WritePool × Option ℕ
alloc_write_buf bytes p =
    if ltb write_slot_cap (length bytes)
    then (p, none)
    else if leb write_slots p.next
    then (p, none)
    else (
      record {
        slots = set p.slots p.next (overwrite (get_or p.slots p.next []) 0 bytes);
        next = p.next + 1;
      },
      some p.next,
    )
