-- ===== src/Wasm/Interp/Mem/Invariant.antt =====
-- The instructions on linear memory and the well-formedness of the interpreter's state.
use wasm_os.Base.{
  ℕ, ◌+◌, ◌-◌, ◌*◌, ◌≤◌, List, ltb, length, length-overwrite, length-replicate, overwrite,
  replicate, ◌≡◌, refl, arith,
}
use wasm_os.Wasm.Interp.State.{Interpreter, after, modify, page_size}
use wasm_os.Wasm.Interp.Valid.{IsValid, Keeps, Preserves, if-Keeps, if_in-Keeps, preserves_rules}
use wasm_os.Wasm.Interp.Mem.{
  read_memarg, mem_read, mem_write, check_bounds, load_op, store_op, memory_size_op, grow_to,
  memory_grow_op, memory_init_op, data_drop_op, memory_copy_op, memory_fill_op,
}

read_memarg-Preserves : (body : List ℕ) (pc : ℕ) → Preserves (read_memarg body pc)
unfolding read_memarg
read_memarg-Preserves body pc = search preserves_rules depth 20

mem_read-Preserves : (ea n : ℕ) → Preserves (mem_read ea n)
unfolding mem_read Keeps
mem_read-Preserves ea n = record {
  keeps = λ s h. if-Keeps (ltb (length s.mem) (ea + n)) _ _ (λ _. tt) (λ _. h);
}

written-IsValid :
    (ea pages active : ℕ) (bytes : List ℕ) (s : Interpreter)
    → active ≡ pages * page_size
    → active ≤ length s.mem
    → IsValid s
    → IsValid
        (record s { mem = overwrite s.mem ea bytes; current_pages = pages; active_mem = active })
written-IsValid ea pages active bytes s c i h = record {
  stack = h.stack;
  frames = h.frames;
  each_frame = h.each_frame;
  ctrl = h.ctrl;
  globals_size = h.globals_size;
  memory = record { cached = c; inside = omega (arith, i, length-overwrite s.mem ea bytes) };
  hosts = h.hosts;
}

mem_write-Preserves : (ea : ℕ) (bytes : List ℕ) → Preserves (mem_write ea bytes)
unfolding mem_write Keeps
mem_write-Preserves ea bytes = record {
  keeps = λ s h.
      if-Keeps (ltb (length s.mem) (ea + length bytes)) _ _ (λ _. tt)
        (λ _.
          written-IsValid ea s.current_pages s.active_mem bytes s h.memory.cached h.memory.inside
            h);
}

check_bounds-Preserves : (ea n : ℕ) → Preserves (check_bounds ea n)
unfolding check_bounds Keeps
check_bounds-Preserves ea n = record {
  keeps = λ s h. if-Keeps (ltb s.active_mem (ea + n)) _ _ (λ _. h) (λ _. h);
}

-- The memory has room for what the growth has zeroed.
grow_to-Preserves : (old new : ℕ) → Preserves (grow_to old new)
unfolding grow_to mem_write Keeps
grow_to-Preserves old new = record {
  keeps = λ s h.
      let fresh = replicate (new * page_size - old * page_size) 0 in
      if_in-Keeps
        (λ r.
          after r
            (λ _. modify (λ t. record t { current_pages = new; active_mem = new * page_size })))
        (ltb (length s.mem) (old * page_size + length fresh)) _ _ (λ _. tt)
        λ room.
          written-IsValid (old * page_size) new (new * page_size) fresh s refl
            (ground (arith, length-replicate {A = ℕ} (new * page_size - old * page_size) 0)) h;
}

ruleset memory_rules = (
  preserves_rules, read_memarg-Preserves, mem_read-Preserves, mem_write-Preserves,
  check_bounds-Preserves, grow_to-Preserves,
)

pub load_op-Preserves :
    (n : ℕ) (extend : ℕ → ℕ) (body : List ℕ) (pc : ℕ) → Preserves (load_op n extend body pc)
unfolding load_op
load_op-Preserves n extend body pc = search memory_rules depth 30

pub store_op-Preserves : (n : ℕ) (body : List ℕ) (pc : ℕ) → Preserves (store_op n body pc)
unfolding store_op
store_op-Preserves n body pc = search memory_rules depth 30

pub memory_size_op-Preserves : (pc : ℕ) → Preserves (memory_size_op pc)
unfolding memory_size_op
memory_size_op-Preserves pc = search memory_rules depth 30

pub memory_grow_op-Preserves : (pc : ℕ) → Preserves (memory_grow_op pc)
unfolding memory_grow_op
memory_grow_op-Preserves pc = search memory_rules depth 30

pub memory_init_op-Preserves : (body : List ℕ) (pc : ℕ) → Preserves (memory_init_op body pc)
unfolding memory_init_op
memory_init_op-Preserves body pc = search memory_rules depth 30

pub data_drop_op-Preserves : (body : List ℕ) (pc : ℕ) → Preserves (data_drop_op body pc)
unfolding data_drop_op
data_drop_op-Preserves body pc = search memory_rules depth 30

pub memory_copy_op-Preserves : (pc : ℕ) → Preserves (memory_copy_op pc)
unfolding memory_copy_op
memory_copy_op-Preserves pc = search memory_rules depth 30

pub memory_fill_op-Preserves : (pc : ℕ) → Preserves (memory_fill_op pc)
unfolding memory_fill_op
memory_fill_op-Preserves pc = search memory_rules depth 30
