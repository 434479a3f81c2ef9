-- ===== src/Wasm/Interp/Step/Arms.antt =====
-- Each arm of the match on the opcode, and one round of the loop, on a well-formed interpreter.
use wasm_os.Base.{
  ℕ, ◌+◌, ◌==◌, leb, List, [], ◌∷◌, Option, none, some, All, length-set, get_or, ◌∙◌, length, set,
  if_both,
}
use wasm_os.Wasm.Interp.State.{M, modify, update_frame, current_frame}
use wasm_os.Wasm.Interp.Num.{Numeric, unary, binary, partial}
use wasm_os.Wasm.Interp.Valid.{
  Keeps, Preserves, if-Keeps, >>=-Preserves, modify-Preserves, update_frame-IsValid,
  preserves_rules, fail-Preserves, pure-Preserves, set_pc-Preserves,
}
use wasm_os.Wasm.Interp.Control.{Next, advance, jumped}
use wasm_os.Wasm.Interp.Control.Frames.{do_return-Preserves}
use wasm_os.Wasm.Interp.Control.Invariant.{
  enter_block-Preserves, enter_if-Preserves, leave_then-Preserves, return_op-Preserves,
  end_op-Preserves, br_op-Preserves, br_if_op-Preserves, br_table_op-Preserves, call_op-Preserves,
  call_indirect_op-Preserves,
}
use wasm_os.Wasm.Interp.Mem.{loads, stores, load_op, store_op}
use wasm_os.Wasm.Interp.Mem.Invariant.{
  load_op-Preserves, store_op-Preserves, memory_size_op-Preserves, memory_grow_op-Preserves,
  memory_init_op-Preserves, data_drop_op-Preserves, memory_copy_op-Preserves,
  memory_fill_op-Preserves,
}
use wasm_os.Wasm.Interp.Step.{
  FloatOps, find_op, numerics, local_index, set_local, numeric_op, drop_op, select_op, local_get_op,
  local_set_op, local_tee_op, global_get_op, global_set_op, i32_const_op, i64_const_op,
  float_const_op, float_numeric, truncate_op, prefixed_op, arms, float_op, memory_op, dispatch,
  count_opcode, write_back, step,
}

pub numeric_op-Preserves : (f : Numeric) (pc : ℕ) → Preserves (numeric_op f pc)
unfolding numeric_op
numeric_op-Preserves (unary f) pc = search preserves_rules depth 20
numeric_op-Preserves (binary f) pc = search preserves_rules depth 20
numeric_op-Preserves (partial f) pc = search preserves_rules depth 20

set_local-Preserves : (idx v : ℕ) → Preserves (modify (update_frame (set_local idx v)))
unfolding set_local
set_local-Preserves idx v = modify-Preserves (update_frame (set_local idx v)) λ s h.
    update_frame-IsValid (set_local idx v) s
      (λ x k. record {
        locals_size = length-set x.locals idx v ∙ k.locals_size;
        locals_bound = k.locals_bound;
        ctrl_base_bound = k.ctrl_base_bound;
        vsp_base_bound = k.vsp_base_bound;
      })
      h

set_global-Preserves :
    (idx v : ℕ) → Preserves (modify (λ t. record t { globals = set t.globals idx v }))
set_global-Preserves idx v =
    modify-Preserves (λ t. record t { globals = set t.globals idx v })
      λ s h. record {
        stack = h.stack;
        frames = h.frames;
        each_frame = h.each_frame;
        ctrl = h.ctrl;
        globals_size = length-set s.globals idx v ∙ h.globals_size;
        memory = h.memory;
        hosts = h.hosts;
      }

ruleset plain_rules =
    (preserves_rules, set_local-Preserves, set_global-Preserves, numeric_op-Preserves)

drop_op-Preserves : (pc : ℕ) → Preserves (drop_op pc)
unfolding drop_op
drop_op-Preserves pc = search plain_rules depth 30

select_op-Preserves : (pc : ℕ) → Preserves (select_op pc)
unfolding select_op
select_op-Preserves pc = search plain_rules depth 30

local_index-Preserves : (body : List ℕ) (pc : ℕ) → Preserves (local_index body pc)
unfolding local_index
local_index-Preserves body pc = search plain_rules depth 30

ruleset local_rules = (plain_rules, local_index-Preserves)

local_get_op-Preserves : (body : List ℕ) (pc : ℕ) → Preserves (local_get_op body pc)
unfolding local_get_op
local_get_op-Preserves body pc = search local_rules depth 30

local_set_op-Preserves : (body : List ℕ) (pc : ℕ) → Preserves (local_set_op body pc)
unfolding local_set_op
local_set_op-Preserves body pc = search local_rules depth 30

local_tee_op-Preserves : (body : List ℕ) (pc : ℕ) → Preserves (local_tee_op body pc)
unfolding local_tee_op
local_tee_op-Preserves body pc = search local_rules depth 30

global_get_op-Preserves : (body : List ℕ) (pc : ℕ) → Preserves (global_get_op body pc)
unfolding global_get_op
global_get_op-Preserves body pc = search plain_rules depth 30

global_set_op-Preserves : (body : List ℕ) (pc : ℕ) → Preserves (global_set_op body pc)
unfolding global_set_op
global_set_op-Preserves body pc = search plain_rules depth 30

i32_const_op-Preserves : (body : List ℕ) (pc : ℕ) → Preserves (i32_const_op body pc)
unfolding i32_const_op
i32_const_op-Preserves body pc = search plain_rules depth 30

i64_const_op-Preserves : (body : List ℕ) (pc : ℕ) → Preserves (i64_const_op body pc)
unfolding i64_const_op
i64_const_op-Preserves body pc = search plain_rules depth 30

float_const_op-Preserves : (n : ℕ) (body : List ℕ) (pc : ℕ) → Preserves (float_const_op n body pc)
unfolding float_const_op
float_const_op-Preserves n body pc = search plain_rules depth 30

truncate_op-Preserves : (fp : FloatOps) (op pc : ℕ) → Preserves (truncate_op fp op pc)
unfolding truncate_op
truncate_op-Preserves fp op pc = search plain_rules depth 30

prefixed_op-Preserves :
    (fp : FloatOps) (body : List ℕ) (pc : ℕ) → Preserves (prefixed_op fp body pc)
unfolding prefixed_op
prefixed_op-Preserves fp body pc =
    search
      (
        plain_rules, memory_init_op-Preserves, data_drop_op-Preserves, memory_copy_op-Preserves,
        memory_fill_op-Preserves,
      )
      depth 30

option-Preserves :
    {A : Type 0} (o : Option A) (k : A → M Next) (rest : M Next)
    → ((a : A) → Preserves (k a))
    → Preserves rest
    → Preserves (elim o [ some a ↦ k a | none ↦ rest ])
option-Preserves none k rest h j = j
option-Preserves (some a) k rest h j = h a

-- An entry of a table has what all entries have.
found-Preserves :
    (op : ℕ) (table : List (ℕ × M Next)) (rest : M Next)
    → All (λ (e : ℕ × M Next). Preserves e.1) table
    → Preserves rest
    → Preserves (elim (find_op op table) [ some arm ↦ arm | none ↦ rest ])
unfolding find_op
found-Preserves op [] rest h k = k
found-Preserves op ((n, m) ∷ table) rest h k =
    if_both {A = Option (M Next)} (λ o. Preserves (elim o [ some arm ↦ arm | none ↦ rest ]))
      (n == op) h.0 (found-Preserves op table rest h.1 k)

arms-Preserves :
    (fp : FloatOps) (i : ℕ) (body : List ℕ) (pc : ℕ)
    → All (λ (e : ℕ × M Next). Preserves e.1) (arms fp i body pc)
unfolding arms
arms-Preserves fp i body pc = (
  fail-Preserves _,
  (
    pure-Preserves _,
    (
      enter_block-Preserves _ i body pc,
      (
        enter_block-Preserves _ i body pc,
        (
          enter_if-Preserves i body pc,
          (
            leave_then-Preserves,
            (
              end_op-Preserves pc,
              (
                br_op-Preserves body pc,
                (
                  br_if_op-Preserves body pc,
                  (
                    br_table_op-Preserves body pc,
                    (
                      return_op-Preserves,
                      (
                        call_op-Preserves body pc,
                        (
                          call_indirect_op-Preserves body pc,
                          (
                            drop_op-Preserves pc,
                            (
                              select_op-Preserves pc,
                              (
                                local_get_op-Preserves body pc,
                                (
                                  local_set_op-Preserves body pc,
                                  (
                                    local_tee_op-Preserves body pc,
                                    (
                                      global_get_op-Preserves body pc,
                                      (
                                        global_set_op-Preserves body pc,
                                        (
                                          memory_size_op-Preserves pc,
                                          (
                                            memory_grow_op-Preserves pc,
                                            (
                                              i32_const_op-Preserves body pc,
                                              (
                                                i64_const_op-Preserves body pc,
                                                (
                                                  float_const_op-Preserves 4 body pc,
                                                  (
                                                    float_const_op-Preserves 8 body pc,
                                                    (
                                                      pure-Preserves _,
                                                      (
                                                        pure-Preserves _,
                                                        (
                                                          pure-Preserves _,
                                                          (prefixed_op-Preserves fp body pc, tt),
                                                        ),
                                                      ),
                                                    ),
                                                  ),
                                                ),
                                              ),
                                            ),
                                          ),
                                        ),
                                      ),
                                    ),
                                  ),
                                ),
                              ),
                            ),
                          ),
                        ),
                      ),
                    ),
                  ),
                ),
              ),
            ),
          ),
        ),
      ),
    ),
  ),
)

float_op-Preserves : (fp : FloatOps) (op pc : ℕ) → Preserves (float_op fp op pc)
unfolding float_op
float_op-Preserves fp op pc =
    option-Preserves (float_numeric fp op) (λ f. numeric_op f pc) _ (λ f. numeric_op-Preserves f pc)
      (search (preserves_rules, truncate_op-Preserves) depth 20)

memory_op-Preserves :
    (fp : FloatOps) (body : List ℕ) (pc op : ℕ) → Preserves (memory_op fp body pc op)
unfolding memory_op
memory_op-Preserves fp body pc op =
    option-Preserves (find_op op loads) (λ e. load_op e.0 e.1 body pc) _
      (λ e. load_op-Preserves e.0 e.1 body pc)
      (option-Preserves (find_op op stores) (λ n. store_op n body pc) _
        (λ n. store_op-Preserves n body pc) (float_op-Preserves fp op pc))

other_op-Preserves :
    (fp : FloatOps) (body : List ℕ) (pc op : ℕ)
    → Preserves
        (elim (find_op op numerics) [ some f ↦ numeric_op f pc | none ↦ memory_op fp body pc op ])
other_op-Preserves fp body pc op =
    option-Preserves (find_op op numerics) (λ f. numeric_op f pc) _ (λ f. numeric_op-Preserves f pc)
      (memory_op-Preserves fp body pc op)

pub dispatch-Preserves :
    (fp : FloatOps) (i : ℕ) (body : List ℕ) (pc op : ℕ) → Preserves (dispatch fp i body pc op)
unfolding dispatch
dispatch-Preserves fp i body pc op =
    found-Preserves op (arms fp i body pc) _ (arms-Preserves fp i body pc)
      (other_op-Preserves fp body pc op)

write_back-Preserves : (n : Next) → Preserves (write_back n)
unfolding write_back
write_back-Preserves (advance pc) = set_pc-Preserves pc
write_back-Preserves jumped = pure-Preserves tt

count_opcode-Preserves : Preserves (modify count_opcode)
unfolding count_opcode
count_opcode-Preserves = modify-Preserves _ λ s h. record {
  stack = h.stack;
  frames = h.frames;
  each_frame = h.each_frame;
  ctrl = h.ctrl;
  globals_size = h.globals_size;
  memory = h.memory;
  hosts = h.hosts;
}

pub step-Preserves : (fp : FloatOps) → Preserves (step fp)
unfolding step Keeps
step-Preserves fp = record {
  keeps = λ s h.
      let frame = current_frame s in
      let body = get_or s.code.bodies frame.body_idx [] in
      if-Keeps (leb (length body) frame.pc) _ _ (λ _. do_return-Preserves.keeps s h)
        λ _.
          (>>=-Preserves count_opcode-Preserves λ _.
              >>=-Preserves
                (dispatch-Preserves fp frame.body_idx body (frame.pc + 1) (get_or body frame.pc 0))
                write_back-Preserves).keeps
            s h;
}
