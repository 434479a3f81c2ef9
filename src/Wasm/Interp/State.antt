-- ===== src/Wasm/Interp/State.antt =====
-- The state of `Interpreter`, its errors, and the helpers on its three stacks. A Rust array is a
-- list of the array's length; an `i64` is its bit pattern, a number below 2 ^ 64. `panic` is a Rust
-- panic (an index out of range, or an overflow as the debug profile checks it), and `hang` a loop
-- that never ends. Both leave the kernel, so they carry no state.
use wasm_os.Base.{
  ℕ, ◌+◌, ◌-◌, ◌%◌, ◌^◌, Bool, false, List, Option, none, some, ltb, leb, ◌==◌, if◌then◌else◌,
  get_elem?, get_or, set, drop, length, replicate,
}
use wasm_os.Wasm.Leb.{read_u32_leb128}

abbrev pub max_funcs : ℕ
max_funcs = 512

abbrev pub max_types : ℕ
max_types = 128

abbrev pub max_locals : ℕ
max_locals = 64

abbrev pub max_globals : ℕ
max_globals = 64

abbrev pub max_table : ℕ
max_table = 512

abbrev pub max_ctrl_depth : ℕ
max_ctrl_depth = 128

abbrev pub stack_depth : ℕ
stack_depth = 256

abbrev pub call_depth : ℕ
call_depth = 128

abbrev pub page_size : ℕ
page_size = 65536

-- `u32::MAX`
abbrev pub null_func : ℕ
null_func = 0xffff_ffff

pub data InterpError : Type 0 where
  no_code_section malformed_code too_many_funcs too_many_types too_many_locals : InterpError
  too_many_globals ctrl_stack_overflow func_index_out_of_range : InterpError
  local_index_out_of_range global_index_out_of_range global_immutable : InterpError
  indirect_call_null indirect_call_type_mismatch import_not_found unreachable : InterpError
  stack_overflow stack_underflow call_stack_overflow mem_out_of_bounds : InterpError
  division_by_zero invalid_conversion : InterpError
  unknown_opcode : ℕ → InterpError
  yielded exited : InterpError

pub data BlockKind : Type 0 where
  block loop if_block : BlockKind

pub record CtrlFrame : Type 0 where
  pub kind : BlockKind
  pub pc_start : ℕ
  pub end_pc : ℕ

abbrev pub blank_ctrl : CtrlFrame
blank_ctrl = record { kind = block; pc_start = 0; end_pc = 0 }

pub record Frame : Type 0 where
  pub body_idx : ℕ
  pub pc : ℕ
  pub locals : List ℕ
  pub local_count : ℕ
  pub ctrl_base : ℕ
  pub vsp_base : ℕ
  pub result_count : ℕ

abbrev pub blank_frame : Frame
blank_frame = record {
  body_idx = 0;
  pc = 0;
  locals = replicate max_locals 0;
  local_count = 0;
  ctrl_base = 0;
  vsp_base = 0;
  result_count = 0;
}

-- What a host function leaves behind, and the error that it returns, if any.
pub record HostResult : Type 0 where
  pub vstack : List ℕ
  pub vsp : ℕ
  pub mem : List ℕ
  pub error : Option InterpError

abbrev pub HostFn : Type 0
HostFn = List ℕ → ℕ → List ℕ → HostResult

pub record JumpSlot : Type 0 where
  pub key_body : ℕ
  pub key_pc : ℕ
  pub end_pc : ℕ
  pub else_pc : ℕ

-- The fields that `run` never writes.
pub record Code : Type 0 where
  pub bodies : List (List ℕ)
  pub body_count : ℕ
  pub local_counts : List ℕ
  pub type_param_counts : List ℕ
  pub type_result_counts : List ℕ
  pub type_count : ℕ
  pub func_type_indices : List ℕ
  pub all_func_types : List ℕ
  pub import_count : ℕ
  pub table : List ℕ
  pub table_size : ℕ
  pub global_mutable : List Bool
  pub global_count : ℕ
  pub host_fns : List (Option HostFn)
  pub jump_table : List JumpSlot
  pub max_pages : ℕ

-- `active_mem` is the local variable of `run` that caches the size of the memory in use. The two
-- counters are the statics OPCODE_COUNT and FUNC_CALL_COUNT.
pub record Interpreter : Type 0 where
  pub code : Code
  pub vstack : List ℕ
  pub vsp : ℕ
  pub frames : List Frame
  pub fdepth : ℕ
  pub ctrl : List CtrlFrame
  pub ctrl_depth : ℕ
  pub globals : List ℕ
  pub mem : List ℕ
  pub current_pages : ℕ
  pub active_mem : ℕ
  pub yield_requested : Bool
  pub shadow_stop_fdepth : ℕ
  pub opcode_count : ℕ
  pub func_call_count : List ℕ

pub data Res (A : Type 0) : Type 0 where
  ok : A → Interpreter → Res A
  err : InterpError → Interpreter → Res A
  panic hang : Res A

abbrev pub M : Type 0 → Type 0
M A = Interpreter → Res A

abbrev pub pure : {A : Type 0} → A → M A
pure a s = ok a s

abbrev pub fail : {A : Type 0} → InterpError → M A
fail e s = err e s

abbrev pub crash : {A : Type 0} → M A
crash s = panic

-- What follows an operation, where it gave a value.
abbrev pub after : {A B : Type 0} → Res A → (A → M B) → Res B
after (ok a s) f = f a s
after (err e s) f = err e s
after panic f = panic
after hang f = hang

infixl 5 ◌>>=◌ ◌>>◌
abbrev pub ◌>>=◌ : {A B : Type 0} → M A → (A → M B) → M B
◌>>=◌ m f s = after (m s) f

abbrev pub ◌>>◌ : {B : Type 0} → M (Unit {0}) → M B → M B
m >> k = m >>= λ _. k

abbrev pub modify : (Interpreter → Interpreter) → M (Unit {0})
modify f s = ok tt (f s)

abbrev pub gets : {A : Type 0} → (Interpreter → A) → M A
gets f s = ok (f s) s

-- `ok_or(e)?`
abbrev pub ok_or : {A : Type 0} → Option A → InterpError → M A
ok_or none e = fail e
ok_or (some a) e = pure a

-- `xs[i]`
abbrev pub index : {A : Type 0} → List A → ℕ → M A
index xs i s = elim (get_elem? xs i) [ none ↦ panic | some a ↦ ok a s ]

-- `if test { return Err(e) }`
abbrev pub fail_if : Bool → InterpError → M (Unit {0})
fail_if test e = if test then fail e else pure tt

unfoldable pub v_push : ℕ → M (Unit {0})
v_push v s =
    if leb stack_depth s.vsp
    then err stack_overflow s
    else ok tt (record s { vstack = set s.vstack s.vsp v; vsp = s.vsp + 1 })

unfoldable pub v_pop : M ℕ
v_pop s =
    if s.vsp == 0
    then err stack_underflow s
    else ok (get_or s.vstack (s.vsp - 1) 0) (record s { vsp = s.vsp - 1 })

unfoldable pub top : Interpreter → Option ℕ
top s = if ltb 0 s.vsp then some (get_or s.vstack (s.vsp - 1) 0) else none

unfoldable pub ctrl_push : CtrlFrame → M (Unit {0})
ctrl_push cf s =
    if leb max_ctrl_depth s.ctrl_depth
    then err ctrl_stack_overflow s
    else ok tt (record s { ctrl = set s.ctrl s.ctrl_depth cf; ctrl_depth = s.ctrl_depth + 1 })

-- `as u32` on a value of the stack
abbrev pub low_word : ℕ → ℕ
low_word v = v % 2 ^ 32

-- `self.frames[fi]` with `fi = self.fdepth - 1`
abbrev pub current_frame : Interpreter → Frame
current_frame s = get_or s.frames (s.fdepth - 1) blank_frame

abbrev pub update_frame : (Frame → Frame) → Interpreter → Interpreter
update_frame f s = record s { frames = set s.frames (s.fdepth - 1) (f (current_frame s)) }

-- `self.frames[fi].pc = pc`
unfoldable pub set_pc : ℕ → M (Unit {0})
set_pc pc = modify (update_frame (λ f. record f { pc = pc }))

-- `read_u32_leb128(&body[pc..]).ok_or(InterpError::MalformedCode)?`
unfoldable pub read_u32_at : List ℕ → ℕ → M (ℕ × ℕ)
read_u32_at body pc s =
    if ltb (length body) pc then panic else ok_or (read_u32_leb128 (drop pc body)) malformed_code s

unfoldable pub reset_for_call : Interpreter → Interpreter
reset_for_call s = record s { vsp = 0; fdepth = 0; ctrl_depth = 0; yield_requested = false }
