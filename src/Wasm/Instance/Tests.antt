-- ===== src/Wasm/Instance/Tests.antt =====
-- An interpreter made from a small module.
use wasm_os.Base.{false, [], ◌∷◌, some, replicate, ◌≡◌, refl}
use wasm_os.Wasm.Leb.{read_u32_leb128, skip_leb128}
use wasm_os.Wasm.Loader.{Module, empty_module}
use wasm_os.Wasm.Interp.State.{
  Interpreter, no_code_section, max_types, max_funcs, max_globals, max_table, null_func,
  stack_depth, call_depth, max_ctrl_depth, blank_frame, blank_ctrl,
}
use wasm_os.Wasm.Interp.Jumps.{pre_scan_all, pre_scan_body_jumps, jump_slots, empty_jump_slot}
use wasm_os.Wasm.Sections.{
  parsed, refused, crashed, parse_type_section, parse_function_section, parse_code_section,
}
use wasm_os.Wasm.Instance.{new}

-- A type section of one byte-count too many makes the parser index past the end.
type_section_crashes : parse_type_section (1 ∷ 0x60 ∷ 5 ∷ []) ([], []) ≡ crashed
unfolding parse_type_section read_u32_leb128
type_section_crashes = refl

needs_code : new empty_module 0 [] [] 0 ≡ refused no_code_section
unfolding new
needs_code = refl

-- One function of type () → i32: i32.const 42, end.
abbrev tiny : Module
tiny = record empty_module {
  type_section = some (1 ∷ 0x60 ∷ 0 ∷ 1 ∷ 0x7F ∷ []);
  function_section = some (1 ∷ 0 ∷ []);
  code_section = some (1 ∷ 4 ∷ 0 ∷ 0x41 ∷ 42 ∷ 0x0B ∷ []);
}

abbrev made : Interpreter
made = record {
  code = record {
    bodies = (0x41 ∷ 42 ∷ 0x0B ∷ []) ∷ replicate 511 [];
    body_count = 1;
    local_counts = replicate max_funcs 0;
    type_param_counts = replicate max_types 0;
    type_result_counts = 1 ∷ replicate 127 0;
    type_count = 1;
    func_type_indices = replicate max_funcs 0;
    all_func_types = replicate max_funcs 0;
    import_count = 0;
    table = replicate max_table null_func;
    table_size = 0;
    global_mutable = replicate max_globals false;
    global_count = 0;
    host_fns = [];
    jump_table = replicate jump_slots empty_jump_slot;
    max_pages = 0;
  };
  vstack = replicate stack_depth 0;
  vsp = 0;
  frames = replicate call_depth blank_frame;
  fdepth = 0;
  ctrl = replicate max_ctrl_depth blank_ctrl;
  ctrl_depth = 0;
  globals = replicate max_globals 0;
  mem = [];
  current_pages = 0;
  active_mem = 0;
  yield_requested = false;
  shadow_stop_fdepth = 0;
  opcode_count = 0;
  func_call_count = replicate max_funcs 0;
}

new-tiny : new tiny 0 [] [] 0 ≡ parsed made
unfolding new parse_type_section parse_function_section parse_code_section read_u32_leb128
    skip_leb128 pre_scan_all pre_scan_body_jumps
new-tiny = refl
