-- ===== src/Wasm/Instance.antt =====
-- `Interpreter::new` of kernel/src/wasm/interp.rs.
mod Tests
use wasm_os.Base.{
  ℕ, zero, suc, ◌+◌, ◌*◌, ◌/◌, Bool, false, List, [], ◌∷◌, Option, none, some, ltb, if◌then◌else◌,
  get_or, set, take, length, replicate,
}
use wasm_os.Wasm.Loader.{Module}
use wasm_os.Wasm.Interp.State.{
  Interpreter, HostFn, no_code_section, max_types, max_funcs, max_globals, max_table, null_func,
  stack_depth, call_depth, max_ctrl_depth, page_size, blank_frame, blank_ctrl,
}
use wasm_os.Wasm.Interp.Jumps.{pre_scan_all, jump_slots, empty_jump_slot}
use wasm_os.Wasm.Sections.{
  Parsed, parsed, refused, ◌>>=◌, parse_type_section, parse_function_section, parse_code_section,
  parse_import_func_types,
}
use wasm_os.Wasm.Sections.Contents.{Table, parse_element_section, parse_global_section}

-- `if let Some(section) = .. { parse(section)? } else { otherwise }`
abbrev pub if_present : {A : Type 0} → Option (List ℕ) → (List ℕ → Parsed A) → A → Parsed A
if_present none parse otherwise = parsed otherwise
if_present (some section) parse otherwise = parse section

-- `for i in 0..body_count { let abs = import_count + i; if abs < MAX_FUNCS { .. } }`
unfoldable pub define_types : ℕ → ℕ → ℕ → List ℕ → List ℕ → List ℕ
define_types zero i import_count types out = out
define_types (suc left) i import_count types out =
    let abs = import_count + i in
    define_types left (i + 1) import_count types
      (if ltb abs max_funcs then set out abs (get_or types i 0) else out)

unfoldable pub new : Module → ℕ → List ℕ → List (Option HostFn) → ℕ → Parsed Interpreter
unfolding define_types
new m import_count mem host_fns initial_pages = do
  (type_count, counts) ←
      if_present m.type_section
        (λ b. parse_type_section b (replicate max_types 0, replicate max_types 0))
        (0, (replicate max_types 0, replicate max_types 0))
  types ←
      if_present m.function_section (λ b. parse_function_section b (replicate max_funcs 0))
        (replicate max_funcs 0)
  code ← elim m.code_section [ none ↦ refused no_code_section | some b ↦ parsed b ]
  (body_count, (bodies, local_counts)) ←
      parse_code_section code (replicate max_funcs [], replicate max_funcs 0)
  (global_count, (globals, mutability)) ←
      if_present m.global_section
        (λ b. parse_global_section b (replicate max_globals 0, replicate max_globals false))
        (0, (replicate max_globals 0, replicate max_globals false))
  imported ←
      if_present m.import_section (λ b. parse_import_func_types b (replicate max_funcs 0))
        (0, replicate max_funcs 0)
  table ←
      if_present m.element_section (λ b. parse_element_section b (replicate max_table null_func, 0))
        (replicate max_table null_func, 0)
  parsed (record {
    code = record {
      bodies = bodies;
      body_count = body_count;
      local_counts = local_counts;
      type_param_counts = counts.0;
      type_result_counts = counts.1;
      type_count = type_count;
      func_type_indices = types;
      all_func_types = define_types body_count 0 import_count types imported.1;
      import_count = import_count;
      table = table.0;
      table_size = table.1;
      global_mutable = mutability;
      global_count = global_count;
      host_fns = host_fns;
      jump_table = pre_scan_all (take body_count bodies) 0 (replicate jump_slots empty_jump_slot);
      max_pages = length mem / page_size;
    };
    vstack = replicate stack_depth 0;
    vsp = 0;
    frames = replicate call_depth blank_frame;
    fdepth = 0;
    ctrl = replicate max_ctrl_depth blank_ctrl;
    ctrl_depth = 0;
    globals = globals;
    mem = mem;
    current_pages = initial_pages;
    active_mem = initial_pages * page_size;
    yield_requested = false;
    shadow_stop_fdepth = 0;
    opcode_count = 0;
    func_call_count = replicate max_funcs 0;
  })
