-- ===== src/Wasm/Engine/Tests.antt =====
-- Calls of host functions with concrete arguments.
use wasm_os.Base.{
  ℕ, suc, ◌-◌, ◌<◌, ◌≤◌, ◌^◌, Bool, true, List, [], ◌∷◌, Option, none, some, length,
  length-replicate, All-replicate, replicate, set, get_or, ◌≡◌, refl, arith,
}
use wasm_os.Wasm.Interp.State.{stack_depth}
use wasm_os.Fs.Table.{File, empty_table, max_files, find_file}
use wasm_os.Fs.Table.Laws.{first_of, without_first, files, files-empty_table}
use wasm_os.Fs.Arena.{new_pool, write_slots, write_slot_cap}
use wasm_os.Wasm.Engine.Host.{
  Kernel, Call, done, arg, decimal, fmt_signed, fmt_i32, fmt_i64, hex_digits, fmt_hex, host_print,
}
use wasm_os.Wasm.Engine.Files.{
  host_fs_read, host_fs_write, host_fs_size, host_args_get, write_named,
}
use wasm_os.Wasm.Engine.Answers.{IsCall, Answers, files-Answers, host_print_lem}
use wasm_os.Wasm.Engine.Stored.{write_named-find_file}

abbrev all_text : List ℕ → Bool
all_text bytes = true

abbrev idle : Kernel
idle = record {
  files = empty_table;
  pool = new_pool;
  fat_writes = [];
  args = 97 ∷ [];
  pending_sleep_ms = 0;
  printed = [];
  network = none;
  uptime_ms = 7;
  opcount = 9;
}

-- Four arguments on the stack, and the bytes of a name and a text in the memory.
abbrev a_call : Call
a_call = record {
  kernel = idle;
  vstack = replicate stack_depth 3;
  vsp = 4;
  mem = 82 ∷ 69 ∷ 65 ∷ 1 ∷ 2 ∷ [];
}

a_call-IsCall : IsCall a_call
a_call-IsCall = record { stack = length-replicate {A = ℕ} stack_depth 3; bound = omega arith }

files-Answers_example :
    Answers 5 (host_fs_read all_text a_call)
    × Answers 5 (host_fs_write all_text a_call)
    × Answers 5 (host_fs_size all_text a_call)
    × Answers 5 (host_args_get a_call)
files-Answers_example = files-Answers all_text a_call a_call-IsCall (omega arith)

three_deep : (v : ℕ) (n : ℕ) → get_or (replicate (suc (suc (suc n))) v) 2 0 ≡ v
three_deep v n = refl

host_print_lem_example :
    (5 < arg a_call 2 → host_print all_text a_call ≡ none)
    × (arg a_call 2 ≤ 5 → Answers 5 (host_print all_text a_call))
host_print_lem_example =
    host_print_lem all_text a_call a_call-IsCall (omega arith)
      (omega (arith, three_deep 3 (stack_depth - 3)))

nothing_named :
    first_of (82 ∷ 69 ∷ 65 ∷ []) (without_first (82 ∷ 69 ∷ 65 ∷ []) (files all_text empty_table))
    ≡ none
unfolding first_of without_first
nothing_named = rw (files-empty_table all_text) refl

write_named-find_file_example :
    (k : Kernel) × (write_named all_text 0 3 3 2 a_call
      ≡ done (record a_call { kernel = k; vstack = set a_call.vstack 4 0; vsp = 5 }))
    × (find_file all_text (82 ∷ 69 ∷ 65 ∷ []) k.files ≡ some (1 ∷ 2 ∷ []))
write_named-find_file_example =
    write_named-find_file all_text 0 3 3 2 a_call
      (record {
        room = omega arith;
        table = record {
          size = length-replicate {A = Option File} max_files none;
          used = omega arith;
        };
        pool = record {
          slots = length-replicate {A = List ℕ} write_slots (replicate write_slot_cap 0);
          caps =
              All-replicate (λ (slot : List ℕ). length slot ≡ write_slot_cap) write_slots
                (replicate write_slot_cap 0) (length-replicate {A = ℕ} write_slot_cap 0);
        };
        small = omega arith;
        name_inside = omega arith;
        data_inside = omega arith;
        short = omega arith;
        text = refl;
        fits = omega arith;
        free = omega arith;
      })
      nothing_named

-- The numbers that programs print.
numbers :
    (fmt_i32 (2 ^ 32 - 120) ≡ 45 ∷ 49 ∷ 50 ∷ 48 ∷ 10 ∷ [])
    × (fmt_i64 0 ≡ 48 ∷ 10 ∷ [])
    × (fmt_hex 0xCAFE ≡ 48 ∷ 120 ∷ 48 ∷ 48 ∷ 48 ∷ 48 ∷ 67 ∷ 65 ∷ 70 ∷ 69 ∷ 10 ∷ [])
unfolding fmt_i32 fmt_i64 fmt_hex fmt_signed decimal hex_digits
numbers = (refl, refl, refl)
