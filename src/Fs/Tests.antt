-- ===== src/Fs/Tests.antt =====
-- Files, slots and blocks with concrete contents.
use wasm_os.Base.{
  ℕ, true, ◌*◌, Bool, List, [], ◌∷◌, ◌++◌, Option, none, some, length-replicate, replicate, slice,
  ◌≡◌, refl, arith,
}
use wasm_os.Fs.Table.{
  File, empty_table, find_file, remove_file, for_each_file, register_file, max_files,
}
use wasm_os.Fs.Table.Laws.{IsTable, files, first_of, without_first, contains, sizes, table_lem}
use wasm_os.Fs.Arena.{heap_size, heap_alloc}
use wasm_os.Fs.Arena.Laws.{
  Layout, Apart, Allots, regions, disk_slots, AreSlots, alloc_disk_slot-Apart, heap_alloc-Apart,
}
use wasm_os.Fs.Block.{ramdisk_read, ramdisk_write, block_size, ramdisk_blocks, ramdisk_block_count}
use wasm_os.Fs.Block.Laws.{ramdisk}
use wasm_os.Fs.Cache.{
  BlockIo, write, write_loop, prepare, ensure_block, load, fill, flush_dirty, flush_held, written,
  put, avail, replace_block, read, read_loop, prepend, new_io, is_held, block_of,
}
use wasm_os.Fs.Cache.Laws.{Loads, changed, ensure_block-Loads}

abbrev all_text : List ℕ → Bool
all_text bytes = true

abbrev readme : List ℕ
readme = 82 ∷ 69 ∷ 65 ∷ []

table_lem_example :
    (find_file all_text readme empty_table ≡ first_of readme (files all_text empty_table))
    × (files all_text (remove_file all_text readme empty_table).0
        ≡ without_first readme (files all_text empty_table))
    × ((remove_file all_text readme empty_table).1 ≡ contains readme (files all_text empty_table))
    × (for_each_file all_text empty_table ≡ sizes (files all_text empty_table))
    × (files all_text (register_file readme (1 ∷ 2 ∷ []) empty_table)
        ≡ files all_text empty_table ++ ((readme, 1 ∷ 2 ∷ []) ∷ []))
    × ((remove_file all_text readme empty_table).0.count ≡ 0)
    × IsTable all_text (remove_file all_text readme empty_table).0
    × IsTable all_text (register_file readme (1 ∷ 2 ∷ []) empty_table)
table_lem_example =
    table_lem all_text readme (1 ∷ 2 ∷ []) empty_table
      (record { size = length-replicate {A = Option File} max_files none; used = omega arith })
      (omega arith) refl

alloc_disk_slot-Apart_example : AreSlots 0 (disk_slots (10 ∷ 0 ∷ 5000000 ∷ 3 ∷ []) 0)
alloc_disk_slot-Apart_example =
    alloc_disk_slot-Apart (10 ∷ 0 ∷ 5000000 ∷ 3 ∷ []) 0 (omega arith)
      (omega arith, (omega arith, (omega arith, (omega arith, tt))))

abbrev small_layout : Layout
small_layout = record { align = 8; size = 24; positive = omega arith }

heap_alloc-Apart_example :
    Apart heap_size 3
      (regions (λ (l : Layout). heap_alloc l.align l.size) (λ l. l.size) (small_layout ∷ []) 3)
    × Allots heap_size 8 24 3 (heap_alloc 8 24 3)
heap_alloc-Apart_example = heap_alloc-Apart (small_layout ∷ []) small_layout 3

abbrev changed_io : BlockIo (List ℕ)
changed_io = record {
  dev = replicate (block_size * ramdisk_blocks) 0;
  pos = 0;
  buf = replicate block_size 1;
  buf_lba = some 3;
  buf_dirty = true;
}

ensure_block-Loads_example : Loads ramdisk changed_io 7 (ensure_block ramdisk changed_io 7)
unfolding ramdisk ramdisk_block_count
ensure_block-Loads_example =
    ensure_block-Loads ramdisk changed_io 7
      (record {
        dev = length-replicate {A = ℕ} (block_size * ramdisk_blocks) 0;
        full = length-replicate {A = ℕ} block_size 1;
        holds = changed {lba = 3} (omega arith);
      })
      (omega arith)

-- Three bytes across the bound of two blocks, written and read back through a cache that starts empty.
abbrev across : BlockIo (List ℕ) × Bool
across = write ramdisk (record (new_io (replicate 1536 0)) { pos = 510 }) (7 ∷ 8 ∷ 9 ∷ [])

across_lem :
    ((read ramdisk (record across.0 { pos = 509 }) 5).1 ≡ some (0 ∷ 7 ∷ 8 ∷ 9 ∷ 0 ∷ []))
    × (across.1 ≡ true)
    × (slice (flush_dirty ramdisk across.0).0.dev 510 3 ≡ 7 ∷ 8 ∷ 9 ∷ [])
unfolding write write_loop prepare ensure_block load fill flush_dirty flush_held written put avail
    replace_block read read_loop prepend new_io is_held block_of ramdisk ramdisk_read ramdisk_write
across_lem = (refl, refl, refl)
