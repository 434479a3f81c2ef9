-- ===== src/Fs/Block.antt =====
-- Block devices: kernel/src/fs/block.rs. Err(()) is `none`.
pub mod Laws
use wasm_os.Base.{
  ℕ, ◌+◌, ◌*◌, ◌<◌, List, Option, none, some, if◌then◌else◌, leb, length, slice, overwrite, ◌≡◌,
  ◌≢◌,
}

abbrev pub block_size : ℕ
block_size = 512

abbrev pub ramdisk_blocks : ℕ
ramdisk_blocks = 256

-- The operations of a device with states `D`, and what its users rely on.
pub record BlockDevice (D : Type 0) : Type 1 where
  pub read_block : D → ℕ → Option (List ℕ)
  pub write_block : D → ℕ → List ℕ → Option D
  pub block_count : D → ℕ
  pub IsDevice : D → Type 0
  pub write_block-IsDevice :
      (d e : D) (lba : ℕ) (buf : List ℕ)
      → IsDevice d
      → length buf ≡ block_size
      → write_block d lba buf ≡ some e
      → IsDevice e × (block_count e ≡ block_count d)
  pub read_block-length :
      (d : D) (lba : ℕ) (buf : List ℕ)
      → IsDevice d
      → read_block d lba ≡ some buf
      → length buf ≡ block_size
  pub read_block-total :
      (d : D) (lba : ℕ)
      → IsDevice d
      → lba < block_count d
      → (buf : List ℕ) × (read_block d lba ≡ some buf)
  pub in_range :
      (d : D) (lba : ℕ) (buf : List ℕ)
      → IsDevice d
      → length buf ≡ block_size
      → lba < block_count d
      → (e : D) × (write_block d lba buf ≡ some e)
        × (read_block e lba ≡ some buf)
        × ((other : ℕ) → other ≢ lba → read_block e other ≡ read_block d other)

-- The bytes of the static ramdisk.
unfoldable pub ramdisk_read : List ℕ → ℕ → Option (List ℕ)
ramdisk_read disk lba =
    if leb ramdisk_blocks lba then none else some (slice disk (lba * block_size) block_size)

unfoldable pub ramdisk_write : List ℕ → ℕ → List ℕ → Option (List ℕ)
ramdisk_write disk lba buf =
    if leb ramdisk_blocks lba then none else some (overwrite disk (lba * block_size) buf)

unfoldable pub ramdisk_block_count : List ℕ → ℕ
ramdisk_block_count disk = ramdisk_blocks
