-- ===== src/Fs/Block/Laws.antt =====
-- The ramdisk is a block device.
use wasm_os.Base.{
  ℕ, ◌*◌, ◌≤◌, ◌<◌, List, none, some, if◌then◌else◌, leb, ltb, ltb→lt, ltb_false→le, true, false,
  length, length-overwrite, length-take, length-drop, drop, slice, take, overwrite, slice-overwrite,
  slice-overwrite_before, drop-overwrite, Bool-cases, inl, inr, ◌≡◌, ◌≢◌, refl, ap, subst, arith,
}
use wasm_os.Fs.Block.{
  BlockDevice, block_size, ramdisk_blocks, ramdisk_read, ramdisk_write, ramdisk_block_count,
}

abbrev pub IsRamdisk : List ℕ → Type 0
IsRamdisk disk = length disk ≡ block_size * ramdisk_blocks

apart : (a b : ℕ) → b ≤ a → a ≢ b → b < a
apart a b le ne = elim (Bool-cases (ltb b a)) [
  | inl t ↦ ltb→lt b a t
  | inr t ↦ absurd (ne (omega (arith, ltb_false→le b a t)))
]

pub ramdisk-in_range :
    (disk : List ℕ) (lba : ℕ) (buf : List ℕ)
    → IsRamdisk disk
    → length buf ≡ block_size
    → lba < ramdisk_blocks
    → (e : List ℕ) × (ramdisk_write disk lba buf ≡ some e)
      × (ramdisk_read e lba ≡ some buf)
      × ((other : ℕ) → other ≢ lba → ramdisk_read e other ≡ ramdisk_read disk other)
unfolding ramdisk_read ramdisk_write
ramdisk-in_range disk lba buf h k lt =
    let inside : leb ramdisk_blocks lba ≡ false = ground (arith, lt) in
    let e = overwrite disk (lba * block_size) buf in
    let same : slice e (lba * block_size) block_size ≡ buf =
      subst (λ n. slice e (lba * block_size) n ≡ buf) k
        (slice-overwrite disk (lba * block_size) buf (omega (arith, h, k, lt))) in
    (
      e,
      rw inside refl,
      rw inside (ap some same),
      λ other ne. elim (Bool-cases (ltb other lba)) [
        | inl t ↦
            let before = ltb→lt other lba t in
            let untouched =
              slice-overwrite_before disk (lba * block_size) buf (other * block_size) block_size
                (omega (arith, before)) in
            ap (λ b. if leb ramdisk_blocks other then none else some b) untouched
        | inr t ↦
            let behind = ltb_false→le other lba t in
            let untouched =
              drop-overwrite (other * block_size) disk (lba * block_size) buf
                (omega (arith, k, apart other lba behind ne)) in
            ap (λ b. if leb ramdisk_blocks other then none else some (take block_size b)) untouched
      ],
    )

-- On a ramdisk of its full size, a block of 512 bytes written below block 256 is what a read of the same
-- address answers, and any other address reads as before.
pub ramdisk_read-ramdisk_write :
    (disk : List ℕ) (lba other : ℕ) (buf : List ℕ)
    → IsRamdisk disk
    → length buf ≡ block_size
    → lba < ramdisk_blocks
    → other ≢ lba
    → (e : List ℕ) × (ramdisk_write disk lba buf ≡ some e)
      × (ramdisk_read e lba ≡ some buf)
      × (ramdisk_read e other ≡ ramdisk_read disk other)
ramdisk_read-ramdisk_write disk lba other buf h k lt ne =
    let (e, stored, back, others) = ramdisk-in_range disk lba buf h k lt in
    (e, stored, back, others other ne)

-- An address from block 256 on is refused, by reads and writes.
pub ramdisk-refuses :
    (disk : List ℕ) (lba : ℕ) (buf : List ℕ)
    → ramdisk_blocks ≤ lba
    → (ramdisk_read disk lba ≡ none) × (ramdisk_write disk lba buf ≡ none)
unfolding ramdisk_read ramdisk_write
ramdisk-refuses disk lba buf h =
    let outside : leb ramdisk_blocks lba ≡ true = ground (arith, h) in
    (rw outside refl, rw outside refl)

pub length-ramdisk_write :
    (disk e : List ℕ) (lba : ℕ) (buf : List ℕ)
    → IsRamdisk disk
    → ramdisk_write disk lba buf ≡ some e
    → IsRamdisk e
unfolding ramdisk_write
length-ramdisk_write disk e lba buf h w =
    let longer = length-overwrite disk (lba * block_size) buf in
    elim (Bool-cases (leb ramdisk_blocks lba)) [
      | inl t ↦ ground (arith, w, t)
      | inr t ↦ ground (arith, w, t, longer, h)
    ]

pub length-ramdisk_read :
    (disk : List ℕ) (lba : ℕ) (buf : List ℕ)
    → IsRamdisk disk
    → ramdisk_read disk lba ≡ some buf
    → length buf ≡ block_size
unfolding ramdisk_read
length-ramdisk_read disk lba buf h r = elim (Bool-cases (leb ramdisk_blocks lba)) [
  | inl t ↦ ground (arith, r, t)
  | inr t ↦
      let held = length-take block_size (drop (lba * block_size) disk) in
      let left = length-drop (lba * block_size) disk in
      let below : lba < ramdisk_blocks = ground (arith, t) in
      let size : length (slice disk (lba * block_size) block_size) ≡ block_size =
        omega (arith, held, left, h, below) in
      ground (arith, r, t, size)
]

pub readable :
    (disk : List ℕ) (lba : ℕ)
    → lba < ramdisk_blocks
    → ramdisk_read disk lba ≡ some (slice disk (lba * block_size) block_size)
unfolding ramdisk_read
readable disk lba lt =
    let inside : leb ramdisk_blocks lba ≡ false = ground (arith, lt) in rw inside refl

-- The ramdisk keeps the promises of a block device.
unfoldable pub ramdisk : BlockDevice (List ℕ)
unfolding ramdisk_block_count
ramdisk = record {
  read_block = ramdisk_read;
  write_block = ramdisk_write;
  block_count = ramdisk_block_count;
  IsDevice = IsRamdisk;
  write_block-IsDevice = λ d e lba buf h k w. (length-ramdisk_write d e lba buf h w, refl);
  read_block-length = length-ramdisk_read;
  read_block-total =
      λ disk lba h lt. (slice disk (lba * block_size) block_size, readable disk lba lt);
  in_range = ramdisk-in_range;
}
