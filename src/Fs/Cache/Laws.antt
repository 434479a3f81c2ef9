-- ===== src/Fs/Cache/Laws.antt =====
-- The cache is invisible: flushing it and moving it to another block change no block as its user sees it.
use wasm_os.Base.{
  ℕ, ◌<◌, Bool, true, false, List, Option, none, some, if◌then◌else◌, ◌==◌, ==→eq, length,
  Bool-cases, inl, inr, ◌≡◌, ◌≢◌, refl, sym, ap, subst, ◌∙◌, arith,
}
use wasm_os.Fs.Block.{BlockDevice, block_size}
use wasm_os.Fs.Cache.{BlockIo, is_held, written, flush_held, flush_dirty, fill, load, ensure_block}

module _ {D : Type 0} (device : BlockDevice D) where
  -- What the buffer is to the device, by whether it is dirty and which block it is for.
  pub data Holds (dev : D) (buf : List ℕ) : Bool → Option ℕ → Type 0 where
    nothing : Holds dev buf false none
    clean :
        {lba : ℕ}
        → lba < device.block_count dev
        → device.read_block dev lba ≡ some buf
        → Holds dev buf false (some lba)
    changed : {lba : ℕ} → lba < device.block_count dev → Holds dev buf true (some lba)

  pub record IsCache (io : BlockIo D) : Type 0 where
    pub dev : device.IsDevice io.dev
    pub full : length io.buf ≡ block_size
    pub holds : Holds io.dev io.buf io.buf_dirty io.buf_lba

  -- A block as the user of the cache sees it.
  unfoldable pub block_at : BlockIo D → ℕ → Option (List ℕ)
  block_at io lba = if is_held io.buf_lba lba then some io.buf else device.read_block io.dev lba

  -- An operation that succeeds and whose user sees no change.
  pub data Keeps (io : BlockIo D) : BlockIo D × Bool → Type 0 where
    keeps :
        {after : BlockIo D}
        → IsCache after
        → after.buf_dirty ≡ false
        → ((lba : ℕ) → block_at after lba ≡ block_at io lba)
        → device.block_count after.dev ≡ device.block_count io.dev
        → after.pos ≡ io.pos
        → Keeps io (after, true)

  block_at-stored :
      (e after : D) (pos : ℕ) (buf : List ℕ) (lba : ℕ)
      → ((other : ℕ) → other ≢ lba → device.read_block after other ≡ device.read_block e other)
      → (l : ℕ)
      → block_at
          (record { dev = after; pos = pos; buf = buf; buf_lba = some lba; buf_dirty = false })
          l
        ≡ block_at
            (record { dev = e; pos = pos; buf = buf; buf_lba = some lba; buf_dirty = true })
            l
  unfolding block_at is_held
  block_at-stored e after pos buf lba others l = elim (Bool-cases (lba == l)) [
    | inl t ↦ rw t refl
    | inr t ↦ rw t (others l (λ same. ground (arith, same, t)))
  ]

  flush-Keeps :
      (e : D) (pos : ℕ) (buf : List ℕ) (dirty : Bool) (lba : Option ℕ)
      → device.IsDevice e
      → length buf ≡ block_size
      → Holds e buf dirty lba
      → let io : BlockIo D = record {
        dev = e;
        pos = pos;
        buf = buf;
        buf_lba = lba;
        buf_dirty = dirty;
      } in
        Keeps io (flush_dirty device io)
  unfolding flush_dirty flush_held written
  flush-Keeps e pos buf false none v k nothing =
      let io : BlockIo D = record {
        dev = e;
        pos = pos;
        buf = buf;
        buf_lba = none;
        buf_dirty = false;
      } in
      let valid : IsCache io = record { dev = v; full = k; holds = nothing } in
      keeps {after = io} valid refl (λ lba. refl) refl refl
  flush-Keeps e pos buf false (some lba) v k (clean h r) =
      let io : BlockIo D = record {
        dev = e;
        pos = pos;
        buf = buf;
        buf_lba = some lba;
        buf_dirty = false;
      } in
      let valid : IsCache io = record { dev = v; full = k; holds = clean h r } in
      keeps {after = io} valid refl (λ lba. refl) refl refl
  flush-Keeps e pos buf true none v k held = elim held [ ]
  flush-Keeps e pos buf true (some lba) v k (changed h) =
      let (e', stored, back, others) = device.in_range e lba buf v k h in
      let (v', count) = device.write_block-IsDevice e e' lba buf v k stored in
      let io : BlockIo D = record {
        dev = e';
        pos = pos;
        buf = buf;
        buf_lba = some lba;
        buf_dirty = false;
      } in
      let valid : IsCache io = record {
        dev = v';
        full = k;
        holds = clean (subst (λ n. lba < n) (sym count) h) back;
      } in
      rw stored (keeps {after = io} valid refl (block_at-stored e e' pos buf lba others) count refl)

  flush_dirty-Keeps : (io : BlockIo D) → IsCache io → Keeps io (flush_dirty device io)
  flush_dirty-Keeps io h =
      flush-Keeps io.dev io.pos io.buf io.buf_dirty io.buf_lba h.dev h.full h.holds

  block_at-clean :
      (e : D) (pos : ℕ) (buf : List ℕ) (dirty : Bool) (o : Option ℕ)
      → Holds e buf dirty o
      → dirty ≡ false
      → (l : ℕ)
      → block_at (record { dev = e; pos = pos; buf = buf; buf_lba = o; buf_dirty = dirty }) l
        ≡ device.read_block e l
  unfolding block_at is_held
  block_at-clean e pos buf false none nothing c l = refl
  block_at-clean e pos buf false (some lba) (clean h r) c l = elim (Bool-cases (lba == l)) [
    | inl t ↦ rw t (subst (λ n. some buf ≡ device.read_block e n) (==→eq lba l t) (sym r))
    | inr t ↦ rw t refl
  ]
  block_at-clean e pos buf true none held c l = ground (arith, c)
  block_at-clean e pos buf true (some lba) held c l = ground (arith, c)

  -- Loading another block into a cache that is written back.
  pub data Loads (io : BlockIo D) (lba : ℕ) : BlockIo D × Bool → Type 0 where
    loads :
        {after : BlockIo D}
        → IsCache after
        → after.buf_lba ≡ some lba
        → ((l : ℕ) → block_at after l ≡ block_at io l)
        → device.block_count after.dev ≡ device.block_count io.dev
        → after.pos ≡ io.pos
        → Loads io lba (after, true)

  load-Loads :
      (io : BlockIo D) (lba : ℕ) (r : BlockIo D × Bool)
      → lba < device.block_count io.dev
      → Keeps io r
      → Loads io lba (load device lba r)
  unfolding load fill
  load-Loads io lba (after, false) lt r = elim r [ ]
  load-Loads io lba (after, true) lt (keeps h c same count pos) =
      let inside = subst (λ n. lba < n) (sym count) lt in
      let (bytes, got) = device.read_block-total after.dev lba h.dev inside in
      let full = device.read_block-length after.dev lba bytes h.dev got in
      let held : Holds after.dev bytes after.buf_dirty (some lba) =
        subst (λ b. Holds after.dev bytes b (some lba)) (sym c) (clean inside got) in
      let loaded = record after { buf = bytes; buf_lba = some lba } in
      let valid : IsCache loaded = record { dev = h.dev; full = full; holds = held } in
      let seen : (l : ℕ) → block_at loaded l ≡ block_at io l = λ l.
        block_at-clean after.dev after.pos bytes after.buf_dirty (some lba) held c l
        ∙ sym
            (block_at-clean after.dev after.pos after.buf after.buf_dirty after.buf_lba h.holds c l)
        ∙ same l in
      rw got (loads {after = loaded} valid refl seen count pos)

  held-eq : (o : Option ℕ) (lba : ℕ) → is_held o lba ≡ true → o ≡ some lba
  unfolding is_held
  held-eq none lba h = ground (arith, h)
  held-eq (some held) lba h = ap some (==→eq held lba h)

  -- On a device that fails only out of range, as its trait demands, where the cache is coherent, asking
  -- for a block of the device succeeds, and the cache then holds that block and is coherent; every block,
  -- as the user of the cache sees it, is as before, whether or not the buffer had to be written back
  -- first.
  pub ensure_block-Loads :
      (io : BlockIo D) (lba : ℕ)
      → IsCache io
      → lba < device.block_count io.dev
      → Loads io lba (ensure_block device io lba)
  unfolding ensure_block
  ensure_block-Loads io lba h lt = elim (Bool-cases (is_held io.buf_lba lba)) [
    | inl t ↦ rw t (loads {after = io} h (held-eq io.buf_lba lba t) (λ l. refl) refl refl)
    | inr t ↦ rw t (load-Loads io lba (flush_dirty device io) lt (flush_dirty-Keeps io h))
  ]
