-- ===== src/Fs/Cache.antt =====
-- BlockIo in kernel/src/fs/fat.rs: the one-block write-back cache between the fatfs library and a block
-- device. Result<_, ()> is the state left with whether, or what, the call answers; bytes read before an
-- error are dropped. A position in u64 does not reach its bound, and a device that fails to read leaves
-- the buffer as it is.
pub mod Laws
use wasm_os.Base.{
  ℕ, suc, zero, ◌+◌, ◌-◌, ◌/◌, ◌%◌, ◌^◌, min, Bool, true, false, ◌||◌, not, List, [], ◌∷◌, ◌++◌,
  Option, none, some, if◌then◌else◌, ltb, ◌==◌, length, replicate, slice, drop, take, overwrite,
}
use wasm_os.Fs.Block.{BlockDevice, block_size}

pub record BlockIo (D : Type 0) : Type 0 where
  pub dev : D
  pub pos : ℕ
  pub buf : List ℕ
  pub buf_lba : Option ℕ
  pub buf_dirty : Bool

unfoldable pub new_io : {D : Type 0} → D → BlockIo D
new_io device = record {
  dev = device;
  pos = 0;
  buf = replicate block_size 0;
  buf_lba = none;
  buf_dirty = false;
}

-- `buf_lba == Some(lba)`.
unfoldable pub is_held : Option ℕ → ℕ → Bool
is_held none lba = false
is_held (some held) lba = held == lba

-- The address of the block that a position lies in.
unfoldable pub block_of : ℕ → ℕ
block_of pos = pos / block_size % 2 ^ 32

module _ {D : Type 0} (device : BlockDevice D) where
  unfoldable pub written : BlockIo D → Option D → BlockIo D × Bool
  written io none = (io, false)
  written io (some after) = (record io { dev = after; buf_dirty = false }, true)

  unfoldable pub flush_held : BlockIo D → Option ℕ → BlockIo D × Bool
  flush_held io none = (io, true)
  flush_held io (some lba) = written io (device.write_block io.dev lba io.buf)

  unfoldable pub flush_dirty : BlockIo D → BlockIo D × Bool
  flush_dirty io = if io.buf_dirty then flush_held io io.buf_lba else (io, true)

  unfoldable pub fill : ℕ → BlockIo D → Option (List ℕ) → BlockIo D × Bool
  fill lba io none = (io, false)
  fill lba io (some bytes) = (record io { buf = bytes; buf_lba = some lba }, true)

  unfoldable pub load : ℕ → BlockIo D × Bool → BlockIo D × Bool
  load lba (io, false) = (io, false)
  load lba (io, true) = fill lba io (device.read_block io.dev lba)

  unfoldable pub ensure_block : BlockIo D → ℕ → BlockIo D × Bool
  ensure_block io lba = if is_held io.buf_lba lba then (io, true) else load lba (flush_dirty io)

  -- The block is written whole: what it held is not read.
  unfoldable pub replace_block : ℕ → BlockIo D × Bool → BlockIo D × Bool
  replace_block lba (io, false) = (io, false)
  replace_block lba (io, true) =
      (record io { buf = replicate block_size 0; buf_lba = some lba }, true)

  unfoldable pub prepare : BlockIo D → ℕ → BlockIo D × Bool
  prepare io rest =
      let lba = block_of io.pos in
      if not (io.pos % block_size == 0) || ltb rest block_size
      then ensure_block io lba
      else replace_block lba (flush_dirty io)

  -- The bytes that a round moves.
  unfoldable pub avail : BlockIo D → ℕ → ℕ
  avail io rest = min (block_size - io.pos % block_size) rest

  unfoldable pub put : BlockIo D → List ℕ → BlockIo D
  put io bytes = record io {
    buf = overwrite io.buf (io.pos % block_size) bytes;
    buf_dirty = true;
    pos = io.pos + length bytes;
  }

  -- Each round moves a byte at least, so there are no more rounds than bytes.
  unfoldable pub write_loop : ℕ → BlockIo D → List ℕ → BlockIo D × Bool
  write_loop rounds io [] = (io, true)
  write_loop zero io (b ∷ bytes) = (io, false)
  write_loop (suc rounds) io (b ∷ bytes) =
      let moved = avail io (length (b ∷ bytes)) in
      let (ready, ok) = prepare io (length (b ∷ bytes)) in
      let rest = write_loop rounds (put ready (take moved (b ∷ bytes))) (drop moved (b ∷ bytes)) in
      if ok then rest else (ready, false)

  unfoldable pub write : BlockIo D → List ℕ → BlockIo D × Bool
  write io bytes = write_loop (length bytes) io bytes

  unfoldable pub prepend : List ℕ → BlockIo D × Option (List ℕ) → BlockIo D × Option (List ℕ)
  prepend bytes (io, none) = (io, none)
  prepend bytes (io, some more) = (io, some (bytes ++ more))

  -- `rest` is the part of the caller's buffer that is not filled yet.
  unfoldable pub read_loop : ℕ → BlockIo D → ℕ → BlockIo D × Option (List ℕ)
  read_loop rounds io zero = (io, some [])
  read_loop zero io (suc rest) = (io, none)
  read_loop (suc rounds) io (suc rest) =
      let moved = avail io (suc rest) in
      let (ready, ok) = ensure_block io (block_of io.pos) in
      let bytes = slice ready.buf (ready.pos % block_size) moved in
      let more = read_loop rounds (record ready { pos = ready.pos + moved }) (suc rest - moved) in
      if ok then prepend bytes more else (ready, none)

  unfoldable pub read : BlockIo D → ℕ → BlockIo D × Option (List ℕ)
  read io len = read_loop len io len
