-- ===== src/Fs/Arena/Laws.antt =====
-- The regions that the bump allocators hand out.
use wasm_os.Base.{
  ℕ, zero, suc, ◌+◌, ◌-◌, ◌*◌, ◌/◌, ◌%◌, ◌≤◌, ◌<◌, List, [], ◌∷◌, All, Option, none, some, if_split,
  if_both, ltb, leb, ltb_false→le, ltb→lt, ◌^◌, ◌==◌, length, get_or, set, slice, overwrite,
  slice-overwrite, get_or-set_self, get_or-set_ne, true, false, inl, inr, ◌≡◌, ◌≢◌, ◌⊎◌, refl, ap,
  sym, ◌∙◌, arith,
}
use wasm_os.Base.Opt.{◌>>=◌}
use native.Mathlib.Nat.{div-add-mod, mod-lt, mul-mod_left, mul_comm}
use wasm_os.Fs.Arena.{
  alloc_disk_slot, heap_alloc, file_buf_size, heap_size, WritePool, alloc_write_buf, write_slots,
  write_slot_cap,
}

-- A region from `base` of `size` bytes, for a request made when the arena was used up to `next`.
pub record IsRegion (limit align next size base : ℕ) : Type 0 where
  pub behind : next ≤ base
  pub aligned : base % align ≡ 0
  pub inside : base + size ≤ limit

-- What a request answers: a region, used up to its end from now on, or nothing, with nothing used.
pub data Allots (limit align size next : ℕ) : ℕ × Option ℕ → Type 0 where
  refused : Allots limit align size next (next, none)
  granted :
      (base : ℕ)
      → IsRegion limit align next size base
      → Allots limit align size next (base + size, some base)

-- A request for a file slot: a panic where the sum overflows, and else as above.
pub data Claims (len next : ℕ) : Option (ℕ × Option ℕ) → Type 0 where
  overflows : 2 ^ 64 ≤ (next + 7) / 8 * 8 + len → Claims len next none
  claims : (o : ℕ × Option ℕ) → Allots file_buf_size 8 len next o → Claims len next (some o)

alloc_disk_slot-Claims : (len next : ℕ) → Claims len next (alloc_disk_slot len next)
unfolding alloc_disk_slot
alloc_disk_slot-Claims len next =
    let new_end = (next + 7) / 8 * 8 + len in
    if_both (Claims len next) (len == 0) (Claims.claims _ Allots.refused) (
      if_split (Claims len next) (ltb (2 ^ 64 - 1) new_end)
        (λ t. Claims.overflows (omega (arith, ltb→lt (2 ^ 64 - 1) new_end t)))
        (λ t.
          if_split (Claims len next) (ltb file_buf_size new_end)
            (λ u. Claims.claims _ Allots.refused)
            (λ u.
              let fits = ltb_false→le file_buf_size new_end u in
              Claims.claims _ (
                Allots.granted ((next + 7) / 8 * 8)
                  (record { behind = omega arith; aligned = omega arith; inside = fits })))))

pub heap_alloc-Allots :
    (align size current : ℕ)
    → 0 < align
    → Allots heap_size align size current (heap_alloc align size current)
unfolding heap_alloc
heap_alloc-Allots align size current pos =
    let x = current + align - 1 in
    let parts = div-add-mod x align in
    let low = mod-lt x pos in
    let order = mul_comm align (x / align) in
    if_split (Allots heap_size align size current) (ltb heap_size (x / align * align + size))
      (λ t. Allots.refused)
      (λ t. Allots.granted (x / align * align) (record {
        behind = omega (arith, parts, low, order);
        aligned = mul-mod_left (x / align) align;
        inside = ltb_false→le heap_size (x / align * align + size) t;
      }))

-- A region granted, in front of those that follow.
abbrev pub granted_region : ℕ → Option ℕ → List (ℕ × ℕ) → List (ℕ × ℕ)
granted_region len none regions = regions
granted_region len (some base) regions = (base, len) ∷ regions

-- Requests one after the other: the regions granted, each with its size.
module _ {R : Type 0} (alloc : R → ℕ → ℕ × Option ℕ) (size : R → ℕ) where
  unfoldable pub regions : List R → ℕ → List (ℕ × ℕ)
  regions [] next = []
  regions (r ∷ rs) next = granted_region (size r) (alloc r next).1 (regions rs (alloc r next).0)

-- Every region lies within the arena, begins behind the end of all before it, and so overlaps none.
unfoldable pub Apart : ℕ → ℕ → List (ℕ × ℕ) → Type 0
Apart limit used [] = Unit
Apart limit used ((base, len) ∷ rest) =
    (used ≤ base) × (base + len ≤ limit) × Apart limit (base + len) rest

module _ {R : Type 0} (alloc : R → ℕ → ℕ × Option ℕ) (size align : R → ℕ) (limit : ℕ) where
  regions-Apart :
      ((r : R) (next : ℕ) → Allots limit (align r) (size r) next (alloc r next))
      → (rs : List R) (next : ℕ) → Apart limit next (regions alloc size rs next)
  unfolding regions Apart
  regions-Apart ok [] next = tt
  regions-Apart ok (r ∷ rs) next =
      step (size r) (align r) next (alloc r next) (regions alloc size rs) (ok r next)
        (λ used. regions-Apart ok rs used)
    where
      step :
          (len al next : ℕ) (o : ℕ × Option ℕ) (later : ℕ → List (ℕ × ℕ))
          → Allots limit al len next o
          → ((used : ℕ) → Apart limit used (later used))
          → Apart limit next (granted_region len o.1 (later o.0))
      step len al next o later Allots.refused k = k next
      step len al next o later (Allots.granted base h) k = (h.behind, h.inside, k (base + len))

-- The slots that a sequence of requests is granted, each with its length; `none` is a panic.
unfoldable pub disk_slots : List ℕ → ℕ → Option (List (ℕ × ℕ))
disk_slots [] next = some []
disk_slots (len ∷ lens) next =
    alloc_disk_slot len next
    >>= (λ r. disk_slots lens r.0 >>= (λ later. some (granted_region len r.1 later)))

-- No panic, and regions of the file arena behind those granted before.
pub data AreSlots (used : ℕ) : Option (List (ℕ × ℕ)) → Type 0 where
  apart : (slots : List (ℕ × ℕ)) → Apart file_buf_size used slots → AreSlots used (some slots)

joined :
    (len next used : ℕ) (slot : Option ℕ) {later : Option (List (ℕ × ℕ))}
    → AreSlots used later
    → ((l : List (ℕ × ℕ))
        → Apart file_buf_size used l
        → Apart file_buf_size next (granted_region len slot l))
    → AreSlots next (later >>= (λ l. some (granted_region len slot l)))
joined len next used slot (AreSlots.apart l h) k = AreSlots.apart _ (k l h)

slots_after :
    (len next : ℕ) (lens : List ℕ) {o : Option (ℕ × Option ℕ)}
    → next ≤ file_buf_size
    → len < 2 ^ 63
    → Claims len next o
    → ((used : ℕ) → used ≤ file_buf_size → AreSlots used (disk_slots lens used))
    → AreSlots next
        (o >>= (λ r. disk_slots lens r.0 >>= (λ later. some (granted_region len r.1 later))))
unfolding Apart
slots_after len next lens h small (Claims.overflows e) k = absurd (omega (arith, h, small, e))
slots_after len next lens h small (Claims.claims o Allots.refused) k =
    joined len next next none (k next h) (λ l a. a)
slots_after len next lens h small (Claims.claims o (Allots.granted base r)) k =
    joined len next (base + len) (some base) (k (base + len) r.inside)
      (λ l a. (r.behind, r.inside, a))

-- From an arena that is used up to a point within its 4 MiB, requests for slots of lengths below 2 ^ 63
-- are answered without a panic: the slots granted lie behind that point and within the arena, and
-- overlap none.
pub alloc_disk_slot-Apart :
    (lens : List ℕ) (next : ℕ)
    → next ≤ file_buf_size
    → All (λ len. len < 2 ^ 63) lens
    → AreSlots next (disk_slots lens next)
unfolding disk_slots Apart
alloc_disk_slot-Apart [] next h small = AreSlots.apart [] tt
alloc_disk_slot-Apart (len ∷ lens) next h small =
    slots_after len next lens h small.0 (alloc_disk_slot-Claims len next)
      (λ used u. alloc_disk_slot-Apart lens used u small.1)

-- A layout's alignment is a power of two; that it is not zero is all that counts here.
pub record Layout : Type 0 where
  pub align : ℕ
  pub size : ℕ
  pub positive : 0 < align

-- Whatever the layouts asked for, the blocks of the heap lie within its 8 MiB and overlap none. A request
-- is refused with nothing used, or granted at an offset in the heap that is a multiple of its alignment.
pub heap_alloc-Apart :
    (ls : List Layout) (l : Layout) (current : ℕ)
    → Apart heap_size current
        (regions (λ (l : Layout). heap_alloc l.align l.size) (λ l. l.size) ls current)
      × Allots heap_size l.align l.size current (heap_alloc l.align l.size current)
heap_alloc-Apart ls l current = (
  regions-Apart (λ (l : Layout). heap_alloc l.align l.size) (λ l. l.size) (λ l. l.align) heap_size
      (λ l next. heap_alloc-Allots l.align l.size next l.positive) ls current,
  heap_alloc-Allots l.align l.size current l.positive,
)

-- The pool has its 16 slots of 4 KiB.
pub record IsPool (p : WritePool) : Type 0 where
  pub slots : length p.slots ≡ write_slots
  pub caps : All (λ slot. length slot ≡ write_slot_cap) p.slots

slot_cap :
    (slots : List (List ℕ)) (i : ℕ)
    → All (λ slot. length slot ≡ write_slot_cap) slots
    → i < length slots
    → length (get_or slots i []) ≡ write_slot_cap
slot_cap [] i k lt = absurd (omega arith)
slot_cap (s ∷ slots) zero k lt = k.0
slot_cap (s ∷ slots) (suc i) k lt = slot_cap slots i k.1 (omega arith)

-- In a well-formed pool, data of at most 4 KiB gets the next slot while fewer than 16 are claimed: the
-- slot begins with the data, and any other slot is as it was.
pub alloc_write_buf-stores :
    (bytes : List ℕ) (p : WritePool) (other : ℕ)
    → IsPool p
    → length bytes ≤ write_slot_cap
    → p.next < write_slots
    → other ≢ p.next
    → (q : WritePool) × (alloc_write_buf bytes p ≡ (q, some p.next))
      × (slice (get_or q.slots p.next []) 0 (length bytes) ≡ bytes)
      × (get_or q.slots other [] ≡ get_or p.slots other [])
      × (q.next ≡ p.next + 1)
unfolding alloc_write_buf
alloc_write_buf-stores bytes p other h fits free ne =
    let small : ltb write_slot_cap (length bytes) ≡ false = ground (arith, fits) in
    let room : leb write_slots p.next ≡ false = ground (arith, free) in
    let old = get_or p.slots p.next [] in
    let len = slot_cap p.slots p.next h.caps (omega (arith, free, h.slots)) in
    let filled = overwrite old 0 bytes in
    let stored = get_or-set_self p.slots p.next filled [] (omega (arith, free, h.slots)) in
    (
      record { slots = set p.slots p.next filled; next = p.next + 1 },
      rw (small, room) refl,
      ap (λ s. slice s 0 (length bytes)) stored
          ∙ slice-overwrite old 0 bytes (omega (arith, len, fits)),
      get_or-set_ne p.slots p.next other filled [] (λ e. ne (sym e)),
      refl,
    )

-- Data of more than 4 KiB, or any data once 16 slots are claimed, is refused and claims nothing.
pub alloc_write_buf-refuses :
    (bytes : List ℕ) (p : WritePool)
    → (write_slot_cap < length bytes) ⊎ (write_slots ≤ p.next)
    → alloc_write_buf bytes p ≡ (p, none)
unfolding alloc_write_buf
alloc_write_buf-refuses bytes p (inl large) =
    let big : ltb write_slot_cap (length bytes) ≡ true = ground (arith, large) in rw big refl
alloc_write_buf-refuses bytes p (inr full) =
    let none_left : leb write_slots p.next ≡ true = ground (arith, full) in
    if_both (λ r. r ≡ (p, none)) (ltb write_slot_cap (length bytes)) refl (rw none_left refl)
