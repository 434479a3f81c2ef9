-- ===== src/Net/Arp/Laws.antt =====
-- What the cache answers after an insertion.
use wasm_os.Base.{
  ℕ, zero, suc, ◌<◌, Bool, true, false, List, [], ◌∷◌, Option, none, some, set, length,
  bytes_eq_refl, get_or-set_self, ◌≡◌, ◌⊎◌, inl, inr, refl, ap, arith, Option-cases,
}
use wasm_os.Net.Arp.{ArpCache, find_ip, find_free, lookup, insert, insert_at}

-- Where the first free entry gets the address, and no valid entry had it, the search finds it there.
find_ip-filled :
    (valid : List Bool) (ips : List (List ℕ)) (ip : List ℕ) (j : ℕ)
    → length ips ≡ length valid
    → find_ip valid ips ip ≡ none
    → find_free valid ≡ some j
    → find_ip (set valid j true) (set ips j ip) ip ≡ some j
unfolding find_ip find_free
find_ip-filled [] ips ip j e h k = ground arith
find_ip-filled (v ∷ valid) [] ip j e h k = absurd (omega arith)
find_ip-filled (false ∷ valid) (x ∷ ips) ip zero e h k = rw (bytes_eq_refl ip) refl
find_ip-filled (false ∷ valid) (x ∷ ips) ip (suc j) e h k = ground arith
find_ip-filled (true ∷ valid) (x ∷ ips) ip zero e h k = elim (Option-cases (find_free valid)) [
  | inl n ↦ ground arith
  | inr (i, n) ↦ ground arith
]
find_ip-filled (true ∷ valid) (x ∷ ips) ip (suc j) e h k =
    ground (arith, find_ip-filled valid ips ip j)

find_ip-lt :
    (valid : List Bool) (ips : List (List ℕ)) (ip : List ℕ) (i : ℕ)
    → find_ip valid ips ip ≡ some i
    → i < length ips
unfolding find_ip
find_ip-lt [] ips ip i h = ground arith
find_ip-lt (v ∷ valid) [] ip i h = ground arith
find_ip-lt (v ∷ valid) (x ∷ ips) ip zero h = omega arith
find_ip-lt (v ∷ valid) (x ∷ ips) ip (suc i) h = ground (arith, find_ip-lt valid ips ip i)

find_free-lt : (valid : List Bool) (j : ℕ) → find_free valid ≡ some j → j < length valid
unfolding find_free
find_free-lt [] j h = ground arith
find_free-lt (false ∷ valid) zero h = omega arith
find_free-lt (false ∷ valid) (suc j) h = ground arith
find_free-lt (true ∷ valid) zero h = omega arith
find_free-lt (true ∷ valid) (suc j) h = ground (arith, find_free-lt valid j)

pub record IsCache (c : ArpCache) : Type 0 where
  pub ips_size : length c.ips ≡ length c.valid
  pub macs_size : length c.macs ≡ length c.valid

-- What an insertion at a place in use, or at a free one, leaves to the lookup.
lookup-insert_at :
    (c : ArpCache) (ip mac : List ℕ) (found free : Option ℕ)
    → IsCache c
    → find_ip c.valid c.ips ip ≡ found
    → find_free c.valid ≡ free
    → ((i : ℕ) × (found ≡ some i)) ⊎ ((j : ℕ) × (free ≡ some j))
    → lookup (insert_at found free ip mac c) ip ≡ some mac
unfolding lookup insert_at
lookup-insert_at c ip mac (some i) free h e f room =
    rw (lookup, e)
      (ap some (
        get_or-set_self c.macs i mac []
          (omega (arith, find_ip-lt c.valid c.ips ip i e, h.ips_size, h.macs_size))))
lookup-insert_at c ip mac none (some j) h e f room =
    rw (lookup, find_ip-filled c.valid c.ips ip j h.ips_size e f)
      (ap some
        (get_or-set_self c.macs j mac [] (omega (arith, find_free-lt c.valid j f, h.macs_size))))
lookup-insert_at c ip mac none none h e f room = elim room [
  | inl (i, x) ↦ ground arith
  | inr (j, x) ↦ ground arith
]

-- In a cache whose arrays have one length, where the address has an entry or an entry is free, the
-- lookup of the address after its insertion answers the hardware address inserted last.
pub lookup-insert :
    (c : ArpCache) (ip mac : List ℕ)
    → IsCache c
    → ((i : ℕ) × (find_ip c.valid c.ips ip ≡ some i)) ⊎ ((j : ℕ) × (find_free c.valid ≡ some j))
    → lookup (insert c ip mac) ip ≡ some mac
unfolding insert
lookup-insert c ip mac h room =
    lookup-insert_at c ip mac (find_ip c.valid c.ips ip) (find_free c.valid) h refl refl room
