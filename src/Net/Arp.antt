-- ===== src/Net/Arp.antt =====
-- The cache of kernel/src/drivers/netstack/arp.rs: three arrays with the same index. An address is
-- its list of bytes.
pub mod Packet
pub mod Laws
mod Tests
use mathlib.Core.Option
use wasm_os.Base.{
  ℕ, zero, suc, Bool, true, false, ◌&&◌, List, [], ◌∷◌, Option, none, some, if◌then◌else◌, get_or,
  set, replicate, bytes_eq,
}

abbrev pub max_arp_entries : ℕ
max_arp_entries = 16

pub record ArpCache : Type 0 where
  pub ips : List (List ℕ)
  pub macs : List (List ℕ)
  pub valid : List Bool

abbrev pub new_cache : ArpCache
new_cache = record {
  ips = replicate max_arp_entries (replicate 4 0);
  macs = replicate max_arp_entries (replicate 6 0);
  valid = replicate max_arp_entries false;
}

-- The first valid entry for an address.
unfoldable pub find_ip : List Bool → List (List ℕ) → List ℕ → Option ℕ
find_ip [] ips ip = none
find_ip (v ∷ valid) [] ip = none
find_ip (v ∷ valid) (x ∷ ips) ip =
    let further = find_ip valid ips ip in
    if v && bytes_eq x ip then some 0 else Option.map suc further

-- The first entry that is not in use.
unfoldable pub find_free : List Bool → Option ℕ
find_free [] = none
find_free (true ∷ valid) = Option.map suc (find_free valid)
find_free (false ∷ valid) = some 0

unfoldable pub lookup : ArpCache → List ℕ → Option (List ℕ)
unfolding find_ip
lookup c ip = Option.map (λ i. get_or c.macs i []) (find_ip c.valid c.ips ip)

-- A full cache drops a new address.
unfoldable pub insert_at : Option ℕ → Option ℕ → List ℕ → List ℕ → ArpCache → ArpCache
insert_at (some i) free ip mac c = record c { macs = set c.macs i mac }
insert_at none (some j) ip mac c = record {
  ips = set c.ips j ip;
  macs = set c.macs j mac;
  valid = set c.valid j true;
}
insert_at none none ip mac c = c

unfoldable pub insert : ArpCache → List ℕ → List ℕ → ArpCache
unfolding find_free insert_at find_ip
insert c ip mac = insert_at (find_ip c.valid c.ips ip) (find_free c.valid) ip mac c
