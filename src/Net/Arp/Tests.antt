-- ===== src/Net/Arp/Tests.antt =====
-- A cache with its first address.
use wasm_os.Base.{some, ◌≡◌, refl}
use wasm_os.Net.Arp.{new_cache, find_free}

first_free : find_free new_cache.valid ≡ some 0
unfolding find_free
first_free = refl
