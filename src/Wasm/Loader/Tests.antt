-- ===== src/Wasm/Loader/Tests.antt =====
-- Runs of the loader, and the theorems at concrete binaries.
use wasm_os.Base.{◌++◌, ◌≡◌, refl}
use wasm_os.Wasm.Loader.{rejected, bad_version, load, magic}

refuses_version : load (magic ++ magic) ≡ rejected bad_version
unfolding load
refuses_version = refl
