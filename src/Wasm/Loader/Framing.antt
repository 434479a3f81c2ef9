-- ===== src/Wasm/Loader/Framing.antt =====
-- The sections that `load` finds: what it accepts, and the binaries that list sections.
use wasm_os.Base.{
  ℕ, zero, suc, ◌+◌, ◌≤◌, ◌<◌, ◌^◌, List, [], ◌∷◌, ◌++◌, length, take, drop, All, length-append,
  length-drop, drop-append, take-append, ◌≡◌, refl, ◌∙◌, arith, Option-cases, inl, inr,
}
use wasm_os.Wasm.Leb.{read_u32_leb128}
use wasm_os.Wasm.Leb.Spec.{encode}
use wasm_os.Wasm.Leb.RoundTrip.{read_u32_leb128-encode}
use wasm_os.Wasm.Loader.{
  Module, empty_module, loaded, store_section, load_loop, load, magic, version,
}

-- A section as a writer emits it: its number, its length, its bytes.
abbrev pub emit : List (ℕ × List ℕ) → List ℕ
emit [] = []
emit ((id, d) ∷ sections) = id ∷ (encode 4 (length d) ++ (d ++ emit sections))

-- The module with each section stored in turn, a later one over an earlier one.
abbrev pub store_all : List (ℕ × List ℕ) → Module → Module
store_all [] m = m
store_all ((id, d) ∷ sections) m = store_all sections (store_section id d m)

load_loop-suc :
    (fuel : ℕ) (id : ℕ) (d rest : List ℕ) (m : Module)
    → length d < 2 ^ 32
    → load_loop (suc fuel) (id ∷ (encode 4 (length d) ++ (d ++ rest))) m
      ≡ load_loop fuel rest (store_section id d m)
unfolding load_loop
load_loop-suc fuel id d rest m h =
    rw
      (
        load_loop,
        read_u32_leb128-encode (length d) (d ++ rest) h,
        drop-append (encode 4 (length d)) (d ++ rest),
        drop-append d rest,
        take-append d rest,
      )
      (let e = length-append d rest in ground (arith, e))

load_loop-emit :
    (fuel : ℕ) (sections : List (ℕ × List ℕ)) (m : Module)
    → All (λ (s : ℕ × List ℕ). length s.1 < 2 ^ 32) sections
    → length (emit sections) ≤ fuel
    → load_loop fuel (emit sections) m ≡ loaded (store_all sections m)
unfolding load_loop
load_loop-emit fuel [] m h k = refl
load_loop-emit zero ((id, d) ∷ sections) m h k = absurd (omega arith)
load_loop-emit (suc fuel) ((id, d) ∷ sections) m h k =
    load_loop-suc fuel id d (emit sections) m h.0
    ∙ load_loop-emit fuel sections (store_section id d m) h.1 (
        omega (
          arith,
          length-append (encode 4 (length d)) (d ++ emit sections),
          length-append d (emit sections),
        ))

-- A binary that lists sections, each shorter than 2 ^ 32 bytes, behind the header loads as the
-- module with each section stored in turn.
pub load-emit :
    (sections : List (ℕ × List ℕ))
    → All (λ (s : ℕ × List ℕ). length s.1 < 2 ^ 32) sections
    → load (magic ++ (version ++ emit sections)) ≡ loaded (store_all sections empty_module)
unfolding load
load-emit sections h =
    ground
      (arith, load_loop-emit (length (magic ++ (version ++ emit sections))) sections empty_module h)

-- A round for each byte left is enough: more change nothing.
load_loop_fuel :
    (fuel extra : ℕ) (bytes : List ℕ) (m : Module)
    → length bytes ≤ fuel
    → load_loop (extra + fuel) bytes m ≡ load_loop fuel bytes m
unfolding load_loop
load_loop_fuel fuel extra [] m h = refl
load_loop_fuel zero extra (id ∷ rest) m h = absurd (omega arith)
load_loop_fuel (suc fuel) extra (id ∷ rest) m h =
    let e : extra + suc fuel ≡ suc (extra + fuel) = omega arith in
    rw e (elim (Option-cases (read_u32_leb128 rest)) [
      | inl r ↦ rw (load_loop, r) refl
      | inr ((size, consumed), r) ↦
          rw
            (
              load_loop,
              r,
              load_loop_fuel fuel extra (drop size (drop consumed rest))
                  (store_section id (take size (drop consumed rest)) m)
                  (omega (arith, length-drop size (drop consumed rest), length-drop consumed rest)),
            )
            refl
    ])
