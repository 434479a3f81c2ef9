-- ===== src/Wasm/Interp/Step/Division.antt =====
-- i32.div_s and i32.rem_s, from the opcode to the result on the stack.
use wasm_os.Base.{ℕ, ◌+◌, ◌-◌, ◌*◌, ◌<◌, not, set, ◌≡◌, ◌⊎◌}
use wasm_os.Wasm.Interp.State.{Interpreter}
use wasm_os.Wasm.Interp.Num.{magnitude, is_negative, same_sign}

-- The state with both operands replaced by the result.
abbrev pub answered : Interpreter → ℕ → Interpreter
answered s v = record s { vstack = set s.vstack (s.vsp - 2) v; vsp = s.vsp - 2 + 1 }

-- Quotient and remainder as truncated division has them.
pub record Divides (a b q r : ℕ) : Type 0 where
  pub whole : magnitude 32 q * magnitude 32 b + magnitude 32 r ≡ magnitude 32 a
  pub small : magnitude 32 r < magnitude 32 b
  pub remainder_sign : (r ≡ 0) ⊎ (is_negative 32 r ≡ is_negative 32 a)
  pub quotient_sign : (q ≡ 0) ⊎ (is_negative 32 q ≡ not (same_sign 32 a b))
