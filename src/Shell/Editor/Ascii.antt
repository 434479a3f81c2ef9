-- ===== src/Shell/Editor/Ascii.antt =====
-- Lines of ASCII characters, where a byte is a character.
use wasm_os.Base.{
  ℕ, zero, suc, ◌≤◌, ◌<◌, true, false, List, [], ◌∷◌, All, some, ltb, length, ◌≡◌, refl, ap, arith,
}
use wasm_os.Shell.Editor.{utf8, continues, more_bytes, string_insert, string_remove}

abbrev pub IsLine : List ℕ → Type 0
IsLine line = All (λ b. b < 128) line

pub utf8-ascii : (c : ℕ) → c < 128 → utf8 c ≡ c ∷ []
unfolding utf8
utf8-ascii c h = let low : ltb c 0x80 ≡ true = ground (arith, h) in rw low refl

ascii-starts : (b : ℕ) → b < 128 → continues b ≡ false
ascii-starts b h = ground (arith, h)

pub string_insert-first :
    (line : List ℕ) (c : ℕ) → IsLine line → c < 128 → string_insert line 0 c ≡ some (c ∷ line)
unfolding string_insert
string_insert-first [] c h k = ap some (utf8-ascii c k)
string_insert-first (x ∷ xs) c h k = rw (ascii-starts x h.0, utf8-ascii c k) refl

pub string_remove-first : (x : ℕ) (xs : List ℕ) → x < 128 → string_remove (x ∷ xs) 0 ≡ some xs
unfolding string_remove
string_remove-first x xs h =
    let low : more_bytes x ≡ 0 = ground (arith, h) in rw (ascii-starts x h, low) refl

-- An insertion into an ASCII line, at a place in it or at its end.
pub string_insert-total :
    (xs : List ℕ) (i c : ℕ)
    → IsLine xs
    → c < 128
    → i ≤ length xs
    → (ys : List ℕ) × (string_insert xs i c ≡ some ys) × (length ys ≡ suc (length xs)) × IsLine ys
unfolding string_insert
string_insert-total [] zero c a k h = (c ∷ [], string_insert-first [] c a k, refl, (k, tt))
string_insert-total (x ∷ xs) zero c a k h =
    (c ∷ x ∷ xs, string_insert-first (x ∷ xs) c a k, refl, (k, a))
string_insert-total [] (suc i) c a k h = absurd (omega arith)
string_insert-total (x ∷ xs) (suc i) c a k h =
    let (ys, e, len, line) = string_insert-total xs i c a.1 k (omega arith) in
    (x ∷ ys, rw e refl, ap suc len, (a.0, line))

pub string_remove-total :
    (xs : List ℕ) (i : ℕ)
    → IsLine xs
    → i < length xs
    → (ys : List ℕ) × (string_remove xs i ≡ some ys) × (suc (length ys) ≡ length xs) × IsLine ys
unfolding string_remove
string_remove-total [] i a h = absurd (omega arith)
string_remove-total (x ∷ xs) zero a h = (xs, string_remove-first x xs a.0, refl, a.1)
string_remove-total (x ∷ xs) (suc i) a h =
    let (ys, e, len, line) = string_remove-total xs i a.1 (omega arith) in
    (x ∷ ys, rw e refl, ap suc len, (a.0, line))
