-- ===== src/Wasm/Engine/Host.antt =====
-- What the host functions of kernel/src/wasm/engine.rs share: the kernel's state behind them, their
-- arguments and results on the value stack, and the functions that need no more. An i64 is its bit
-- pattern. `none` is a panic.
use wasm_os.Base.{
  ℕ, zero, suc, ◌+◌, ◌-◌, ◌/◌, ◌%◌, ◌^◌, min, Bool, ◌||◌, List, [], ◌∷◌, ◌++◌, Option, none, some,
  if◌then◌else◌, ltb, leb, ◌==◌, length, get_or, set, slice, overwrite, take,
}
use wasm_os.Base.Opt.{◌>>=◌}
use wasm_os.Wasm.Interp.State.{
  InterpError, stack_underflow, stack_overflow, stack_depth, yielded, exited,
}
use wasm_os.Fs.Table.{FileTable}
use wasm_os.Fs.Arena.{WritePool}
use wasm_os.Net.Stack.State.{NetworkStack}

-- `fat_writes` are the files handed to the FAT volume and `printed` the bytes sent to the console,
-- oldest first. The clock and the count of opcodes are read only.
pub record Kernel : Type 0 where
  pub files : FileTable
  pub pool : WritePool
  pub fat_writes : List (List ℕ × List ℕ)
  pub args : List ℕ
  pub pending_sleep_ms : ℕ
  pub printed : List ℕ
  pub network : Option NetworkStack
  pub uptime_ms : ℕ
  pub opcount : ℕ

abbrev pub args_cap : ℕ
args_cap = 128

unfoldable pub set_args : List ℕ → Kernel → Kernel
set_args args k = record k { args = take (min (length args) args_cap) args }

unfoldable pub take_pending_sleep_ms : Kernel → Kernel × ℕ
take_pending_sleep_ms k = (record k { pending_sleep_ms = 0 }, k.pending_sleep_ms)

-- A call: the kernel, and the three arguments that a host function may change.
pub record Call : Type 0 where
  pub kernel : Kernel
  pub vstack : List ℕ
  pub vsp : ℕ
  pub mem : List ℕ

abbrev pub Outcome : Type 0
Outcome = Option (Call × Option InterpError)

abbrev pub done : Call → Outcome
done c = some (c, none)

-- `vstack[*vsp - k]`
abbrev pub arg : Call → ℕ → ℕ
arg c k = get_or c.vstack (c.vsp - k) 0

abbrev pub pop : ℕ → Call → Call
pop k c = record c { vsp = c.vsp - k }

-- `if *vsp < k { return Err(StackUnderflow) }`, and then the rest with the arguments popped.
abbrev pub with_args : ℕ → Call → Outcome → Outcome
with_args k c rest = if ltb c.vsp k then some (c, some stack_underflow) else rest

-- `vstack[*vsp] = v; *vsp += 1; Ok(())`
abbrev pub push : ℕ → Call → Outcome
push v c =
    if leb stack_depth c.vsp
    then none
    else done (record c { vstack = set c.vstack c.vsp v; vsp = c.vsp + 1 })

-- `if *vsp >= STACK_DEPTH { return Err(StackOverflow) }` before a push.
abbrev pub push_checked : ℕ → Call → Outcome
push_checked v c = if leb stack_depth c.vsp then some (c, some stack_overflow) else push v c

abbrev pub minus_one : ℕ
minus_one = 2 ^ 64 - 1

abbrev pub saturating_add : ℕ → ℕ → ℕ
saturating_add a b = min (a + b) (2 ^ 64 - 1)

-- `&mem[from..to]`
abbrev pub range : List ℕ → ℕ → ℕ → Option (List ℕ)
range mem from to =
    if ltb to from || ltb (length mem) to then none else some (slice mem from (to - from))

-- `mem[at..at + bytes.len()].copy_from_slice(bytes)`; the sum stays below 2 ^ 64 where it is in range.
abbrev pub copy_into : List ℕ → ℕ → List ℕ → Option (List ℕ)
copy_into mem at bytes =
    if ltb (length mem) (at + length bytes) then none else some (overwrite mem at bytes)

abbrev pub print : List ℕ → Call → Call
print bytes c = record c { kernel = record c.kernel { printed = c.kernel.printed ++ bytes } }

module _ (is_utf8 : List ℕ → Bool) where
  unfoldable pub host_print : Call → Outcome
  host_print c = with_args 2 c (
      let len = arg c 1 in
      let ptr = arg c 2 in
      let stop = min (saturating_add ptr len) (length c.mem) in
      range c.mem ptr stop >>= λ s. done (if is_utf8 s then print s (pop 2 c) else pop 2 c))

  unfoldable pub host_print_char : Call → Outcome
  host_print_char c = with_args 1 c (
      let b = arg c 1 % 256 in
      done (if is_utf8 (b ∷ []) then print (b ∷ []) (pop 1 c) else pop 1 c))

-- The digits of `val`, lowest in front of those already written.
unfoldable pub decimal : ℕ → ℕ → List ℕ → List ℕ
decimal zero val done = done
decimal (suc rounds) val done =
    if val == 0 then done else decimal rounds (val / 10) ((48 + val % 10) ∷ done)

-- The text of a signed number of `w` bits, with room for so many digits.
unfoldable pub fmt_signed : ℕ → ℕ → ℕ → List ℕ
unfolding decimal
fmt_signed w digits n =
    if n == 0
    then 48 ∷ 10 ∷ []
    else if leb (2 ^ (w - 1)) n
    then 45 ∷ decimal digits (2 ^ w - n) (10 ∷ [])
    else decimal digits n (10 ∷ [])

unfoldable pub fmt_i32 : ℕ → List ℕ
fmt_i32 n = fmt_signed 32 10 n

unfoldable pub fmt_i64 : ℕ → List ℕ
fmt_i64 n = fmt_signed 64 19 n

-- `HEX[digit]`
abbrev pub hex_upper : ℕ → ℕ
hex_upper d = if ltb d 10 then 48 + d else 55 + d

-- `rounds` digits of `n`, the highest first.
unfoldable pub hex_digits : ℕ → ℕ → List ℕ → List ℕ
hex_digits zero n done = done
hex_digits (suc rounds) n done = hex_digits rounds (n / 16) (hex_upper (n % 16) ∷ done)

unfoldable pub fmt_hex : ℕ → List ℕ
fmt_hex n = 48 ∷ 120 ∷ hex_digits 8 n (10 ∷ [])

unfoldable pub host_print_int : Call → Outcome
host_print_int c = with_args 1 c (done (print (fmt_i32 (arg c 1 % 2 ^ 32)) (pop 1 c)))

unfoldable pub host_print_i64 : Call → Outcome
host_print_i64 c = with_args 1 c (done (print (fmt_i64 (arg c 1)) (pop 1 c)))

unfoldable pub host_print_hex : Call → Outcome
host_print_hex c = with_args 1 c (done (print (fmt_hex (arg c 1 % 2 ^ 32)) (pop 1 c)))

unfoldable pub host_yield : Call → Outcome
host_yield c = some (c, some yielded)

unfoldable pub host_sleep_ms : Call → Outcome
host_sleep_ms c = with_args 1 c (
    let ms = arg c 1 % 2 ^ 32 in
    some (
      record (pop 1 c) {
        kernel = record c.kernel { pending_sleep_ms = if leb (2 ^ 31) ms then 0 else ms };
      },
      some yielded,
    ))

unfoldable pub host_uptime_ms : Call → Outcome
host_uptime_ms c = push_checked (min c.kernel.uptime_ms (2 ^ 31 - 1)) c

unfoldable pub host_wasm_opcount : Call → Outcome
host_wasm_opcount c = push_checked c.kernel.opcount c

unfoldable pub host_exit : Call → Outcome
host_exit c = with_args 1 c (some (pop 1 c, some exited))
