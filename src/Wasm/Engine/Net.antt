-- ===== src/Wasm/Engine/Net.antt =====
-- The host functions on the network in kernel/src/wasm/engine.rs. `none` is a panic.
use wasm_os.Base.{
  ℕ, ◌%◌, ◌^◌, min, Bool, false, List, Option, none, some, if◌then◌else◌, length, overwrite,
}
use wasm_os.Base.Opt.{◌>>=◌}
use wasm_os.Net.Ip.{from_u32}
use wasm_os.Net.Stack.State.{NetworkStack}
use wasm_os.Net.Stack.Api.{
  tcp_listen, tcp_connect, tcp_send, tcp_recv, tcp_close, set_ip, tcp_accept, tcp_status, get_ip,
}
use wasm_os.Net.Stack.UdpApi.{udp_bind, udp_connect, udp_send, udp_recv, udp_close}
use wasm_os.Wasm.Engine.Host.{
  Kernel, Call, Outcome, arg, pop, with_args, push, push_checked, minus_one, saturating_add, range,
}

-- with_network with the value for a kernel without a stack; `f` may panic.
unfoldable pub with_network :
    {A : Type 0} → (NetworkStack → Option (NetworkStack × A)) → A → Kernel → Option (Kernel × A)
with_network f otherwise k = elim k.network [
  | none ↦ some (k, otherwise)
  | some s ↦ f s >>= λ r. some (record k { network = some r.0 }, r.1)
]

-- The arguments popped, the function run on the network, its answer pushed.
unfoldable pub network_call :
    {A : Type 0} → (NetworkStack → Option (NetworkStack × A)) → A → (A → ℕ) → Call → Outcome
unfolding with_network
network_call f otherwise value c =
    with_network f otherwise c.kernel >>= λ r. push (value r.1) (record c { kernel = r.0 })

-- `Some(idx) => idx as i64, None => -1i64`, and the same for `Ok(n)`.
unfoldable pub handle_or : Option ℕ → ℕ
handle_or none = minus_one
handle_or (some i) = i

unfoldable pub zero_or : Bool → ℕ
zero_or ok = if ok then 0 else minus_one

unfoldable pub host_net_listen : Call → Outcome
unfolding network_call handle_or
host_net_listen c = with_args 1 c (
    let port = arg c 1 % 2 ^ 16 in
    network_call (λ s. some (tcp_listen port s)) none handle_or (pop 1 c))

unfoldable pub host_net_connect : Call → Outcome
unfolding network_call handle_or
host_net_connect c = with_args 2 c (
    let port = arg c 1 % 2 ^ 16 in
    let ip = from_u32 (arg c 2 % 2 ^ 32) in
    network_call (tcp_connect ip port) none handle_or (pop 2 c))

unfoldable pub host_net_send : Call → Outcome
unfolding network_call handle_or
host_net_send c = with_args 3 c (
    let len = arg c 1 in
    let ptr = arg c 2 in
    let handle = arg c 3 in
    range c.mem ptr (saturating_add ptr len) >>= λ bytes.
    network_call (tcp_send handle bytes) none handle_or (pop 3 c))

-- The received bytes go where the buffer was.
unfoldable pub receive :
    (NetworkStack → Option (NetworkStack × Option (List ℕ × ℕ))) → ℕ → ℕ → Call → Outcome
unfolding with_network
receive f ptr otherwise c = with_network f none c.kernel >>= λ r. elim r.1 [
  | none ↦ push otherwise (record c { kernel = r.0 })
  | some (buf, n) ↦ push n (record c { kernel = r.0; mem = overwrite c.mem ptr buf })
]

unfoldable pub host_net_recv : Call → Outcome
unfolding receive
host_net_recv c = with_args 3 c (
    let cap = arg c 1 in
    let ptr = arg c 2 in
    let handle = arg c 3 in
    range c.mem ptr (saturating_add ptr cap) >>= λ buf.
    receive (tcp_recv handle buf) ptr minus_one (pop 3 c))

unfoldable pub host_net_close : Call → Outcome
unfolding network_call zero_or
host_net_close c = with_args 1 c (network_call (tcp_close (arg c 1)) false zero_or (pop 1 c))

unfoldable pub host_net_set_ip : Call → Outcome
unfolding network_call
host_net_set_ip c = with_args 1 c (
    let ip = from_u32 (arg c 1 % 2 ^ 32) in
    network_call (λ s. some (set_ip ip s, tt)) tt (λ (_ : Unit {0}). 0) (pop 1 c))

unfoldable pub host_net_accept : Call → Outcome
unfolding network_call handle_or
host_net_accept c = with_args 1 c (network_call (tcp_accept (arg c 1)) none handle_or (pop 1 c))

unfoldable pub host_net_status : Call → Outcome
unfolding network_call
host_net_status c =
    with_args 1 c
      (network_call (λ s. some (s, tcp_status (arg c 1) s)) 0 (λ status. status) (pop 1 c))

unfoldable pub host_net_get_ip : Call → Outcome
unfolding with_network
host_net_get_ip c = with_network (λ s. some (s, get_ip s)) 0 c.kernel >>= λ r.
    push_checked r.1 (record c { kernel = r.0 })

unfoldable pub host_net_udp_bind : Call → Outcome
unfolding network_call handle_or
host_net_udp_bind c = with_args 1 c (
    let port = arg c 1 % 2 ^ 16 in
    network_call (λ s. some (udp_bind port s)) none handle_or (pop 1 c))

unfoldable pub host_net_udp_connect : Call → Outcome
unfolding network_call zero_or
host_net_udp_connect c = with_args 3 c (
    let port = arg c 1 % 2 ^ 16 in
    let ip = from_u32 (arg c 2 % 2 ^ 32) in
    let handle = arg c 3 in
    network_call (λ s. some (udp_connect handle ip port s)) false zero_or (pop 3 c))

unfoldable pub host_net_udp_send : Call → Outcome
unfolding network_call handle_or
host_net_udp_send c = with_args 3 c (
    let len = arg c 1 in
    let ptr = arg c 2 in
    let handle = arg c 3 in
    range c.mem ptr (min (saturating_add ptr len) (length c.mem)) >>= λ bytes.
    network_call (udp_send handle bytes) none handle_or (pop 3 c))

unfoldable pub host_net_udp_recv : Call → Outcome
unfolding receive
host_net_udp_recv c = with_args 3 c (
    let cap = arg c 1 in
    let ptr = arg c 2 in
    let handle = arg c 3 in
    range c.mem ptr (min (saturating_add ptr cap) (length c.mem)) >>= λ buf.
    receive (udp_recv handle buf) ptr 0 (pop 3 c))

unfoldable pub host_net_udp_close : Call → Outcome
unfolding network_call
host_net_udp_close c =
    with_args 1 c
      (network_call (λ s. some (udp_close (arg c 1) s, tt)) tt (λ (_ : Unit {0}). 0) (pop 1 c))
