-- ===== src/Net/Stack.antt =====
-- The stack that joins the protocols: kernel/src/drivers/netstack/mod.rs. The state and the sending
-- functions, the handlers of received frames, the interface to the programs.
pub mod State
pub mod Send
pub mod Receive
pub mod Valid
pub mod Total
pub mod Frames
pub mod Api
pub mod Ports
pub mod Calls
pub mod UdpCalls
pub mod Session
pub mod Delivery
pub mod Accept
mod Tests
pub mod UdpApi
