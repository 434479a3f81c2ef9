-- ===== src/Lib.antt =====
-- A model of the wasm-os kernel: its WebAssembly runtime, its network stack, the files in its memory,
-- its line editor and its assembler.
--
-- The kernel runs WebAssembly modules on bare metal. `kernel/src/wasm/loader.rs` splits a binary into
-- sections; `kernel/src/wasm/interp.rs` decodes the sections into an `Interpreter` and executes
-- function bodies on an array of 64-bit values, with a stack of call frames, a stack of control labels
-- and one slice of linear memory. `kernel/src/wasm/engine.rs` owns the memory and the host functions
-- that the interpreter calls; `wasm/task.rs` and `scheduler.rs` start and resume them in turn. Programs
-- reach the network through host functions that call `drivers/netstack/mod.rs`, which the scheduler
-- feeds the frames of the network card; it joins Ethernet, ARP, IPv4, UDP, TCP and a DHCP client. They
-- find their bytes in the table of `fs/mod.rs`. The shell reads lines by an editor that is fed decoded
-- keys; its assembler `shell/commands/asm.rs` makes binaries of a text format. All of it allocates from
-- one bump allocator.
--
-- Files, with the paths of the code below kernel/src:
--   Base          lists with native indices (Lists), Boolean tests (Tests), machine words (Bits), `?`
--                 on options (Opt), a cursor's place in a buffer (Cursor)
--   Wasm/Leb      read_u32_leb128 of wasm/loader.rs; read_i32_leb128, read_i64_leb128 and skip_leb128
--                 of wasm/interp.rs. Spec describes the encoding without the code.
--   Wasm/Loader   load, find_export and read_memory_min_pages of wasm/loader.rs. A slice `bytes[cur..]`
--                 is the list of the bytes left.
--   Wasm/Interp   wasm/interp.rs:
--     State       the struct `Interpreter`, its constants, its errors, the stacks' helpers, and the
--                 monad of functions that return a `Result` and write to `self`
--     Scan        scan_block_end
--     Jumps       jump_hash, jump_insert, jump_lookup, pre_scan_body_jumps
--     Num         the integer instructions, one table of opcodes for each group of arms of the match
--     Control     push_frame, do_return, do_br, and the arms on blocks, branches and calls
--     Mem         the arms on linear memory
--     Step        the other arms, the dispatch on the opcode, and run, call and resume
--     Valid       what a well-formed interpreter is, and the rules by which a function keeps it
--   Wasm/Sections the section parsers of interp.rs: types, functions, code and imports, and in Contents
--                 elements and globals. A cursor that passes the end panics at the next slice.
--   Wasm/Instance Interpreter::new
--   Wasm/Task     wasm/task.rs and run_next_task of scheduler.rs, on an interface `Engine` for the
--                 operations of wasm/engine.rs that tasks use and the timer's ticks
--   Wasm/Engine   wasm/engine.rs: what the host functions share and those that print, sleep and exit
--                 (Host), those on files and arguments (Files) and on the network (Net), and the walks
--                 over the data and the import section, with for_each_func_import of wasm/loader.rs
--                 (Memory). Answers is about what calls keep, Stored about fs_write.
--   Net/Bytes     numbers in network byte order
--   Net/Ethernet, Net/Arp, Net/Ip, Net/Udp, Net/Tcp, Net/Dhcp
--                 the files of these names in drivers/netstack. Arp.Packet and Tcp.Packet are the formats,
--                 Arp the cache, Tcp the socket, and Dhcp the client with its packets.
--   Net/Stack     drivers/netstack/mod.rs: the struct `NetworkStack` (State), its sending functions
--                 (Send), the handlers of received frames (Receive), and the functions behind the host
--                 calls (Api, UdpApi)
--   Shell/Keys    drivers/keyboard.rs and the decoding of drivers/serial.rs
--   Shell/Editor  shell/command_line_editor.rs
--   Shell/Asm     the modules that the parser of shell/commands/asm.rs hands to the emitter. Emit is
--                 WasmEmitter with compress_locals; Strings is unescape_wat_string. Leb, Sections,
--                 Imports, Code, Locals, Data and Names treat what it writes part by part, as the runtime
--                 reads it; Binary and Instance are about the whole binary.
--   Fs/Table      the table of files in fs/mod.rs
--   Fs/Arena      the static buffers of fs/mod.rs and the heap of memory/allocator.rs
--   Fs/Block      fs/block.rs: the trait `BlockDevice` as an interface, and the ramdisk
--   Fs/Cache      the write-back cache BlockIo of fs/fat.rs, over any block device
--   Any other module holds proofs about the one above it, or Tests: runs of the code and the theorems
--   at concrete inputs. Those of Net/Stack: Valid says what a well-formed stack is; Total, Frames, Calls
--   and UdpCalls treat its operations one by one and Session sequences of them; Delivery follows a
--   segment from one stack to another; Accept and Ports are about tcp_accept and the choice of a port.
--
-- A Rust array is a list of the array's length, a byte a number, an address the list of its bytes. A
-- word is a number below 2 ^ 32 or 2 ^ 64 with the wrap-around written out, an i64 on the stack its
-- bit pattern; a string is the list of its bytes in UTF-8. In the runtime a function that can fail
-- returns `ok` or `err` with the state it leaves; `panic` is an index out of range or, as in the
-- debug profile, an overflow, and `hang` is a loop that never ends. Where the heap of
-- memory/allocator.rs, which never frees, is exhausted, the code panics; an allocation is taken to
-- succeed here, and every theorem is about runs in which each one does. Elsewhere a panic is `none`,
-- outside the option that the code itself answers. What a host function does is a field of the
-- state, `host_fns`, a function on the stack and the memory. `active_mem` is the local variable of
-- `run` that caches the memory size. The network card is the list of the frames handed to net_send.
-- Parameters are the UTF-8 test of Rust's core library, the fatfs library's part in writing a file,
-- the port reads, and floating-point arithmetic: `FloatOps`, functions on bit patterns, and `widen`,
-- the conversion of an f32 to an f64. The host functions of Wasm/Engine are on the kernel's state
-- and a call's stack and memory.
--
-- Bounds: the loop of `run` has no bound in the code; `run_loop` has a number of rounds, and
-- `out_of_fuel` is a run that has not ended in it. The scan and the section loop get as many rounds as
-- there are bytes, and each round consumes one. The lookup probes each of the 4096 slots once; a
-- lookup that has seen all of them without success never ends in the code. A checksum is folded at most
-- three times, which is enough for the words of a packet. The walk over the DHCP options gets one round
-- more than there are bytes, the search for a free port one more than there are sockets, and the loops
-- of the block cache one for each byte, since a round moves at least one. The assembler writes a 32-bit
-- number in at most five rounds.
--
-- Not modelled: the just-in-time compiler and the shadow frame, which are behind the features
-- kernel_jit, on by default, and jit_shadow; the failure of an allocation, outside the allocator
-- itself; the registry and the pool of instances of wasm/engine.rs, and its host functions for keys
-- and the frame buffer, which are device access; the rest of the FAT adapter (fs/fat.rs), the older
-- file system fs/wasmfs.rs and load_fat_files_to_table, which fills the table at boot; the
-- assembler's tokenizer and parser; the shell's loop and its other commands; page tables, the
-- virtio, screen, timer and interrupt code, which work by ports and mapped memory; and what the
-- shell and the drivers print.
pub mod Base
pub mod Wasm
pub mod Net
pub mod Shell
pub mod Fs
