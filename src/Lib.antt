-- ===== src/Lib.antt =====
-- The Nitro Secure Module API (the crates nsm-io, nsm-driver and nsm-lib, and the test programs of
-- nsm-test). A client builds a request, the driver encodes it as CBOR and hands it to the device
-- /dev/nsm by one ioctl, decodes the response, and the C library copies the response into buffers
-- of a C caller.
--
-- NsmIo.antt and its children model nsm-io/src/lib.rs: Request, Response, ErrorCode, Digest,
-- AttestationDoc with new, to_binary and from_binary (NsmIo/Document.antt). BTreeMap and BTreeSet
-- of the standard library are their entries in the order of iteration (NsmIo/BTree.antt). ByteBuf
-- of serde_bytes is a type parameter with its conversion, and serde_cbor is the record Cbor.
--
-- Driver.antt models nsm-driver/src/lib.rs: nsm_process_request with its helpers, nsm_init and
-- nsm_exit. The operating system (ioctl, errno, open, close, the ioctl code and the size of the
-- message) is the record Os over a state K of the kernel. IoVec is a pair of the memory pointed to
-- and a length. Driver/Api.antt is the interface that the clients take: the three functions, and
-- the law that each request is answered; Driver/Answers.antt fills it. Driver/Refinement.antt
-- relates a driver to the device behind it, and Driver/Session.antt follows the descriptor from
-- nsm_init to nsm_exit.
--
-- NsmLib.antt, NsmLib/Raw.antt and NsmLib/Description.antt model nsm-lib/src/lib.rs: every exported
-- function, the raw-pointer helpers and the description. NsmLib/Calls.antt is a call as a value,
-- and NsmLib/Clients.antt, NsmLib/Session.antt, NsmLib/Sequences.antt and NsmLib/Ranges.antt prove
-- what a C program may rely on that makes several calls. The other files below NsmLib prove the
-- properties of the single functions.
--
-- Machine.antt is what a call runs in: a world of kernel state, memory of the C caller and log
-- lines, and an outcome that is a value, a panic, or a fault. A fault is undefined behaviour: an
-- access to memory that is not mapped, or past a slice. Machine/Memory.antt is memory by addresses
-- with 0 as the null pointer. Base.antt passes on the names that all files share.
--
-- Numbers: a u8, u16, u32, u64 or usize is a natural number; casts to u32 are written out as
-- remainders by 2 ^ 32, and a usize is taken to hold any u32. No loop needs fuel: each is a
-- recursion on a list or a count. A mutable C reference is passed as its value and returned with
-- the result, which is faithful since Rust takes it to be valid and not aliased; what a panic
-- leaves in such a variable is not modelled. The raw-pointer helpers are modelled at u8, the one
-- type at which the crate calls them; the source of a copy is memory of Rust, which the caller's
-- pointers do not reach. The texts of panics and log lines are left out.
--
-- Check.antt and the definitions in Check/Pcrs.antt, Check/Locks.antt and Check/Services.antt model
-- nsm-test/src/bin/nsm-check.rs over any driver; Check/Asserts.antt holds its assertions.
-- Check/Protocol.antt states what the device behind a driver must do with PCRs, Check/Serving.antt
-- what it must do besides, as reporting the PCRs that are locked at the time, and the other files
-- below Check prove the checks against it: Check/Whole.antt main on a device that does all this,
-- Check/Detecting.antt main on one that is not ready, Check/Sampling.antt the attestations and
-- random bytes on any driver. The overflow of its u16 counter is the panic of a debug build; a
-- release build, as cargo install in Dockerfiles/Dockerfile.test makes it, wraps instead. The
-- theorems are about at most 2 ^ 16 - 2 PCRs, where the two do not differ.
--
-- Stress.antt models the jobs of nsm-test/src/bin/nsm-multithread.rs as programs, trees of requests
-- and accesses to the exit code; Stress/Pool.antt is main, the opening of the device as a command
-- and the rest as a relation of single steps, in which the loop, the threads of the pool and the
-- signal take turns in any order. threadpool, std::sync and signal_hook are in that relation as
-- what they do to the state. Stress/Alone.antt runs a job alone. The other files below Stress prove
-- what holds over all orders: of the exit code (Jobs, ExitCode, Settled), of how long main may
-- still run (Within, Bounded), of the device's PCRs (Harmless, Kept) and of the descriptor
-- (Session).
--
-- Stack.antt puts nsm-check.rs on nsm-driver on a device. Build.antt models nsm-lib/build.rs with
-- cbindgen and the environment as parameters; a path is the list of its components.
--
-- Not modelled: nsm-test/src/main.cc (a C++ client of the C library, outside the Rust crates), the
-- text of the C header, which is cbindgen's, and what the test programs print.
mod Base
pub mod Machine
pub mod NsmIo
pub mod Driver
pub mod NsmLib
pub mod Check
pub mod Stress
pub mod Stack
pub mod Build
mod Examples
