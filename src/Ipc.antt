-- ===== src/Ipc.antt =====
-- kernel/proc.c: messages between processes. A process that sends to one which does not wait for it
-- is appended to that process's queue; one that receives what nobody sends is blocked.
pub mod Deadlock
pub mod Chain
pub mod Find
pub mod Walk
pub mod Acyclic
pub mod Invariant
pub mod Revise
pub mod Transfer
pub mod Send
pub mod Receive
pub mod Call
pub mod Clock
mod Examples
