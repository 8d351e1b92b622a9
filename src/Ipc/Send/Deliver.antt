-- ===== src/Ipc/Send/Deliver.antt =====
-- `msg_send` where the receiver waits: the message is copied and the receiver runs again.
use oscourse_project.Base.{ℕ, ◌^◌, ◌<◌, ◌≡◌, ◌≢◌, arith, clear_flag}
use oscourse_project.Proc.{Table, Kernel, write, receiving, no_task}
use oscourse_project.Run.{ok}
use oscourse_project.Segment.{copy}
use oscourse_project.Ipc.Send.{deliver, received, message_size}
use oscourse_project.Ipc.Transfer.{linear, IsFlat, copy_message-ok}

-- Entry `i` takes part in no message.
abbrev pub IsIdle : Table → ℕ → Type 0
IsIdle t i =
    ((t i).p_flags ≡ 0)
    × ((t i).p_msg ≡ 0)
    × ((t i).p_recvfrom ≡ no_task)
    × ((t i).p_sendto ≡ no_task)

-- Entry `i` waits for a message, and for nothing else.
abbrev pub IsAwaiting : Table → ℕ → Type 0
IsAwaiting t i = ((t i).p_flags ≡ receiving) × ((t i).p_msg ≢ 0) × ((t i).p_sendto ≡ no_task)

-- The kernel after the message at `m` of `sender` has been given to `dest`.
unfoldable pub delivered : Kernel → (sender dest m : ℕ) → Kernel
unfolding received
delivered k sender dest m = record k {
  mem =
      copy message_size (linear k.table dest (k.table dest).p_msg) (linear k.table sender m) k.mem;
  table = write k.table dest (received (k.table dest));
}

pub deliver-ok :
    (k : Kernel) (sender dest m : ℕ)
    → IsFlat k.table
    → sender ≢ dest
    → IsIdle k.table sender
    → IsAwaiting k.table dest
    → (k.table dest).p_msg < 2 ^ 32
    → m ≢ 0
    → m < 2 ^ 32
    → deliver sender dest m k ≡ ok tt (delivered k sender dest m)
unfolding deliver delivered write clear_flag
deliver-ok k sender dest m flat ne idle (f, p, s) small nz small' =
    ground (arith, copy_message-ok k flat dest (k.table dest).p_msg sender m)
