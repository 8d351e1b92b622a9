-- ===== src/Ipc/Send/Bytes.antt =====
-- The bytes that the copy of a message moves.
use oscourse_project.Base.{ℕ, ◌+◌, ◌-◌, ◌^◌, ◌<◌, ◌≡◌, ◌&&◌, ltb, leb, if◌then◌else◌, refl}
use oscourse_project.Proc.{Kernel}
use oscourse_project.Run.{ok}
use oscourse_project.Segment.{copy}
use oscourse_project.Segment.Laws.{Apart, copy_lem}
use oscourse_project.Ipc.Send.{copy_message, message_size}
use oscourse_project.Ipc.Transfer.{linear, IsFlat, copy_message-ok}

-- What a copy between two linear addresses leaves.
abbrev pub Copied : Kernel → (buffer source : ℕ) → Kernel → Type 0
Copied k buffer source k' =
    ((a : ℕ)
      → k'.mem a
        ≡ (if leb buffer a && ltb a (buffer + 48) then k.mem (source + (a - buffer)) else k.mem a))
    × (k'.table ≡ k.table)

-- The copy of a message between the buffers of two processes ends, makes the receiver's buffer the
-- 48 bytes of the sender's, in order, and changes no other byte and no entry of the table, if the
-- buffers do not overlap and lie below the top of memory and the kernel's own processes have flat
-- segments.
pub copy_message_lem :
    (k : Kernel) (to to_va from from_va : ℕ)
    → IsFlat k.table
    → to_va < 2 ^ 32
    → from_va < 2 ^ 32
    → linear k.table to to_va + 48 < 2 ^ 32
    → linear k.table from from_va + 48 < 2 ^ 32
    → Apart (linear k.table to to_va) (linear k.table from from_va) 48
    → (k' : Kernel) × (copy_message to to_va from from_va k ≡ ok tt k')
      × Copied k (linear k.table to to_va) (linear k.table from from_va) k'
copy_message_lem k to to_va from from_va flat h h' g g' apart = (
  record k {
    mem = copy message_size (linear k.table to to_va) (linear k.table from from_va) k.mem;
  },
  copy_message-ok k flat to to_va from from_va h h',
  (
    (λ a.
        copy_lem message_size (linear k.table to to_va) (linear k.table from from_va) k.mem a g g'
          apart),
    refl,
  ),
)
