-- ===== src/Ipc/Examples.antt =====
-- The theorems of the message code at concrete kernels.
use oscourse_project.Base.{
  ℕ, ◌^◌, ◌≡◌, ◌<◌, ◌≤◌, refl, ◌⊎◌, inl, inr, arith, List, [], ◌∷◌, none, has_flag, set_flag,
}
use oscourse_project.Proc.{Kernel, write, free_slot, any}
use oscourse_project.Run.{ok, stop, Stop}
use oscourse_project.Segment.{init_desc, ldt_seg_linear}
use oscourse_project.Schedule.{choose, schedule}
use oscourse_project.Schedule.Choice.{Switched, Untimed, IsBest, schedule_picks, schedule_hangs}
use oscourse_project.Ipc.Call.{clock_handler}
use oscourse_project.Ipc.Clock.{clock_handler_lem}
use oscourse_project.Boot.{Image, kernel_main, zero_descriptor, first_entry, cleared}
use oscourse_project.Boot.Start.{kernel_main-IsIpc}
use oscourse_project.Ipc.Invariant.{IsIpc}
use oscourse_project.Ipc.Walk.{WaitsOn, direct, through, stops}
use oscourse_project.Ipc.Send.{msg_send, blocked_sender}
use oscourse_project.Ipc.Receive.{msg_receive}
use oscourse_project.Ipc.Receive.Total.{MayReceive, Taken, Awaiting, msg_receive_lem}
use oscourse_project.Ipc.Send.Bytes.{copy_message_lem, Copied}
use oscourse_project.Ipc.Send.{copy_message}
use oscourse_project.Ipc.Send.Total.{MaySend, Handed, Queued, msg_send_lem, msg_send_deadlock}
use oscourse_project.Ipc.Send.Enqueue.{queued}
use oscourse_project.Ipc.Send.EnqueueChain.{push}
use oscourse_project.Ipc.Send.EnqueueInvariant.{queued-IsIpc}

abbrev image : Image
image = record {
  flat_c = zero_descriptor;
  flat_rw = zero_descriptor;
  entry = λ i. 0x30400;
  stack_top = 0x100000;
  k_base = 0x1000;
  k_limit = 0x2ffff;
}

-- The kernel when the first process starts.
started : Kernel
started = kernel_main image (λ _. 0)

no_queue : ℕ → List ℕ
no_queue _ = []

started-IsIpc : IsIpc started.table no_queue
unfolding started no_queue
started-IsIpc = kernel_main-IsIpc image (λ _. 0) (unfold ldt_seg_linear in refl)

kernel_main-IsIpc_example : IsIpc (kernel_main image (λ _. 0)).table (λ _. [])
kernel_main-IsIpc_example = kernel_main-IsIpc image (λ _. 0) (unfold ldt_seg_linear in refl)

schedule_picks_example : (k' : Kernel) × (schedule started ≡ ok tt k') × Switched started k'
unfolding started kernel_main first_entry
schedule_picks_example = schedule_picks started 0 (omega arith, refl) (omega arith, omega arith)

clock_handler_lem_example :
    (k' : Kernel) × (clock_handler started ≡ ok tt k')
    × ((j : ℕ) → Untimed (k'.table j) (started.table j))
    × ((1 < (started.table started.ready).ticks)
          × ((started.table started.ready).ticks < 2 ^ 31)
          × (k'.ready ≡ started.ready)
        ⊎ (((started.table started.ready).ticks ≤ 1)
            ⊎ (2 ^ 31 < (started.table started.ready).ticks))
          × IsBest k'.table k'.ready)
unfolding started kernel_main first_entry
clock_handler_lem_example =
    clock_handler_lem started 0 refl refl (λ e. omega (arith, e)) (omega arith, refl)
      (omega arith, omega arith)

-- INIT sends to MM, which does not wait.
init-MaySend : MaySend started 5 4 0x100
unfolding started kernel_main first_entry
init-MaySend = record {
  sender_in = omega arith;
  dest_in = omega arith;
  other = omega arith;
  idle = (refl, refl, refl, refl);
  message = omega arith;
  pointer = omega arith;
  only_messages = λ e. unfold has_flag in cc e;
}

mm_not_waiting : ¬ WaitsOn started.table 5 4
unfolding started kernel_main first_entry has_flag
mm_not_waiting (direct s e) = cc s
mm_not_waiting (through s e w) = cc s

msg_send_lem_example :
    (k' : Kernel) × (msg_send 5 4 0x100 started ≡ ok 0 k')
    × (Handed started no_queue 5 4 0x100 k' ⊎ Queued started no_queue 5 4 0x100 k')
unfolding started kernel_main first_entry
msg_send_lem_example =
    msg_send_lem started started-IsIpc 5 4 0x100 init-MaySend mm_not_waiting 0 (omega arith, refl)
      (omega arith) (omega arith)

-- MM waits to send to INIT.
crossed : Kernel
unfolding started
crossed = record started { table = queued started.table 4 5 0x100 (no_queue 5) }

crossed-IsIpc : IsIpc crossed.table (push no_queue 5 4)
unfolding crossed started kernel_main first_entry has_flag
crossed-IsIpc =
    queued-IsIpc started-IsIpc 4 5 0x100 (omega arith) (omega arith) refl (omega arith) (5 ∷ [])
      refl (omega arith) (omega arith) refl (stops (omega arith) refl) refl

crossed_waits : WaitsOn crossed.table 5 4
unfolding crossed no_queue queued started kernel_main first_entry has_flag write blocked_sender
    set_flag
crossed_waits = direct refl refl

msg_send_deadlock_example : msg_send 5 4 0x100 crossed ≡ stop Stop.panic
msg_send_deadlock_example =
    msg_send_deadlock crossed crossed-IsIpc 5 4 0x100 (omega arith) (omega arith) crossed_waits

-- INIT receives from anybody while MM is in its queue.
init-MayReceive : MayReceive crossed 5 any 0x200
unfolding crossed no_queue queued started kernel_main first_entry write
init-MayReceive = record {
  who_in = omega arith;
  other = omega arith;
  idle = (refl, refl, refl, refl);
  message = omega arith;
  pointer = omega arith;
  source = inr (inl refl);
  quiet = refl;
}

msg_receive_lem_example :
    (k' : Kernel) × (msg_receive 5 any 0x200 crossed ≡ ok 0 k')
    × (Taken crossed (push no_queue 5 4) 5 any 0x200 k'
        ⊎ Awaiting crossed (push no_queue 5 4) 5 any 0x200 k')
unfolding crossed no_queue queued started kernel_main first_entry write
msg_receive_lem_example =
    msg_receive_lem crossed crossed-IsIpc 5 any 0x200 init-MayReceive 0 (omega arith, refl)
      (omega arith) (omega arith)

copy_message_lem_example :
    (k' : Kernel) × (copy_message 4 0x900 5 0x100 started ≡ ok tt k')
    × Copied started 0x900 0x100 k'
unfolding started kernel_main first_entry ldt_seg_linear init_desc
copy_message_lem_example =
    copy_message_lem started 4 0x900 5 0x100 started-IsIpc.flat (omega arith) (omega arith)
      (omega arith) (omega arith) (inr (omega arith))

-- TTY has a pending interrupt.
pending : Kernel
pending = record started {
  table = write started.table 0 (record (started.table 0) { has_int_msg = 1 });
}

-- No process at all.
vacant : Kernel
unfolding started
vacant = record started { table = λ i. record (cleared i) { p_flags = free_slot } }

schedule_hangs_example : choose 5 vacant.table vacant.ready ≡ none
unfolding vacant cleared
schedule_hangs_example = schedule_hangs vacant 5 (λ j run. absurd (omega arith))
