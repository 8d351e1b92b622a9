-- ===== src/Lib.antt =====
-- A model of the OSCourseProject kernel, a small operating system for the 80386 in the style of
-- Orange'S, and the properties that make its parts correct.
--
-- The kernel keeps a table of processes. Processes talk by messages only: kernel/proc.c copies a
-- message from a sender to a receiver that waits, blocks whoever has to wait, and keeps for each
-- process a queue of those that want to send to it. The scheduler, in the same file, chooses among
-- the processes that are not blocked; the clock interrupt calls it. The tasks for memory, files,
-- disk and terminals are processes that serve messages.
--
-- Which file models which part:
--   Base       numbers, lists, flag words and the law of `|` on separate fields
--   Proc       include/sys/proc.h, include/sys/const.h: the process entry and the constants
--   Run        commands on the kernel's state, which end with a value or stop the machine
--   Segment    kernel/protect.c `init_desc`, kernel/proc.c `ldt_seg_linear` and `va2la`, and memcpy
--   Protect    kernel/protect.c `init_prot`, `exception_handler` (Exceptions) and kernel/i8259.c
--   Schedule   kernel/proc.c `schedule`
--   Boot       kernel/main.c `kernel_main`: the process table before the first process runs
--   Ipc        kernel/proc.c: `deadlock`, `msg_send`, `msg_receive`, `inform_int`, `sys_sendrec`,
--              and kernel/clock.c `clock_handler`
--   Ring       the circular buffers that the keyboard and the terminals share
--   Keyboard   kernel/keyboard.c and the input half of kernel/tty.c, with include/sys/keyboard.h
--              (Keys) and include/sys/keymap.h (Keymap)
--   Memory     mm/main.c and mm/forkexit.c: alloc_mem, fork, exit and wait. What MM sends by
--              send_recv is noted in its state, and MM goes on as if it had been received; the message
--              of the birth is given to the child, whose bytes are a parameter
--   Exec       lib/exec.c `execv` and mm/exec.c `do_exec`: how the arguments reach a program
--   Act        commands of a task on its own state
--   Fs         fs/: the file system. State has include/sys/fs.h; Inodes fs/main.c (the table of
--              i-nodes), Path fs/misc.c, Maps and Entries the allocation of fs/open.c, Open its
--              open, close and lseek, Share fs_fork and fs_exit of fs/main.c, Rdwt fs/read_write.c,
--              Unlink fs/link.c, Task the loop of `task_fs` (`serve_fs`), Make its start (`mkfs`). The modules
--              after these are proofs
--   Console    kernel/console.c, on video memory and the registers of the screen's controller; Scroll
--              is about its loop, Cursor and Print about `out_char`, Start about `init_screen`
--   FileTable  pro1/src/kernel/file.c, the file tables of the first kernel: its helpers, and in Ops
--              its system calls; the modules after these are proofs
--   Terminal   the other half of kernel/tty.c: the answers to the file system, the echo; Line and
--              Deliver are about a typed line, Printx is `sys_printx`
--   Disk       kernel/hd.c: partitions and the command of a transfer; Transfer its data
--   Clock      kernel/systask.c
--   Calls      lib/open.c, lib/fork.c and the other stubs of system calls
--   Format     lib/vsprintf.c, and `itoa` of kernel/klib.c (Hex)
--   Text       lib/misc.c `strcmp` and `memcmp`
--
-- A function of the source has the same name here (`serve_mm` is a round of `task_mm`), and its branches that are long have a definition
-- each (`deliver` and `enqueue` are the branches of `msg_send`). A pointer to an entry of
-- `proc_table` is its index, an `int` is its bit pattern, and linear memory is a function from
-- addresses to bytes. A failed `assert` and a `panic` are results of their own.
--
-- In the file system a pointer to an i-node or a descriptor is its index, the disk is an array of
-- bytes for each device, and `rw_sector` is answered at once. `fsbuf` is kept apart from the memory
-- of the processes. What the driver of a terminal answers is a parameter (`driver`).
--
-- Fuel: the loop of `schedule` gets two rounds, which are enough whenever any number is. A walk along
-- the queues or along the processes that wait for one another gets one round more than the table
-- has entries, which is enough as long as the invariant `IsIpc` holds: no process stands twice in a
-- queue, and none waits for itself through others.
--
-- The loop of `keyboard_read` gets as many rounds as the buffer has bytes; each round takes one.
-- Where the keyboard code would wait for a byte that has not arrived, the model stops there.
--
-- The loop of `do_rdwt` gets one round more than the request has sectors; each round but the last
-- moves past one at least. The loops of FileTable that lower the count they run to get that count as
-- fuel (FileTable/Fuel). The loop in `out_char` that scrolls up to the cursor gets one round more
-- than the console has lines.
--
-- An `int` is its bit pattern. `int_ltb` compares two as signed, as `schedule` and `clock_handler` do.
-- `do_rdwt` is modelled for positions, lengths and places on the disk below 2 GB, and stops with
-- `too_large` past them; a request of more than 256 sectors stops with `stuck`, as the driver waits
-- for an interrupt that does not come (Disk/Transfer).
--
-- Not modelled: debugging output (the printing in `deadlock`, the dumps), the ports of the hardware, and the
-- assembly that saves registers and switches processes. Of the file system: the disk log. Of
-- `do_exec`: the reading of the ELF file. Of
-- pro1/: all but its file tables, since it is an earlier version of the same kernel.
pub mod Base
pub mod Proc
pub mod Protect
pub mod Run
pub mod Act
pub mod Segment
pub mod Schedule
pub mod Ipc
pub mod Boot
pub mod Ring
pub mod Keyboard
pub mod Text
pub mod Format
pub mod Memory
pub mod Fs
pub mod Console
pub mod Terminal
pub mod Disk
pub mod Exec
pub mod Clock
pub mod FileTable
pub mod Calls
