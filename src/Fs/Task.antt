-- ===== src/Fs/Task.antt =====
-- fs/main.c `task_fs`: one round of its loop. The disk log of `ENABLE_DISK_LOG` is left out.
use oscourse_project.Base.{ℕ, true, false}
use oscourse_project.Run.{Stop}
use oscourse_project.Act.{Act, ◌>>=◌, pure, halt}
use oscourse_project.Fs.State.{Fs}
use oscourse_project.Fs.Open.{do_open, do_close}
use oscourse_project.Fs.Rdwt.{Rw, Answer, do_rdwt}
use oscourse_project.Fs.Unlink.{do_unlink}
use oscourse_project.Fs.Share.{fs_fork, fs_exit}

-- The messages that `task_fs` knows, with the fields that each reads.
pub data Request : Type 0 where
  open_file : (flags pathname name_len : ℕ) → Request
  close_file : (fd : ℕ) → Request
  read_write : Rw → (fd buf cnt : ℕ) → Request
  unlink_file : (pathname name_len : ℕ) → Request
  resume_proc : (proc_nr : ℕ) → Request
  fork_files exit_files : (pid : ℕ) → Request
  unknown : Request

-- To whom the reply goes, and its result; a suspended caller gets none.
pub data Reply : Type 0 where
  reply : (dest result : ℕ) → Reply
  suspended : Reply

abbrev answer_to : ℕ → Answer → Reply
answer_to src a = elim a.suspended [ true ↦ suspended | false ↦ reply src a.cnt ]

unfoldable pub serve_fs :
    (driver : Rw → (minor_nr src buf len : ℕ) → Answer) → (src : ℕ) → Request → Act Fs Reply
serve_fs driver src (open_file flags pathname name_len) = do
  fd ← do_open src flags pathname name_len
  pure (reply src fd)
serve_fs driver src (close_file fd) = do r ← do_close src fd; pure (reply src r)
serve_fs driver src (read_write rw_type fd buf cnt) = do
  a ← do_rdwt driver rw_type src fd buf cnt
  pure (answer_to src a)
serve_fs driver src (unlink_file pathname name_len) = do
  r ← do_unlink src pathname name_len
  pure (reply src r)
serve_fs driver src (resume_proc proc_nr) = pure (reply proc_nr proc_nr)
serve_fs driver src (fork_files pid) = do r ← fs_fork pid; pure (reply src r)
serve_fs driver src (exit_files pid) = do r ← fs_exit pid; pure (reply src r)
serve_fs driver src unknown = halt Stop.assertion
