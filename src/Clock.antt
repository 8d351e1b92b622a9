-- ===== src/Clock.antt =====
-- kernel/systask.c: the task that answers for the ticks, the process numbers and the time of day. What
-- the registers of the clock hold is a parameter, `register`.
use oscourse_project.Base.{ℕ, ◌+◌, ◌*◌, ◌/◌, ◌%◌, ◌^◌, Option, none, some, if◌then◌else◌, has_flag}

-- The registers of the clock.
abbrev pub clk_year : ℕ
clk_year = 9

abbrev pub clk_month : ℕ
clk_month = 8

abbrev pub clk_day : ℕ
clk_day = 7

abbrev pub clk_hour : ℕ
clk_hour = 4

abbrev pub clk_minute : ℕ
clk_minute = 2

abbrev pub clk_second : ℕ
clk_second = 0

abbrev pub clk_status : ℕ
clk_status = 0x0B

-- `struct time`
pub record Time : Type 0 where
  pub year : ℕ
  pub month : ℕ
  pub day : ℕ
  pub hour : ℕ
  pub minute : ℕ
  pub second : ℕ

-- `BCD_TO_DEC`
unfoldable pub bcd_to_dec : ℕ → ℕ
bcd_to_dec x = x / 2 ^ 4 * 10 + x % 2 ^ 4

-- A time whose fields are in BCD.
unfoldable pub time_to_dec : Time → Time
time_to_dec t = record {
  year = bcd_to_dec t.year;
  month = bcd_to_dec t.month;
  day = bcd_to_dec t.day;
  hour = bcd_to_dec t.hour;
  minute = bcd_to_dec t.minute;
  second = bcd_to_dec t.second;
}

-- `get_rtc_time`
unfoldable pub get_rtc_time : (register : ℕ → ℕ) → Time
get_rtc_time register =
    let t : Time = record {
      year = register clk_year;
      month = register clk_month;
      day = register clk_day;
      hour = register clk_hour;
      minute = register clk_minute;
      second = register clk_second;
    } in
    let u : Time = if has_flag (register clk_status) 4 then t else time_to_dec t in
    record u { year = u.year + 2000 }

-- The messages that `task_sys` knows, and its answers; an unknown one is a panic.
pub data SysRequest : Type 0 where
  get_ticks get_pid get_rtc_time_of : SysRequest
  unknown : SysRequest

pub data SysReply : Type 0 where
  ticks_are pid_is : ℕ → SysReply
  time_is : Time → SysReply

-- The answer to the process `src`.
unfoldable pub task_sys_reply : (register : ℕ → ℕ) → (ticks src : ℕ) → SysRequest → Option SysReply
task_sys_reply register ticks src get_ticks = some (ticks_are ticks)
task_sys_reply register ticks src get_pid = some (pid_is src)
task_sys_reply register ticks src get_rtc_time_of = some (time_is (get_rtc_time register))
task_sys_reply register ticks src unknown = none
