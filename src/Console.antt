-- ===== src/Console.antt =====
-- kernel/console.c: the consoles, each a part of the video memory. Positions count words from the
-- start of the video memory; the registers of the CRT controller are two fields.
pub mod Scroll
pub mod Cursor
pub mod Print
pub mod Start
mod Examples
use oscourse_project.Base.{
  ℕ, zero, suc, ◌+◌, ◌-◌, ◌*◌, ◌/◌, ◌%◌, ◌^◌, Bool, true, false, not, ◌&&◌, ◌||◌, List, [], ◌∷◌,
  ltb, leb, ◌==◌, if◌then◌else◌,
}
use oscourse_project.Run.{Stop}
use oscourse_project.Act.{Act, ok, ◌>>=◌, ◌>>◌, pure, get, change, assert, halt}
use oscourse_project.Segment.{poke, copy}

abbrev pub v_mem_base : ℕ
v_mem_base = 0xB8000

abbrev pub v_mem_size : ℕ
v_mem_size = 0x8000

abbrev pub scr_size : ℕ
scr_size = 80 * 25

abbrev pub scr_width : ℕ
scr_width = 80

-- `NR_CONSOLES`
abbrev pub consoles : ℕ
consoles = 3

-- `MAKE_COLOR(BLACK, WHITE)`
abbrev pub default_char_color : ℕ
default_char_color = 0x7

-- `CONSOLE`
pub record Console : Type 0 where
  pub crtc_start : ℕ
  pub orig : ℕ
  pub con_size : ℕ
  pub cursor : ℕ
  pub is_full : Bool

-- `console_table`, `current_console`, `disp_pos`, linear memory, and the registers of the controller.
pub record Video : Type 0 where
  pub console_table : ℕ → Console
  pub current_console : ℕ
  pub disp_pos : ℕ
  pub mem : ℕ → ℕ
  pub cursor_reg : ℕ
  pub start_reg : ℕ

-- SCR_UP and SCR_DN
pub data Direction : Type 0 where
  up down : Direction

-- `a - b` on `unsigned int`
abbrev pub offset : (a b : ℕ) → ℕ
offset a b = (a + (2 ^ 32 - b)) % 2 ^ 32

-- `console_table[c] = p`
unfoldable pub put_console : ℕ → Console → Video → Video
put_console c p v = record v { console_table = λ i. if c == i then p else v.console_table i }

-- `set_cursor`: two bytes
unfoldable pub set_cursor : ℕ → Video → Video
set_cursor position v = record v {
  cursor_reg = position / 2 ^ 8 % 2 ^ 8 * 2 ^ 8 + position % 2 ^ 8;
}

-- `set_video_start_addr`
unfoldable pub set_video_start_addr : ℕ → Video → Video
set_video_start_addr addr v = record v { start_reg = addr / 2 ^ 8 % 2 ^ 8 * 2 ^ 8 + addr % 2 ^ 8 }

-- `flush`
unfoldable pub flush : ℕ → Video → Video
flush c v =
    if c == v.current_console
    then set_video_start_addr (v.console_table c).crtc_start
        (set_cursor (v.console_table c).cursor v)
    else v

-- The loop of `clear_screen`, from address `a` on.
unfoldable pub clear_words : (len a : ℕ) → (ℕ → ℕ) → ℕ → ℕ
clear_words zero a mem = mem
clear_words (suc n) a mem =
    clear_words n (a + 2) (poke (poke mem a b' ') (a + 1) default_char_color)

-- `clear_screen`
unfoldable pub clear_screen : (pos len : ℕ) → Video → Video
clear_screen pos len v = record v { mem = clear_words len (v_mem_base + pos * 2) v.mem }

-- `w_copy`
unfoldable pub w_copy : (dst src size : ℕ) → Video → Video
w_copy dst src size v = record v {
  mem = copy (size * 2) (v_mem_base + dst * 2) (v_mem_base + src * 2) v.mem;
}

-- `is_current_console`
unfoldable pub is_current_console : ℕ → Video → Bool
is_current_console c v = c == v.current_console

-- `select_console`; a negative number is a large one here.
unfoldable pub select_console : ℕ → Video → Video
select_console nr_console v =
    if ltb nr_console consoles
    then flush nr_console (record v { current_console = nr_console })
    else v

-- The offsets that `scroll_screen` works with.
abbrev pub newest : Console → ℕ
newest con = offset con.cursor con.orig / scr_width * scr_width

abbrev pub oldest : Console → ℕ
oldest con = if con.is_full then (newest con + scr_width) % con.con_size else 0

abbrev pub scr_top : Console → ℕ
scr_top con = offset con.crtc_start con.orig

-- Where the screen starts after `scroll_screen`.
unfoldable pub scrolled : Direction → Console → ℕ
scrolled down con =
    if not con.is_full && ltb 0 (scr_top con)
    then con.crtc_start - scr_width
    else (if con.is_full && not (scr_top con == oldest con)
        then (if leb (con.con_size - scr_size) (offset con.cursor con.orig)
            then (if con.crtc_start == con.orig then con.crtc_start else con.crtc_start - scr_width)
            else (if con.crtc_start == con.orig
                then con.orig + (con.con_size - scr_size)
                else con.crtc_start - scr_width))
        else con.crtc_start)
scrolled up con =
    if not con.is_full && leb (scr_top con + scr_size) (newest con)
    then con.crtc_start + scr_width
    else (if con.is_full && not (scr_top con + scr_size - scr_width == newest con)
        then (if scr_top con + scr_size == con.con_size
            then con.orig
            else con.crtc_start + scr_width)
        else con.crtc_start)

-- `scroll_screen`
unfoldable pub scroll_screen : ℕ → Direction → Video → Video
scroll_screen c dir v =
    flush c (
      put_console c (record (v.console_table c) { crtc_start = scrolled dir (v.console_table c) })
        v)

-- "switch(ch)": the console and the memory after a character.
unfoldable pub print_at : (ch : ℕ) → Console → (ℕ → ℕ) → Console × (ℕ → ℕ)
print_at ch con mem =
    let pch : ℕ = v_mem_base + con.cursor * 2 in
    let cursor_y : ℕ = offset con.cursor con.orig / scr_width in
    if ch == 10
    then (record con { cursor = con.orig + scr_width * (cursor_y + 1) }, mem)
    else (if ch == 8
        then (if ltb con.orig con.cursor
            then (
              record con { cursor = con.cursor - 1 },
              poke (poke mem (pch - 2) b' ') (pch - 1) default_char_color,
            )
            else (con, mem))
        else (
          record con { cursor = con.cursor + 1 },
          poke (poke mem pch ch) (pch + 1) default_char_color,
        ))

-- "if (con->cursor - con->orig >= con->con_size)": the last lines become the first screen.
unfoldable pub wrap_console : ℕ → Video → Video
wrap_console c v =
    let con : Console = v.console_table c in
    let used : ℕ = offset con.cursor con.orig in
    let cp_orig : ℕ = con.orig + (used / scr_width + 1) * scr_width - scr_size in
    let cursor : ℕ = con.orig + (scr_size - scr_width) + used % scr_width in
    if leb con.con_size used
    then clear_screen cursor scr_width (
        put_console c (record con { crtc_start = con.orig; cursor = cursor; is_full = true })
          (w_copy con.orig cp_orig (scr_size - scr_width) v))
    else v

-- The screen shows the cursor.
abbrev pub shows : Console → Bool
shows con = ltb con.cursor (con.crtc_start + scr_size) && leb con.crtc_start con.cursor

-- The loop that scrolls up to the cursor.
unfoldable pub follow_cursor : (fuel c : ℕ) → Act Video (Unit {0})
follow_cursor zero c = halt Stop.out_of_fuel
follow_cursor (suc n) c = do
  v ← get
  let on = (do
    change (scroll_screen c up)
    change (λ w. clear_screen (w.console_table c).cursor scr_width w)
    follow_cursor n c)
  if shows (v.console_table c) then pure tt else on

-- `assert(con->cursor - con->orig < con->con_size)`
abbrev in_console : ℕ → Act Video (Unit {0})
in_console c v =
    assert
      (ltb (offset (v.console_table c).cursor (v.console_table c).orig)
        (v.console_table c).con_size)
      v

-- `out_char`. The screen comes to the cursor in at most one round for each line of the console.
unfoldable pub out_char : (c ch : ℕ) → Act Video (Unit {0})
out_char c ch = do
  in_console c
  change (λ v.
      let r = print_at ch (v.console_table c) v.mem in put_console c r.0 (record v { mem = r.1 }))
  change (wrap_console c)
  in_console c
  v ← get
  follow_cursor ((v.console_table c).con_size / scr_width + 1) c
  change (flush c)

-- The characters of a text, one after another.
unfoldable pub out_text : (c : ℕ) → List ℕ → Act Video (Unit {0})
out_text c [] = pure tt
out_text c (ch ∷ s) = do out_char c ch; out_text c s

-- "[TTY #?]\n", with the number
abbrev prompt : ℕ → List ℕ
prompt nr_tty = b'[' ∷ b'T' ∷ b'T' ∷ b'Y' ∷ b' ' ∷ b'#' ∷ (nr_tty + b'0') ∷ b']' ∷ 10 ∷ []

-- `init_screen`
unfoldable pub init_screen : (nr_tty : ℕ) → Act Video (Unit {0})
init_screen nr_tty = do
  let size_per_con = v_mem_size / 2 / consoles
  let orig = nr_tty * size_per_con
  v ← get
  change (
      put_console nr_tty (record {
        crtc_start = orig;
        orig = orig;
        con_size = size_per_con / scr_width * scr_width;
        cursor = if nr_tty == 0 then v.disp_pos / 2 else orig;
        is_full = false;
      }))
  elim (nr_tty == 0) [
    | true ↦ change (λ w. record w { disp_pos = 0 })
    | false ↦ out_text nr_tty (prompt nr_tty)
  ]
  change (λ w. set_cursor (w.console_table nr_tty).cursor w)
