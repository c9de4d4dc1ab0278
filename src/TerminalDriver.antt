-- ===== src/TerminalDriver.antt =====
-- student-distrib/Terminal.c, the four calls of the terminal device. A buffer is memory from its
-- pointer on and `none` is NULL. terminal_read waits for the enter flag with interrupts on: it is
-- given the state in which its wait ends, and the terminal that was on display when it was called.
pub mod Output
pub mod Line
pub mod TypedRead
use mathlib.Core.Option
use fuzzy_os.Base.{
  Bool, Memory, Option, Word, if◌then◌else◌, ltb, map, minus_one, none, not, slt, some, suc, update,
  zero, ℕ, ◌&&◌, ◌+◌, ◌==◌,
}
use fuzzy_os.Console.{
  Console, clear, reset_cursor, set_terminal, store_deleted_line, terminal_putc, update_cursor,
}
use fuzzy_os.Display.{Keyboard, buf_size}

-- terminal_open and terminal_close
unfoldable pub terminal_open : Console → Word × Console
terminal_open c = (minus_one, reset_cursor (clear c))

unfoldable pub terminal_close : Console → Word × Console
terminal_close c = (minus_one, reset_cursor (clear c))

-- The test of the wait: the line of the executing terminal is finished, and it is on display.
abbrev pub wait_over : Keyboard → Bool
wait_over k =
    not ((k.con.terminals k.con.execute).enter_flag == 0) && k.con.display == k.con.execute

-- The copy loop of terminal_read from index `i` with `n` rounds left; `none` is a read behind the
-- end of `keyboard_buf`.
unfoldable pub read_line : Memory → ℕ → ℕ → Memory → Option (ℕ × Memory)
read_line line zero i buf = some (i, buf)
read_line line (suc n) i buf =
    let rest = read_line line n (i + 1) (update buf i (line i)) in
    if ltb i buf_size
    then if line i == 10 then some (i + 1, update buf i (line i)) else rest
    else none

-- What terminal_read does after its wait: the line of `entry` starts anew, and the enter flag of
-- the executing terminal is reset.
unfoldable pub finish_read : ℕ → Keyboard → Keyboard
finish_read entry k =
    let k1 : Keyboard = record k {
      con = set_terminal entry (record (k.con.terminals entry) { buffer_loc = 0 }) k.con;
    } in
    record k1 {
      con =
          set_terminal k.con.execute (record (k1.con.terminals k.con.execute) { enter_flag = 0 })
            k1.con;
    }

-- terminal_read
unfoldable pub terminal_read :
    ℕ → Option Memory → Word → Keyboard → Option (Word × Option Memory × Keyboard)
unfolding read_line
terminal_read entry none nbytes k = some (minus_one, none, k)
terminal_read entry (some buf) nbytes k =
    if slt nbytes 1
    then some (0, some buf, k)
    else Option.map (λ r. (r.0, some r.1, finish_read entry k))
        (read_line k.keyboard_buf (if slt 128 nbytes then 128 else nbytes) 0 buf)

-- One character of terminal_write, on terminal `t`.
unfoldable pub write_char : ℕ → ℕ → Console → Console
write_char t ch c =
    if ch == 0
    then c
    else if ch == 9
    then terminal_putc 32 t (terminal_putc 32 t (terminal_putc 32 t (terminal_putc 32 t c)))
    else terminal_putc ch t c

-- The loop of terminal_write from index `i` with `n` rounds left.
unfoldable pub write_from : ℕ → Memory → ℕ → ℕ → Console → Console
unfolding write_char
write_from t buf zero i c = c
write_from t buf (suc n) i c = write_from t buf n (i + 1) (write_char t (buf i) c)

-- terminal_write; the count is that of the rounds, and `cur_execute` is read once.
unfoldable pub terminal_write : Option Memory → Word → Console → Word × Console
unfolding write_from
terminal_write none nbytes c = (minus_one, c)
terminal_write (some buf) nbytes c =
    let n : ℕ = if slt nbytes 0 then 0 else nbytes in
    (n, update_cursor (store_deleted_line (write_from c.execute buf n 0 c)))
