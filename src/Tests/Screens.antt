-- ===== src/Tests/Screens.antt =====
-- The screen driver (student-distrib/lib.c, Terminal.c) and the switch of terminals.
use fuzzy_os.Base.{arith, some, ◌≡◌}
use fuzzy_os.Console.{Console, deletec, putc, video_start}
use fuzzy_os.Console.Bounds.{AllOnScreen, Reach-OnScreen, delete, here, next, put}
use fuzzy_os.Display.Switch.{SamePage, switch_to, switch_to_back}
use fuzzy_os.TerminalDriver.{terminal_write}
use fuzzy_os.TerminalDriver.Output.{SamePages, terminal_write_background}
use fuzzy_os.Tests.Machine.{console0, disk, keyboard0}

switch_to_back_example :
    SamePage video_start
      (switch_to 0 (switch_to 1 keyboard0)).con.video
      video_start
      keyboard0.con.video
switch_to_back_example = (switch_to_back keyboard0 1 (omega arith) (omega arith) (omega arith)).1

console0-AllOnScreen : AllOnScreen console0
console0-AllOnScreen t = ground arith

Reach-OnScreen_example : AllOnScreen (deletec (putc 10 console0))
Reach-OnScreen_example =
    Reach-OnScreen console0-AllOnScreen
      (next (next here (put 10 console0)) (delete (putc 10 console0)))

abbrev console1 : Console
console1 = record console0 { execute = 1 }

terminal_write_background_example :
    let (n, c') = terminal_write (some disk) 20 console1 in
    (n ≡ 20) × SamePages 1 console1.video c'.video × AllOnScreen c'
terminal_write_background_example =
    terminal_write_background disk 20 console1 console0-AllOnScreen (omega arith) (omega arith)
      (omega arith)
