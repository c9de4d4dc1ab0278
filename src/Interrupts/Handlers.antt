-- ===== src/Interrupts/Handlers.antt =====
-- The handlers of student-distrib/create_handler.c, and system_call_handler of
-- student-distrib/system_call.c, which no gate leads to.
use mathlib.Core.Option
use fuzzy_os.Base.{List, Memory, Option, Word, [], if◌then◌else◌, some, ℕ, ◌==◌, ◌>>=◌, ◌∷◌}
use fuzzy_os.Console.Printf.{printf}
use fuzzy_os.Interrupts.Messages.{
  cr2_format, default_error, default_irq, eip_format, error_code_format, esp_format, message,
  page_fault_text,
}
use fuzzy_os.Kernel.{Kernel}
use fuzzy_os.Keyboard.{get_keyboard_input}
use fuzzy_os.Process.{Frame, Outcome, halt, print_text}
use fuzzy_os.Rtc.{rtc_irq}
use fuzzy_os.Scheduler.{Scheduler, Switched, pit_irq}

-- What a handler leaves: the call comes back, or it spins.
pub data Handled : Type 0 where
  back : Scheduler → Handled
  switched : Switched → Handled
  spins : Kernel → Handled

-- `exception_flag = 1; halt(0);`
abbrev pub kill : Frame → Word → Kernel → Outcome
kill f table k = halt f table 0 (record k { exception_flag = 1 })

-- handler
unfoldable pub handler : Frame → Word → ℕ → Kernel → Outcome
handler f table except_num k =
    kill f table (print_text (10 ∷ []) (print_text (message except_num) k))

-- "System call received" and "Default system call message"
abbrev pub received : List ℕ
received =
    83 ∷ 121 ∷ 115 ∷ 116 ∷ 101 ∷ 109 ∷ 32 ∷ 99 ∷ 97 ∷ 108 ∷ 108 ∷ 32 ∷ 114 ∷ 101 ∷ 99 ∷ 101 ∷ 105
    ∷ 118 ∷ 101 ∷ 100 ∷ []

abbrev pub default_received : List ℕ
default_received =
    68 ∷ 101 ∷ 102 ∷ 97 ∷ 117 ∷ 108 ∷ 116 ∷ 32 ∷ 115 ∷ 121 ∷ 115 ∷ 116 ∷ 101 ∷ 109 ∷ 32 ∷ 99 ∷ 97
    ∷ 108 ∷ 108 ∷ 32 ∷ 109 ∷ 101 ∷ 115 ∷ 115 ∷ 97 ∷ 103 ∷ 101 ∷ []

-- system_call_handler
unfoldable pub system_call_handler : Word → Kernel → Handled
system_call_handler system_call_num k =
    spins (print_text (if system_call_num == 0x80 then received else default_received) k)

-- irq_handler, when the keyboard gives the scan code `code`; `none` is an access outside an array
-- in get_keyboard_input.
unfoldable pub irq_handler : Frame → Word → Word → Word → ℕ → ℕ → Scheduler → Option Handled
irq_handler f table esp ebp code irq_num s =
    if irq_num == 0x20
    then some (switched (pit_irq f table esp ebp s))
    else if irq_num == 0x21
    then Option.map (λ keys. back (record s { kernel = record (s.kernel) { keys = keys } }))
        (get_keyboard_input code s.kernel.keys)
    else if irq_num == 0x28
    then some (back (record s { kernel = record (s.kernel) { rtc = rtc_irq s.kernel.rtc } }))
    else some (back (record s { kernel = print_text default_irq s.kernel }))

module _ (text_at : Word → List ℕ) (conv : ℕ → Memory) where
  -- printf of a format and its arguments, of which there are less than two here
  abbrev pub print_format : List ℕ → Word → Kernel → Option Kernel
  print_format format v k =
      Option.map (λ r. record k { keys = record (k.keys) { con = r.1 } })
        (printf text_at (λ i. v) conv format k.keys.con)

  -- The texts of page_fault_handler, where CR2 and ESP hold `cr2` and `esp`.
  unfoldable pub fault_report : ℕ → Word → Word → Word → Word → Kernel → Option Kernel
  fault_report except_num error_code eip cr2 esp k =
      if except_num == 0x0E
      then (do
        k1 ← print_format page_fault_text 0 k
        k2 ← print_format error_code_format error_code k1
        k3 ← print_format eip_format eip k2
        k4 ← print_format cr2_format cr2 k3
        print_format esp_format esp k4)
      else print_format default_error 0 k

  -- page_fault_handler
  unfoldable pub page_fault_handler :
      Frame → Word → ℕ → Word → Word → Word → Word → Kernel → Option Outcome
  unfolding fault_report
  page_fault_handler f table except_num error_code eip cr2 esp k = do
    k1 ← fault_report except_num error_code eip cr2 esp k
    k2 ← print_format (10 ∷ []) 0 k1
    some (kill f table k2)
