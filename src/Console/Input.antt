-- ===== src/Console/Input.antt =====
-- The screen driver of student-distrib/lib.c leaves the input side of every terminal alone.
use fuzzy_os.Base.{List, Memory, [], arith, refl, suc, zero, ℕ, ◌∙◌, ◌∷◌, ◌≡◌}
use fuzzy_os.Console.{
  Console, Terminal, clear, deletec, keyboard_puts, put_at, putc, puts, reset_cursor, scroll_down,
  scroll_if_full, store_deleted_line, terminal_putc, update_cursor,
}

-- The fields of `terminal_t` that the keyboard and terminal_read work on.
pub record SameInput (a b : Terminal) : Type 0 where
  pub loc : a.buffer_loc ≡ b.buffer_loc
  pub enter : a.enter_flag ≡ b.enter_flag
  pub caps : a.caps_flag ≡ b.caps_flag
  pub line : a.keyboard_buf ≡ b.keyboard_buf

-- A call that only prints: the same terminal on display, the same one executing, the same input.
pub record OnlyPrints (c d : Console) : Type 0 where
  pub display : d.display ≡ c.display
  pub execute : d.execute ≡ c.execute
  pub input : (u : ℕ) → SameInput (d.terminals u) (c.terminals u)

pub OnlyPrints-refl : (c : Console) → OnlyPrints c c
OnlyPrints-refl c = record { display = refl; execute = refl; input = λ u. ground arith }

pub OnlyPrints-trans : (a b c : Console) → OnlyPrints a b → OnlyPrints b c → OnlyPrints a c
OnlyPrints-trans a b c p q = record {
  display = q.display ∙ p.display;
  execute = q.execute ∙ p.execute;
  input = λ u. ground (arith, p.input u, q.input u);
}

-- Four calls, as for a tab.
pub OnlyPrints-four :
    (f : Console → Console)
    → ((c : Console) → OnlyPrints c (f c))
    → (c : Console) → OnlyPrints c (f (f (f (f c))))
OnlyPrints-four f h c =
    OnlyPrints-trans c (f (f c)) (f (f (f (f c))))
      (OnlyPrints-trans c (f c) (f (f c)) (h c) (h (f c)))
      (OnlyPrints-trans (f (f c)) (f (f (f c))) (f (f (f (f c)))) (h (f (f c))) (h (f (f (f c)))))

pub putc-OnlyPrints : (ch : ℕ) (c : Console) → OnlyPrints c (putc ch c)
unfolding putc put_at scroll_if_full scroll_down
putc-OnlyPrints ch c = record {
  display = ground arith;
  execute = ground arith;
  input = λ u. ground arith;
}

pub deletec-OnlyPrints : (c : Console) → OnlyPrints c (deletec c)
unfolding deletec
deletec-OnlyPrints c = record {
  display = ground arith;
  execute = ground arith;
  input = λ u. ground arith;
}

pub puts-OnlyPrints : (s : List ℕ) (c : Console) → OnlyPrints c (puts s c)
unfolding puts
puts-OnlyPrints [] c = OnlyPrints-refl c
puts-OnlyPrints (ch ∷ s) c =
    OnlyPrints-trans c (putc ch c) (puts s (putc ch c)) (putc-OnlyPrints ch c)
      (puts-OnlyPrints s (putc ch c))

pub clear-OnlyPrints : (c : Console) → OnlyPrints c (clear c)
unfolding clear
clear-OnlyPrints c = record { display = refl; execute = refl; input = λ u. ground arith }

pub reset_cursor-OnlyPrints : (c : Console) → OnlyPrints c (reset_cursor c)
unfolding reset_cursor
reset_cursor-OnlyPrints c = record { display = refl; execute = refl; input = λ u. ground arith }

pub update_cursor-OnlyPrints : (c : Console) → OnlyPrints c (update_cursor c)
unfolding update_cursor
update_cursor-OnlyPrints c = record { display = refl; execute = refl; input = λ u. ground arith }

pub store_deleted_line-OnlyPrints : (c : Console) → OnlyPrints c (store_deleted_line c)
unfolding store_deleted_line
store_deleted_line-OnlyPrints c = record {
  display = refl;
  execute = refl;
  input = λ u. ground arith;
}

pub terminal_putc-OnlyPrints : (ch t : ℕ) (c : Console) → OnlyPrints c (terminal_putc ch t c)
unfolding terminal_putc put_at scroll_if_full scroll_down
terminal_putc-OnlyPrints ch t c = record {
  display = ground arith;
  execute = ground arith;
  input = λ u. ground arith;
}

-- keyboard_puts prints nothing and returns 0, whatever the text: the test `s[index == '\n']` reads
-- `s[0]` in the first round, where the loop has just seen that this is not the NUL.
pub keyboard_puts_noop : (f : ℕ) (s : Memory) (c : Console) → keyboard_puts f s 0 c ≡ (0, c)
unfolding keyboard_puts
keyboard_puts_noop zero s c = refl
keyboard_puts_noop (suc f) s c = ground arith
