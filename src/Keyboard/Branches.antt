-- ===== src/Keyboard/Branches.antt =====
-- What each branch of the keyboard handler (student-distrib/keyboard.c) does to `_buffer_loc`.
use fuzzy_os.Base.{
  Bool-cases, Option, arith, if◌then◌else◌, inl, inr, minus_one, none, some, sub32, ℕ, ◌+◌, ◌-◌,
  ◌<◌, ◌==◌, ◌≡◌, ◌≤◌,
}
use fuzzy_os.Console.{Console, deletec, putc, update_cursor}
use fuzzy_os.Console.Input.{
  OnlyPrints, OnlyPrints-trans, OnlyPrints-four, deletec-OnlyPrints, putc-OnlyPrints,
  update_cursor-OnlyPrints,
}
use fuzzy_os.Display.{Keyboard}
use fuzzy_os.Keyboard.{
  append_char, drop_char, end_interrupt, erase_last, on_backspace, on_console, on_tab, read_buf,
  shown,
}

-- A call that stays inside the arrays, with a state that has the property.
abbrev pub Gives : (Keyboard → Type 0) → Option Keyboard → Type 0
Gives P none = ⊥
Gives P (some k) = P k

abbrev pub loc : ℕ → Keyboard → ℕ
loc u k = (k.con.terminals u).buffer_loc

-- the four spaces of a tab
abbrev pub four_spaces : Console → Console
four_spaces c = putc 32 (putc 32 (putc 32 (putc 32 c)))

pub four_spaces-OnlyPrints : (c : Console) → OnlyPrints c (four_spaces c)
four_spaces-OnlyPrints = OnlyPrints-four (putc 32) (putc-OnlyPrints 32)

abbrev delete_tab : Console → Console
delete_tab c = update_cursor (deletec (deletec (deletec (deletec c))))

delete_tab-OnlyPrints : (c : Console) → OnlyPrints c (delete_tab c)
delete_tab-OnlyPrints c =
    OnlyPrints-trans c (deletec (deletec (deletec (deletec c)))) (delete_tab c)
      (OnlyPrints-four deletec deletec-OnlyPrints c) (update_cursor-OnlyPrints _)

-- A tab key adds one character to the line on display, if the line has room for it.
pub on_tab-loc :
    (k : Keyboard) (u : ℕ)
    → loc k.con.display k < 127
    → Gives (λ k'. loc u k' ≡ (if u == k.con.display then loc u k + 1 else loc u k)) (on_tab k)
unfolding on_tab update_cursor append_char
on_tab-loc k u h = ground (
  arith,
  (four_spaces-OnlyPrints k.con).display,
  (four_spaces-OnlyPrints k.con).input u,
  (four_spaces-OnlyPrints k.con).input k.con.display,
)

-- One character less, at terminal `d` only.
abbrev pub less_at : ℕ → ℕ → ℕ → ℕ
less_at d u n = if u == d then n - 1 else n

drop_char-loc :
    (k : Keyboard) (u : ℕ)
    → loc k.con.display k ≤ 127
    → (loc u (drop_char k) ≡ less_at k.con.display u (loc u k))
      × ((drop_char k).con.display ≡ k.con.display)
unfolding drop_char
drop_char-loc k u h = ground arith

erase_last-loc :
    (last : ℕ) (k : Keyboard) (u : ℕ)
    → loc k.con.display k ≤ 127
    → loc u (erase_last last k) ≡ less_at k.con.display u (loc u k)
erase_last-loc last k u h = elim (Bool-cases (last == 9)) [
  | inl tab ↦
      (let k' = end_interrupt (on_console delete_tab k) in
        let p = delete_tab-OnlyPrints k.con in
        unfold erase_last in
        ground (arith, p.display, p.input u, p.input k.con.display, drop_char-loc k' u))
  | inr plain ↦
      unfold erase_last update_cursor in
      ground (arith, drop_char-loc k u h, (deletec-OnlyPrints (drop_char k).con).input u)
]

read_buf-some :
    (k : Keyboard)
    → loc k.con.display k ≤ 127
    → (v : ℕ) × (read_buf k (sub32 (shown k).buffer_loc 1) ≡ some v)
unfolding read_buf
read_buf-some k h = elim (Bool-cases (sub32 (shown k).buffer_loc 1 == minus_one)) [
  | inl first ↦ (k.before_buf, ground arith)
  | inr inside ↦ (k.keyboard_buf (sub32 (shown k).buffer_loc 1), ground arith)
]

-- The backspace key takes one character off the line on display, if it has one.
pub on_backspace-loc :
    (k : Keyboard) (u : ℕ)
    → loc k.con.display k ≤ 127
    → Gives (λ k'. loc u k' ≡ less_at k.con.display u (loc u k)) (on_backspace k)
unfolding on_backspace
on_backspace-loc k u h = let (v, e) = read_buf-some k h in ground (arith, erase_last-loc v k u h)
