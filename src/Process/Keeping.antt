-- ===== src/Process/Keeping.antt =====
-- What close and the loop of halt (student-distrib/system_call.c) leave alone: the counts, the
-- terminal that executes, and of every block all but the descriptors, which they only free.
use mathlib.Core.Path.{subst}
use native.Mathlib.Decide.{dec_lt}
use fuzzy_os.Base.{
  ==_iff, Bool, Bool-cases, Word, arith, false, if◌then◌else◌, inl, inr, minus_one, refl, slt, suc,
  true, zero, ℕ, ◌+◌, ◌<◌, ◌==◌, ◌||◌, ◌∙◌, ◌≡◌, ◌≤◌,
}
use fuzzy_os.Console.{clear, reset_cursor}
use fuzzy_os.Kernel.{
  Fops, Kernel, closed_entry, current, current_address, directory_fops, entry, fda_max_index,
  fda_min_index, file_fops, no_fops, rtc_fops, set_entry, terminal_fops,
}
use fuzzy_os.Process.{free_entry, tear_down}
use fuzzy_os.Syscalls.{close_kind, sys_close}
use fuzzy_os.TerminalDriver.{terminal_close}

pub record Kept (k k' : Kernel) : Type 0 where
  pub pid : k'.pid ≡ k.pid
  pub process_num : k'.process_num ≡ k.process_num
  pub term : current k' ≡ current k
  pub paging : k'.paging ≡ k.paging
  pub flag : k'.exception_flag ≡ k.exception_flag
  pub parent_esp : (a : Word) → (k'.pcbs a).parent_esp ≡ (k.pcbs a).parent_esp
  pub parent_ebp : (a : Word) → (k'.pcbs a).parent_ebp ≡ (k.pcbs a).parent_ebp
  pub flags : (a : Word) (j : ℕ) → ((k.pcbs a).fda j).flags ≡ 0 → ((k'.pcbs a).fda j).flags ≡ 0

Kept-trans : (k l m : Kernel) → Kept k l → Kept l m → Kept k m
Kept-trans k l m p q = record {
  pid = q.pid ∙ p.pid;
  process_num = q.process_num ∙ p.process_num;
  term = q.term ∙ p.term;
  paging = q.paging ∙ p.paging;
  flag = q.flag ∙ p.flag;
  parent_esp = λ a. q.parent_esp a ∙ p.parent_esp a;
  parent_ebp = λ a. q.parent_ebp a ∙ p.parent_ebp a;
  flags = λ a j e. q.flags a j (p.flags a j e);
}

free_entry-Kept : (a i : ℕ) (k : Kernel) → Kept k (free_entry a i k)
free_entry-Kept a i k = record {
  pid = refl;
  process_num = refl;
  term = refl;
  paging = refl;
  flag = refl;
  parent_esp = λ b. ground arith;
  parent_ebp = λ b. ground arith;
  flags = λ b j e. ground arith;
}

Kept-refl : (k : Kernel) → Kept k k
Kept-refl k = record {
  pid = refl;
  process_num = refl;
  term = refl;
  paging = refl;
  flag = refl;
  parent_esp = λ a. refl;
  parent_ebp = λ a. refl;
  flags = λ a j e. e;
}

close_kind-Kept : (fops : Fops) (k : Kernel) → Kept k (close_kind fops k).1
unfolding close_kind terminal_close reset_cursor clear
close_kind-Kept no_fops k = Kept-refl k
close_kind-Kept file_fops k = Kept-refl k
close_kind-Kept directory_fops k = Kept-refl k
close_kind-Kept rtc_fops k = Kept-refl k
close_kind-Kept terminal_fops k = record {
  pid = refl;
  process_num = refl;
  term = refl;
  paging = refl;
  flag = refl;
  parent_esp = λ a. refl;
  parent_ebp = λ a. refl;
  flags = λ a j e. e;
}

if-Kept :
    (k : Kernel) (t : Bool) (x y : Word × Kernel)
    → Kept k x.1
    → Kept k y.1
    → Kept k (if t then x else y).1
if-Kept k true x y p q = p
if-Kept k false x y p q = q

pub sys_close-Kept : (i : ℕ) (k : Kernel) → Kept k (sys_close i k).1
unfolding sys_close
sys_close-Kept i k =
    if-Kept k (slt i fda_min_index || slt fda_max_index i) (minus_one, k)
      (if (entry k i).flags == 0 then (minus_one, k) else freed) (Kept-refl k)
      (if-Kept k ((entry k i).flags == 0) (minus_one, k) freed (Kept-refl k)
        (Kept-trans k (set_entry i closed_entry k) freed.1 (free_entry-Kept (current_address k) i k)
          (close_kind-Kept (entry k i).fops (set_entry i closed_entry k))))
  where
    freed : Word × Kernel
    freed = close_kind (entry k i).fops (set_entry i closed_entry k)

pub Kept-address : (k k' : Kernel) → Kept k k' → current_address k' ≡ current_address k
Kept-address k k' h = rw (h.term, h.process_num) refl

tear_down_step-Kept : (a i : ℕ) (k : Kernel) → Kept k (free_entry a i (sys_close i k).1)
tear_down_step-Kept a i k =
    Kept-trans k (sys_close i k).1 (free_entry a i (sys_close i k).1) (sys_close-Kept i k)
      (free_entry-Kept a i (sys_close i k).1)

pub tear_down-Kept : (a n i : ℕ) (k : Kernel) → Kept k (tear_down a n i k)
unfolding tear_down
tear_down-Kept a zero i k = Kept-refl k
tear_down-Kept a (suc n) i k =
    Kept-trans k (free_entry a i (sys_close i k).1)
      (tear_down a n (i + 1) (free_entry a i (sys_close i k).1)) (tear_down_step-Kept a i k)
      (tear_down-Kept a n (i + 1) (free_entry a i (sys_close i k).1))

sys_close_in_range :
    (i : ℕ) (k : Kernel)
    → 2 ≤ i
    → i < 8
    → sys_close i k ≡ (
        if (entry k i).flags == 0
        then (minus_one, k)
        else close_kind (entry k i).fops (set_entry i closed_entry k))
unfolding sys_close
sys_close_in_range i k lo hi =
    let e : (slt i fda_min_index || slt fda_max_index i) ≡ false = ground arith in rw e refl

sys_close_frees :
    (i : ℕ) (k : Kernel)
    → 2 ≤ i
    → i < 8
    → (((sys_close i k).1.pcbs (current_address k)).fda i).flags ≡ 0
sys_close_frees i k lo hi = elim (Bool-cases ((entry k i).flags == 0)) [
  | inl e ↦ rw (sys_close_in_range i k lo hi, e) ((==_iff _ _).0 e)
  | inr e ↦
      rw (sys_close_in_range i k lo hi, e)
        ((close_kind-Kept (entry k i).fops (set_entry i closed_entry k)).flags (current_address k) i
          (ground arith))
]

-- The loop frees the descriptors of the process whose number is current.
pub tear_down_frees :
    (a n i j : ℕ) (k : Kernel)
    → 2 ≤ i
    → i + n ≤ 8
    → i ≤ j
    → j < i + n
    → (((tear_down a n i k).pcbs (current_address k)).fda j).flags ≡ 0
unfolding tear_down
tear_down_frees a zero i j k lo hi p q = absurd (omega arith)
tear_down_frees a (suc n) i j k lo hi p q =
    let k1 : Kernel = free_entry a i (sys_close i k).1 in
    let step : Kept k k1 = tear_down_step-Kept a i k in
    let same : current_address k1 ≡ current_address k = Kept-address k k1 step in
    elim (dec_lt i j) [
      | yes l ↦
          subst (λ b. (((tear_down a n (i + 1) k1).pcbs b).fda j).flags ≡ 0) same
            (tear_down_frees a n (i + 1) j k1 (omega arith) (omega arith) (omega arith)
              (omega arith))
      | no l ↦
          (let e : i ≡ j = omega arith in
            subst (λ x. (((tear_down a n (i + 1) k1).pcbs (current_address k)).fda x).flags ≡ 0) e
              ((tear_down-Kept a n (i + 1) k1).flags (current_address k) i (
                (free_entry-Kept a i (sys_close i k).1).flags (current_address k) i
                  (sys_close_frees i k lo (omega arith)))))
    ]
