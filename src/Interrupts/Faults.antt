-- ===== src/Interrupts/Faults.antt =====
-- What page_fault_handler of student-distrib/create_handler.c prints.
use mathlib.Core.Option
use fuzzy_os.Base.{
  Bool, Bool-cases, List, Memory, Word, [], ap, arith, bind_some, if◌then◌else◌, inl, inr, not,
  refl, some, sym, true, ℕ, ◌&&◌, ◌++◌, ◌+◌, ◌<◌, ◌==◌, ◌^◌, ◌∙◌, ◌∷◌, ◌≡◌,
}
use fuzzy_os.Clib.Radix.{numeral}
use fuzzy_os.Console.Formats.{printf-format_of}
use fuzzy_os.Console.Printed.{puts-append}
use fuzzy_os.Console.Rendering.{AllLiteral, Piece, format_of, hex, literal, render_all}
use fuzzy_os.Interrupts.Handlers.{fault_report, kill, page_fault_handler, print_format}
use fuzzy_os.Interrupts.Messages.{default_error, page_fault_text}
use fuzzy_os.Kernel.{Kernel}
use fuzzy_os.Process.{Frame, halt, print_text}

print_text-print_text :
    (s t : List ℕ) (k : Kernel) → print_text t (print_text s k) ≡ print_text (s ++ t) k
print_text-print_text s t k =
    ap (λ c. record k { keys = record (k.keys) { con = c } }) (sym (puts-append s t k.keys.con))

-- A text is literal if it has no percent sign and no NUL.
abbrev is_literal : List ℕ → Bool
is_literal [] = true
is_literal (c ∷ s) = not (c == 37) && (not (c == 0) && is_literal s)

abbrev literals : List ℕ → List Piece → List Piece
literals [] ps = ps
literals (c ∷ s) ps = literal c ∷ literals s ps

literals-AllLiteral :
    (s : List ℕ) (ps : List Piece)
    → is_literal s ≡ true
    → AllLiteral ps
    → AllLiteral (literals s ps)
literals-AllLiteral [] ps h a = a
literals-AllLiteral (c ∷ s) ps h a =
    ((ground arith, ground arith), literals-AllLiteral s ps (ground arith) a)

-- "Error code: ", "\nEIP: ", "\nCR2: " and "\nESP: "
abbrev error_code_label : List ℕ
error_code_label = 69 ∷ 114 ∷ 114 ∷ 111 ∷ 114 ∷ 32 ∷ 99 ∷ 111 ∷ 100 ∷ 101 ∷ 58 ∷ 32 ∷ []

abbrev eip_label : List ℕ
eip_label = 10 ∷ 69 ∷ 73 ∷ 80 ∷ 58 ∷ 32 ∷ []

abbrev cr2_label : List ℕ
cr2_label = 10 ∷ 67 ∷ 82 ∷ 50 ∷ 58 ∷ 32 ∷ []

abbrev esp_label : List ℕ
esp_label = 10 ∷ 69 ∷ 83 ∷ 80 ∷ 58 ∷ 32 ∷ []

-- A label, a number in hexadecimal, and what follows it.
abbrev pub labelled : List ℕ → Word → List ℕ → List ℕ
labelled label v rest = label ++ (numeral 16 v ++ rest)

-- What is printed for a page fault, and for any other number.
abbrev pub report : ℕ → Word → Word → Word → Word → List ℕ
report except_num error_code eip cr2 esp =
    if except_num == 14
    then page_fault_text
      ++ (labelled error_code_label error_code []
          ++ (labelled eip_label eip (32 ∷ [])
              ++ (labelled cr2_label cr2 (32 ∷ []) ++ labelled esp_label esp (32 ∷ []))))
    else default_error

format_of-literals : (s : List ℕ) (ps : List Piece) → format_of (literals s ps) ≡ s ++ format_of ps
format_of-literals [] ps = refl
format_of-literals (c ∷ s) ps = ap (λ t. c ∷ t) (format_of-literals s ps)

module _ (text_at : Word → List ℕ) (conv : ℕ → Memory) where
  render_all-literals :
      (esp : ℕ → Word) (i : ℕ) (s : List ℕ) (ps : List Piece)
      → render_all text_at esp i (literals s ps) ≡ s ++ render_all text_at esp i ps
  render_all-literals esp i [] ps = refl
  render_all-literals esp i (c ∷ s) ps =
      let z : i + 0 ≡ i = omega arith in rw z (ap (λ t. c ∷ t) (render_all-literals esp i s ps))

  print_format-pieces :
      (s : List ℕ) (ps : List Piece) (v : Word) (k : Kernel)
      → is_literal s ≡ true
      → AllLiteral ps
      → v < 2 ^ 32
      → print_format text_at conv (s ++ format_of ps) v k
        ≡ some (print_text (s ++ render_all text_at (λ i. v) 0 ps) k)
  print_format-pieces s ps v k h a l =
      ap (λ t. print_format text_at conv t v k) (sym (format_of-literals s ps))
      ∙ ap (Option.map (λ r. record k { keys = record (k.keys) { con = r.1 } })) (
          printf-format_of text_at (λ i. v) conv (literals s ps) k.keys.con
            (literals-AllLiteral s ps h a) (λ j. l))
      ∙ ap (λ t. some (print_text t k)) (render_all-literals (λ i. v) 0 s ps)

  print_format-plain :
      (s : List ℕ) (k : Kernel)
      → is_literal s ≡ true
      → print_format text_at conv (s ++ []) 0 k ≡ some (print_text (s ++ []) k)
  print_format-plain s k h = print_format-pieces s [] 0 k h tt (omega arith)

  print_format-labelled :
      (label : List ℕ) (v : Word) (k : Kernel)
      → is_literal label ≡ true
      → v < 2 ^ 32
      → print_format text_at conv (label ++ (37 ∷ 120 ∷ 32 ∷ [])) v k
        ≡ some (print_text (labelled label v (32 ∷ [])) k)
  print_format-labelled label v k h l =
      print_format-pieces label (hex ∷ literal 32 ∷ []) v k h
        (tt, ((ground arith, ground arith), tt)) l

  fault_report-report :
      (n : ℕ) (error_code eip cr2 esp : Word) (k : Kernel)
      → error_code < 2 ^ 32
      → eip < 2 ^ 32
      → cr2 < 2 ^ 32
      → esp < 2 ^ 32
      → fault_report text_at conv n error_code eip cr2 esp k
        ≡ some (print_text (report n error_code eip cr2 esp) k)
  unfolding fault_report
  fault_report-report n error_code eip cr2 esp k h1 h2 h3 h4 = elim (Bool-cases (n == 14)) [
    | inl e ↦
        let a : List ℕ = page_fault_text in
        let b : List ℕ = labelled error_code_label error_code [] in
        let c : List ℕ = labelled eip_label eip (32 ∷ []) in
        let d : List ℕ = labelled cr2_label cr2 (32 ∷ []) in
        let t : List ℕ = labelled esp_label esp (32 ∷ []) in
        let k1 : Kernel = print_text a k in
        let k2 : Kernel = print_text b k1 in
        let k3 : Kernel = print_text c k2 in
        let k4 : Kernel = print_text d k3 in
        rw e (
          bind_some _ k1 _ _ (print_format-plain a k refl) (
            bind_some _ k2 _ _
              (print_format-pieces error_code_label (hex ∷ []) error_code k1 refl (tt, tt) h1)
              (bind_some _ k3 _ _ (print_format-labelled eip_label eip k2 refl h2) (
                bind_some _ k4 _ _ (print_format-labelled cr2_label cr2 k3 refl h3) (
                  print_format-labelled esp_label esp k4 refl h4
                  ∙ ap some (
                      print_text-print_text d t k3
                      ∙ print_text-print_text c (d ++ t) k2
                      ∙ print_text-print_text b (c ++ (d ++ t)) k1
                      ∙ print_text-print_text a (b ++ (c ++ (d ++ t))) k))))))
    | inr e ↦ rw e (print_format-plain default_error k refl)
  ]

  -- A page fault prints its error code and the registers EIP, CR2 and ESP as hexadecimal numerals,
  -- a line each; then the handler ends the process as halt does when the exception flag is set.
  pub page_fault_handler-report :
      (f : Frame) (table : Word) (n : ℕ) (error_code eip cr2 esp : Word) (k : Kernel)
      → error_code < 2 ^ 32
      → eip < 2 ^ 32
      → cr2 < 2 ^ 32
      → esp < 2 ^ 32
      → page_fault_handler text_at conv f table n error_code eip cr2 esp k
        ≡ some (
            halt f table 0 (record (print_text (report n error_code eip cr2 esp ++ (10 ∷ [])) k) {
              exception_flag = 1;
            }))
  unfolding page_fault_handler
  page_fault_handler-report f table n error_code eip cr2 esp k h1 h2 h3 h4 =
      bind_some _ _ _ _ (fault_report-report n error_code eip cr2 esp k h1 h2 h3 h4) (
        bind_some _ _ _ _
          (print_format-plain (10 ∷ []) (print_text (report n error_code eip cr2 esp) k) refl)
          (ap (λ k'. some (kill f table k'))
            (print_text-print_text (report n error_code eip cr2 esp) (10 ∷ []) k)))
