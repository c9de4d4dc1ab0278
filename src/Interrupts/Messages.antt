-- ===== src/Interrupts/Messages.antt =====
-- The texts that the handlers of student-distrib/create_handler.c print.
use fuzzy_os.Base.{List, [], if◌then◌else◌, ℕ, ◌==◌, ◌∷◌}

-- "Default Error"
abbrev pub default_error : List ℕ
default_error = 68 ∷ 101 ∷ 102 ∷ 97 ∷ 117 ∷ 108 ∷ 116 ∷ 32 ∷ 69 ∷ 114 ∷ 114 ∷ 111 ∷ 114 ∷ []

-- "Error: " before a name
abbrev pub error_text : List ℕ → List ℕ
error_text name = 69 ∷ 114 ∷ 114 ∷ 111 ∷ 114 ∷ 58 ∷ 32 ∷ name

-- The switch of handler.
unfoldable pub message : ℕ → List ℕ
message except_num =
    if except_num == 0
    then error_text
        (68 ∷ 105 ∷ 118 ∷ 105 ∷ 100 ∷ 101 ∷ 32 ∷ 98 ∷ 121 ∷ 32 ∷ 90 ∷ 101 ∷ 114 ∷ 111 ∷ [])
    else if except_num == 1
    then error_text
        (68 ∷ 101 ∷ 98 ∷ 117 ∷ 103 ∷ 32 ∷ 69 ∷ 120 ∷ 99 ∷ 101 ∷ 112 ∷ 116 ∷ 105 ∷ 111 ∷ 110 ∷ [])
    else if except_num == 2
    then error_text (78 ∷ 77 ∷ 73 ∷ 32 ∷ 73 ∷ 110 ∷ 116 ∷ 101 ∷ 114 ∷ 114 ∷ 117 ∷ 112 ∷ 116 ∷ [])
    else if except_num == 3
    then error_text (
        66 ∷ 114 ∷ 101 ∷ 97 ∷ 107 ∷ 112 ∷ 111 ∷ 105 ∷ 110 ∷ 116 ∷ 32 ∷ 69 ∷ 120 ∷ 99 ∷ 101 ∷ 112
        ∷ 116 ∷ 105 ∷ 111 ∷ 110 ∷ [])
    else if except_num == 4
    then error_text (
        79 ∷ 118 ∷ 101 ∷ 114 ∷ 102 ∷ 108 ∷ 111 ∷ 119 ∷ 32 ∷ 69 ∷ 120 ∷ 99 ∷ 101 ∷ 112 ∷ 116 ∷ 105
        ∷ 111 ∷ 110 ∷ [])
    else if except_num == 5
    then error_text (
        66 ∷ 111 ∷ 117 ∷ 110 ∷ 100 ∷ 32 ∷ 82 ∷ 97 ∷ 110 ∷ 103 ∷ 101 ∷ 32 ∷ 69 ∷ 120 ∷ 99 ∷ 101 ∷ 101
        ∷ 100 ∷ 101 ∷ 100 ∷ 32 ∷ 69 ∷ 120 ∷ 99 ∷ 101 ∷ 112 ∷ 116 ∷ 105 ∷ 111 ∷ 110 ∷ [])
    else if except_num == 6
    then error_text (
        73 ∷ 110 ∷ 118 ∷ 97 ∷ 108 ∷ 105 ∷ 100 ∷ 32 ∷ 79 ∷ 112 ∷ 99 ∷ 111 ∷ 100 ∷ 101 ∷ 32 ∷ 69 ∷ 120
        ∷ 99 ∷ 101 ∷ 112 ∷ 116 ∷ 105 ∷ 111 ∷ 110 ∷ [])
    else if except_num == 7
    then error_text (
        68 ∷ 101 ∷ 118 ∷ 105 ∷ 99 ∷ 101 ∷ 32 ∷ 78 ∷ 111 ∷ 116 ∷ 32 ∷ 65 ∷ 118 ∷ 97 ∷ 105 ∷ 108 ∷ 97
        ∷ 98 ∷ 108 ∷ 101 ∷ 32 ∷ 69 ∷ 120 ∷ 99 ∷ 101 ∷ 112 ∷ 116 ∷ 105 ∷ 111 ∷ 110 ∷ [])
    else if except_num == 8
    then error_text (
        68 ∷ 111 ∷ 117 ∷ 98 ∷ 108 ∷ 101 ∷ 32 ∷ 70 ∷ 97 ∷ 117 ∷ 108 ∷ 116 ∷ 32 ∷ 69 ∷ 120 ∷ 99 ∷ 101
        ∷ 112 ∷ 116 ∷ 105 ∷ 111 ∷ 110 ∷ [])
    else if except_num == 9
    then error_text (
        67 ∷ 111 ∷ 112 ∷ 114 ∷ 111 ∷ 99 ∷ 101 ∷ 115 ∷ 115 ∷ 111 ∷ 114 ∷ 32 ∷ 83 ∷ 101 ∷ 103 ∷ 109
        ∷ 101 ∷ 110 ∷ 116 ∷ 32 ∷ 79 ∷ 118 ∷ 101 ∷ 114 ∷ 114 ∷ 117 ∷ 110 ∷ [])
    else if except_num == 10
    then error_text (
        73 ∷ 110 ∷ 118 ∷ 97 ∷ 108 ∷ 105 ∷ 100 ∷ 32 ∷ 84 ∷ 83 ∷ 83 ∷ 32 ∷ 69 ∷ 120 ∷ 99 ∷ 101 ∷ 112
        ∷ 116 ∷ 105 ∷ 111 ∷ 110 ∷ [])
    else if except_num == 11
    then error_text (
        83 ∷ 101 ∷ 103 ∷ 109 ∷ 101 ∷ 110 ∷ 116 ∷ 32 ∷ 78 ∷ 111 ∷ 116 ∷ 32 ∷ 80 ∷ 114 ∷ 101 ∷ 115
        ∷ 101 ∷ 110 ∷ 116 ∷ [])
    else if except_num == 12
    then error_text (
        83 ∷ 116 ∷ 97 ∷ 99 ∷ 107 ∷ 32 ∷ 70 ∷ 97 ∷ 117 ∷ 108 ∷ 116 ∷ 32 ∷ 69 ∷ 120 ∷ 99 ∷ 101 ∷ 112
        ∷ 116 ∷ 105 ∷ 111 ∷ 110 ∷ [])
    else if except_num == 13
    then error_text (
        71 ∷ 101 ∷ 110 ∷ 101 ∷ 114 ∷ 97 ∷ 108 ∷ 32 ∷ 80 ∷ 114 ∷ 111 ∷ 116 ∷ 101 ∷ 99 ∷ 116 ∷ 105
        ∷ 111 ∷ 110 ∷ 32 ∷ 69 ∷ 120 ∷ 99 ∷ 101 ∷ 112 ∷ 116 ∷ 105 ∷ 111 ∷ 110 ∷ [])
    else if except_num == 14
    then error_text (
        80 ∷ 97 ∷ 103 ∷ 101 ∷ 32 ∷ 70 ∷ 97 ∷ 117 ∷ 108 ∷ 116 ∷ 32 ∷ 69 ∷ 120 ∷ 99 ∷ 101 ∷ 112 ∷ 116
        ∷ 105 ∷ 111 ∷ 110 ∷ [])
    else if except_num == 16
    then error_text (
        120 ∷ 56 ∷ 55 ∷ 32 ∷ 70 ∷ 80 ∷ 85 ∷ 32 ∷ 70 ∷ 108 ∷ 111 ∷ 97 ∷ 116 ∷ 105 ∷ 110 ∷ 103 ∷ 45
        ∷ 80 ∷ 111 ∷ 105 ∷ 110 ∷ 116 ∷ 32 ∷ 69 ∷ 114 ∷ 114 ∷ 111 ∷ 114 ∷ 32 ∷ [])
    else if except_num == 17
    then error_text (
        65 ∷ 108 ∷ 105 ∷ 103 ∷ 110 ∷ 109 ∷ 101 ∷ 110 ∷ 116 ∷ 32 ∷ 67 ∷ 104 ∷ 101 ∷ 99 ∷ 107 ∷ 32
        ∷ 69 ∷ 120 ∷ 99 ∷ 101 ∷ 112 ∷ 116 ∷ 105 ∷ 111 ∷ 110 ∷ [])
    else if except_num == 18
    then error_text (
        77 ∷ 97 ∷ 99 ∷ 104 ∷ 105 ∷ 110 ∷ 101 ∷ 45 ∷ 67 ∷ 104 ∷ 101 ∷ 99 ∷ 107 ∷ 32 ∷ 69 ∷ 120 ∷ 99
        ∷ 101 ∷ 112 ∷ 116 ∷ 105 ∷ 111 ∷ 110 ∷ [])
    else if except_num == 19
    then error_text (
        83 ∷ 73 ∷ 77 ∷ 68 ∷ 32 ∷ 70 ∷ 108 ∷ 111 ∷ 97 ∷ 116 ∷ 105 ∷ 110 ∷ 103 ∷ 45 ∷ 80 ∷ 111 ∷ 105
        ∷ 110 ∷ 116 ∷ 32 ∷ 69 ∷ 120 ∷ 99 ∷ 101 ∷ 112 ∷ 116 ∷ 105 ∷ 111 ∷ 110 ∷ [])
    else default_error

-- "Default irq"
abbrev pub default_irq : List ℕ
default_irq = 68 ∷ 101 ∷ 102 ∷ 97 ∷ 117 ∷ 108 ∷ 116 ∷ 32 ∷ 105 ∷ 114 ∷ 113 ∷ []

-- The formats of page_fault_handler: "Error: Page Fault Exception \n", "Error code: %x", "\nEIP: %x ",
-- "\nCR2: %x " and "\nESP: %x "
abbrev pub page_fault_text : List ℕ
page_fault_text =
    69 ∷ 114 ∷ 114 ∷ 111 ∷ 114 ∷ 58 ∷ 32 ∷ 80 ∷ 97 ∷ 103 ∷ 101 ∷ 32 ∷ 70 ∷ 97 ∷ 117 ∷ 108 ∷ 116 ∷ 32
    ∷ 69 ∷ 120 ∷ 99 ∷ 101 ∷ 112 ∷ 116 ∷ 105 ∷ 111 ∷ 110 ∷ 32 ∷ 10 ∷ []

abbrev pub error_code_format : List ℕ
error_code_format = 69 ∷ 114 ∷ 114 ∷ 111 ∷ 114 ∷ 32 ∷ 99 ∷ 111 ∷ 100 ∷ 101 ∷ 58 ∷ 32 ∷ 37 ∷ 120 ∷ []

abbrev pub eip_format : List ℕ
eip_format = 10 ∷ 69 ∷ 73 ∷ 80 ∷ 58 ∷ 32 ∷ 37 ∷ 120 ∷ 32 ∷ []

abbrev pub cr2_format : List ℕ
cr2_format = 10 ∷ 67 ∷ 82 ∷ 50 ∷ 58 ∷ 32 ∷ 37 ∷ 120 ∷ 32 ∷ []

abbrev pub esp_format : List ℕ
esp_format = 10 ∷ 69 ∷ 83 ∷ 80 ∷ 58 ∷ 32 ∷ 37 ∷ 120 ∷ 32 ∷ []
