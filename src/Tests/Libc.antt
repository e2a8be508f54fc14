-- ===== src/Tests/Libc.antt =====
-- The C library on small strings.
use hypervi.Base.{ℕ, ◌≡◌, refl, arith, List, [], ◌∷◌, ◌==◌, if◌then◌else◌, some}
use hypervi.Freestanding.Memory.{Bytes}
use hypervi.Freestanding.Libc.{strlen}
use hypervi.Freestanding.Libc.Strings.{strlen_lem}
use hypervi.Freestanding.Libc.Itoa.{itoa}
use hypervi.Freestanding.Libc.Number.{Printed, itoa-Printed}

-- "ab" at 0, and 0 elsewhere.
abbrev one_string : Bytes
one_string p =
    if p == 0 then 97 else if p == 1 then 98 else if p == 8 then 97 else if p == 9 then 99 else 0

abbrev ab : List ℕ
ab = 97 ∷ 98 ∷ []

strlen_lem_example : strlen 3 0 one_string ≡ some 3
strlen_lem_example =
    strlen_lem one_string ab 3 0 (refl, omega arith, (refl, omega arith, refl)) (omega arith)

-- 0xbeef in radix 16.
itoa-Printed_example : Printed 16 0xbeef 4096 4 one_string (itoa 0xbeef 4096 16 0 1 one_string)
itoa-Printed_example =
    itoa-Printed 16 0xbeef 4096 1 0 3 one_string (omega arith) (omega arith) (omega arith)
      (omega arith) (omega arith)
