-- ===== src/Freestanding/Libc.antt =====
-- The C library under freestanding/libc, over memory as bytes. A loop that reads on to a
-- condition in memory runs on fuel: `none` means that it still ran.
pub mod Itoa
pub mod Strings
pub mod Reverse
pub mod Digits
pub mod Number
use hypervi.Base.{
  ℕ, zero, suc, ◌+◌, ◌-◌, Bool, ◌&&◌, not, Option, none, some, ◌==◌, ◌/=◌, if◌then◌else◌, truth,
  ltb, ℤ, sub_ℕ,
}
use hypervi.Freestanding.Memory.{Bytes}

-- `while (*(str++) != '\0'); return str - orig_ptr;`
unfoldable pub strlen_from : (fuel orig_ptr str : ℕ) → Bytes → Option ℕ
strlen_from zero orig_ptr str m = none
strlen_from (suc fuel) orig_ptr str m =
    let rest = strlen_from fuel orig_ptr (str + 1) m in
    if m str /= 0 then rest else some (str + 1 - orig_ptr)

unfoldable pub strlen : (fuel str : ℕ) → Bytes → Option ℕ
unfolding strlen_from
strlen fuel str m = strlen_from fuel str str m

-- The bytes are read as `unsigned char`, and their difference is an `int`.
unfoldable pub strcmp : (fuel a b : ℕ) → Bytes → Option ℤ
strcmp zero a b m = none
strcmp (suc fuel) a b m =
    let rest = strcmp fuel (a + 1) (b + 1) m in
    if truth (m a) && not (m a /= m b) then rest else some (sub_ℕ (m a) (m b))
