-- ===== src/Loader/Mp.antt =====
-- The multiprocessor service: loader/efi/mp.cc. The service and its answers are the firmware's;
-- `none` is a call behind a null pointer.
use hypervi.Base.{ℕ, Option, none, some, ◌>>=◌, ◌==◌, if◌then◌else◌}
use hypervi.Loader.Allocator.{out_address}

-- `mp`, behind `locate_protocol`.
unfoldable pub efi_mp_init : (answer : Option ℕ) (mp : ℕ) → ℕ
efi_mp_init answer mp = out_address answer mp

unfoldable pub efi_mp_whoami : (mp number : ℕ) → Option ℕ
efi_mp_whoami mp number = if mp == 0 then none else some number

unfoldable pub efi_mp_get_core_count : (mp processors : ℕ) → Option ℕ
efi_mp_get_core_count mp processors = if mp == 0 then none else some processors

-- `proc` runs on the calling core, and the function returns before `startup_all_aps`, whatever the
-- number of cores.
unfoldable pub efi_mp_call_on_all_cores :
    {S : Type 0} → (mp processors : ℕ) (proc : S → S) → S → Option S
efi_mp_call_on_all_cores mp processors proc s =
    let called = proc s in
    (do
      core_count ← efi_mp_get_core_count mp processors
      if core_count == 1 then some called else some called)
