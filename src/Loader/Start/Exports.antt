-- ===== src/Loader/Start/Exports.antt =====
-- What the loader hands to the hypervisor: the functions `imp_…` of loader/efi/loader.cc.
use hypervi.Base.{ℕ, List, Option}
use hypervi.Loader.Allocator.{num_pages, out_address}
use hypervi.Loader.Gfx.{Images, Blit}
use hypervi.Loader.Input.{Keyboard}
use hypervi.Loader.Console.{Console, efi_console_write, efi_console_hex}
use hypervi.Loader.Mp.{efi_mp_whoami, efi_mp_get_core_count, efi_mp_call_on_all_cores}

module _ (I : Images) where
  unfoldable pub imp_log :
      (K : Keyboard) (wait fuel msg whoami : ℕ) → Console → Option (Console × List Blit)
  imp_log K wait fuel msg whoami c = efi_console_write I K wait fuel msg whoami c

  unfoldable pub imp_log_hex :
      (K : Keyboard) (wait fuel buff value whoami : ℕ) → Console → Option (Console × List Blit)
  imp_log_hex K wait fuel buff value whoami c = efi_console_hex I K wait fuel buff value whoami c

unfoldable pub imp_core_whoami : (mp number : ℕ) → Option ℕ
imp_core_whoami mp number = efi_mp_whoami mp number

unfoldable pub imp_core_count : (mp processors : ℕ) → Option ℕ
imp_core_count mp processors = efi_mp_get_core_count mp processors

unfoldable pub imp_call_on_all_cores :
    {S : Type 0} → (mp processors : ℕ) (function : S → S) → S → Option S
imp_call_on_all_cores mp processors function s = efi_mp_call_on_all_cores mp processors function s

-- `imp_malloc`: the pages asked for, and the result.
unfoldable pub imp_malloc : (answer : Option ℕ) (size : ℕ) → ℕ × ℕ
imp_malloc answer size = (num_pages size, out_address answer 0)
