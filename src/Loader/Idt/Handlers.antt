-- ===== src/Loader/Idt/Handlers.antt =====
-- The handlers of the hooked exceptions, which the stubs of idt.S call: loader/efi/idt.cc.
use Prim.Native.String.{String}
use hypervi.Base.{ℕ, List, [], ◌∷◌}

-- `idt_ctx`
pub record IdtCtx : Type 0 where
  pub r15 : ℕ
  pub r14 : ℕ
  pub r13 : ℕ
  pub r12 : ℕ
  pub r11 : ℕ
  pub r10 : ℕ
  pub r9 : ℕ
  pub r8 : ℕ
  pub rdi : ℕ
  pub rsi : ℕ
  pub rbp : ℕ
  pub rbx : ℕ
  pub rdx : ℕ
  pub rcx : ℕ
  pub rax : ℕ
  pub error_code : ℕ
  pub rip : ℕ
  pub cs : ℕ
  pub rflags : ℕ
  pub rsp : ℕ
  pub ss : ℕ

-- A call of `log` or `log_hex`.
pub data Logged : Type 0 where
  log : (message : String) → Logged
  log_hex : (message : String) (value : ℕ) → Logged

-- How a handler ends: with the context that the stub returns to, or never.
pub data HandlerOutcome : Type 0 where
  returns : List Logged → IdtCtx → HandlerOutcome
  hangs : List Logged → HandlerOutcome

unfoldable pub efi_idt_pagefault : (read_cr2 : ℕ) → IdtCtx → HandlerOutcome
efi_idt_pagefault read_cr2 ctx =
    returns
      (log "\n\n\noh no, page fault :((((((((((((((((((((((((((((\n"
        ∷ log_hex "naughty address: " read_cr2
        ∷ [])
      ctx

unfoldable pub efi_idt_invalid_opcode : IdtCtx → HandlerOutcome
efi_idt_invalid_opcode ctx =
    returns
      (log "\n\n\noh no, invalid instruction :((((((((((((((((((((((((((((\n"
        ∷ log_hex "naughty rip: " ctx.rip
        ∷ [])
      ctx

-- The loop behind the log never ends.
unfoldable pub efi_idt_general_protection_fault : (read_cr2 : ℕ) → IdtCtx → HandlerOutcome
efi_idt_general_protection_fault read_cr2 ctx = hangs (
    log "\n\n\noh no, general protection fault :((((((((((((((((((((((((((((\n"
    ∷ log_hex "naughty error: " ctx.error_code
    ∷ log_hex "naughty address: " read_cr2
    ∷ [])

unfoldable pub efi_idt_stack_segment_fault : IdtCtx → HandlerOutcome
efi_idt_stack_segment_fault ctx =
    returns
      (log "\n\n\noh no, stack segment fault :((((((((((((((((((((((((((((\n"
        ∷ log_hex "naughty rip: " ctx.rip
        ∷ [])
      ctx

unfoldable pub efi_idt_invalid_tss : IdtCtx → HandlerOutcome
efi_idt_invalid_tss ctx =
    returns
      (log "\n\n\noh no, invalid tss :((((((((((((((((((((((((((((\n"
        ∷ log_hex "naughty rip: " ctx.rip
        ∷ [])
      ctx

unfoldable pub efi_idt_segment_not_present : IdtCtx → HandlerOutcome
efi_idt_segment_not_present ctx =
    returns
      (log "\n\n\noh no, segment not present :((((((((((((((((((((((((((((\n"
        ∷ log_hex "naughty rip: " ctx.rip
        ∷ [])
      ctx

unfoldable pub efi_idt_double_fault : IdtCtx → HandlerOutcome
efi_idt_double_fault ctx =
    returns
      (log "\n\n\noh no, double fault :((((((((((((((((((((((((((((\n"
        ∷ log_hex "naughty rip: " ctx.rip
        ∷ [])
      ctx
