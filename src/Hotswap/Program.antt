-- ===== src/Hotswap/Program.antt =====
-- hotswap64.asm: its code in four pieces, one behind each label, and its data.
use live_update.Base.{ℕ, Option, List, [], ◌∷◌, ◌++◌}
use live_update.Memory.{Ptr, bytes_of}
use live_update.Hotswap.{soft_reset_magic}
use live_update.Hotswap.Processor.{
  Cpu, Instr, rax, rbx, rcx, rdx, rsp, r8, ss, ds, es, fs, gs, mov, mov32, mov16, store32, load32,
  push_imm, push_reg, pushf, iretq, cld, rep_movsb, rdmsr, wrmsr, lgdt, from_cr0, to_cr0, clear_bit,
  mov_seg, jmp_far, jmp_at, efer_msr, after, run, reached,
}

-- Where the assembler puts the labels.
pub record Labels : Type 0 where
  pub startaddr : Ptr
  pub bootaddr : Ptr
  pub compatibility : Ptr
  pub protected : Ptr
  pub gdt32 : Ptr
  pub gdtr64 : Ptr

abbrev pub code32_segment : ℕ
code32_segment = 0x08

abbrev pub data32_segment : ℕ
data32_segment = 0x10

module _ (l : Labels) where
  abbrev pub hotswap_amd64 : List Instr
  hotswap_amd64 =
      mov rax r8
      ∷ store32 l.startaddr rcx
      ∷ store32 l.bootaddr rax
      ∷ mov rcx rdx
      ∷ cld
      ∷ rep_movsb
      ∷ []

  abbrev pub begin_enter_protected : List Instr
  begin_enter_protected =
      lgdt l.gdtr64
      ∷ push_imm data32_segment
      ∷ push_reg rsp
      ∷ pushf
      ∷ push_imm code32_segment
      ∷ mov32 rcx l.compatibility
      ∷ push_reg rcx
      ∷ iretq
      ∷ []

  abbrev pub compatibility_mode : List Instr
  compatibility_mode =
      from_cr0 rcx
      ∷ clear_bit rcx 31
      ∷ to_cr0 rcx
      ∷ mov32 rcx efer_msr
      ∷ rdmsr
      ∷ clear_bit rax 8
      ∷ wrmsr
      ∷ jmp_far code32_segment l.protected
      ∷ []

  abbrev pub protected_mode : List Instr
  protected_mode =
      mov16 rcx data32_segment
      ∷ mov_seg ss rcx
      ∷ mov_seg ds rcx
      ∷ mov_seg es rcx
      ∷ mov_seg fs rcx
      ∷ mov_seg gs rcx
      ∷ mov32 rax soft_reset_magic
      ∷ load32 rbx l.bootaddr
      ∷ jmp_at l.startaddr
      ∷ []

  -- From the first instruction to the jump to the new kernel.
  unfoldable pub run_hotswap64 : Cpu → Option Cpu
  run_hotswap64 c = after (run 64 hotswap_amd64 c) λ c1.
      after (run 64 begin_enter_protected c1) λ c2. after (reached l.compatibility c2) λ c3.
        after (run 32 compatibility_mode c3)
          λ c4. after (reached l.protected c4) λ c5. run 32 protected_mode c5

  -- The data: the GDT register's limit and base.
  abbrev pub gdtr64_bytes : List ℕ
  gdtr64_bytes = bytes_of 2 23 ++ bytes_of 8 l.gdt32

-- The GDT: the null descriptor, one of 32-bit code, and one of data.
abbrev pub code_descriptor : List ℕ
code_descriptor = 0xff ∷ 0xff ∷ 0 ∷ 0 ∷ 0 ∷ 0x9a ∷ 0xcf ∷ 0 ∷ []

abbrev pub data_descriptor : List ℕ
data_descriptor = 0xff ∷ 0xff ∷ 0 ∷ 0 ∷ 0 ∷ 0x92 ∷ 0xcf ∷ 0 ∷ []

abbrev pub gdt32_bytes : List ℕ
gdt32_bytes = bytes_of 8 0 ++ (code_descriptor ++ data_descriptor)
