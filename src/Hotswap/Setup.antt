-- ===== src/Hotswap/Setup.antt =====
-- When hotswap64.asm is called, and what it is to have done.
use mathlib.Core.Path.{subst}
use live_update.Base.{ℕ, ◌+◌, ◌%◌, ◌^◌, ◌≤◌, ◌<◌, ◌≡◌, ap, ◌∙◌, arith}
use live_update.Memory.{Ptr, Mem, get, put, bytes_of, number_of}
use live_update.Memory.Laws.{Apart, Holds, Holds-split, get-Holds, load-store_self}
use live_update.Hotswap.{hotswap64}
use live_update.Hotswap.Processor.{Cpu, Seg, rax, rbx, rcx, rdx, rsi, rdi, rsp, r8, bit, width}
use live_update.Hotswap.Program.{
  Labels, code_descriptor, data_descriptor, gdt32_bytes, gdtr64_bytes, data32_segment,
}
use live_update.Hotswap.Steps.{HasTable}

word_lem : (v : ℕ) → number_of (bytes_of 4 v) ≡ v % 2 ^ 32
unfolding number_of bytes_of
word_lem v = omega arith

-- A `dd` that is set from a register keeps the lower 32 bits.
pub get-put_word : (m : Mem) (a : Ptr) (v : ℕ) → get (put m a 4 v) a 4 ≡ v % 2 ^ 32
unfolding get put bytes_of
get-put_word m a v = ap number_of (load-store_self m a (bytes_of 4 v)) ∙ word_lem v

-- The data stand in the order of the source, in the `size` bytes of code from `code` on.
pub record IsLayout (l : Labels) (code size : Ptr) : Type 0 where
  pub start : code ≤ l.startaddr
  pub boot : l.startaddr + 4 ≡ l.bootaddr
  pub table : l.bootaddr + 4 ≤ l.gdt32
  pub register : l.gdt32 + 24 ≡ l.gdtr64
  pub end : l.gdtr64 + 10 ≤ code + size
  pub small : code + size < 2 ^ 32
  pub compatibility : l.compatibility < 2 ^ 32

-- `hotswap64` is called: in 64-bit code, with a stack of 40 bytes above `s`, and with the table in
-- place. The code is spared by the copy, and lies outside of what is copied and of the stack.
pub record IsCalled (l : Labels) (code size : Ptr) (s : Ptr) (c : Cpu) : Type 0 where
  pub wide : width c.cr0 c.efer c.cs ≡ 64
  pub table : Holds c.mem l.gdt32 gdt32_bytes
  pub register : Holds c.mem l.gdtr64 (gdtr64_bytes l)
  pub sp : c.regs rsp ≡ s + 40
  pub fits : s + 40 < 2 ^ 64
  pub flags : c.flags < 2 ^ 64
  pub spared : Apart code size (c.regs rdi) (c.regs rdx)
  pub source : Apart code size (c.regs rsi) (c.regs rdx)
  pub stack : Apart code size s 40

-- The new kernel has been started: where `hotswap64` says, with the registers and the memory that it
-- says but for the two cells and the stack, in 32-bit code, without paging and without the long mode,
-- and with the data segment in every segment register.
pub record IsLaunched (l : Labels) (s : Ptr) (c final : Cpu) : Type 0 where
  pub entry :
      let (jump, _) =
        hotswap64 (c.regs rdi) (c.regs rsi) (c.regs rdx) (c.regs rcx) (c.regs r8) c.mem in
      (final.rip ≡ jump.entry) × (final.regs rax ≡ jump.magic) × (final.regs rbx ≡ jump.reset_data)
  pub mem :
      (x : Ptr)
      → Apart l.startaddr 8 x 1
      → Apart s 40 x 1
      → final.mem x
        ≡ (hotswap64 (c.regs rdi) (c.regs rsi) (c.regs rdx) (c.regs rcx) (c.regs r8) c.mem).1 x
  pub narrow : width final.cr0 final.efer final.cs ≡ 32
  pub paging : bit 31 final.cr0 ≡ 0
  pub long : bit 8 final.efer ≡ 0
  pub segs : (q : Seg) → final.segs q ≡ data32_segment

-- The data of the source, as the processor reads it.
pub table_lem :
    (m : Mem) (l : Labels)
    → l.gdt32 < 2 ^ 32
    → Holds m l.gdt32 gdt32_bytes
    → Holds m l.gdtr64 (gdtr64_bytes l)
    → HasTable m l
unfolding bytes_of number_of get
table_lem m l small table register =
    let (_, rest) = Holds-split m l.gdt32 (bytes_of 8 0) _ table in
    let (code, data_segment) = Holds-split m (l.gdt32 + 8) code_descriptor data_descriptor rest in
    let (limit, base) = Holds-split m l.gdtr64 (bytes_of 2 23) (bytes_of 8 l.gdt32) register in
    let shift : l.gdt32 + 8 + 8 ≡ l.gdt32 + 16 = omega arith in
    record {
      limit = get-Holds m l.gdtr64 2 23 limit (omega arith);
      base = get-Holds m (l.gdtr64 + 2) 8 l.gdt32 base (omega arith);
      code = ap number_of code;
      data_segment = subst (λ a. get m a 8 ≡ 0xcf92000000ffff) shift (ap number_of data_segment);
    }
