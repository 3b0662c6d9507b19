-- ===== src/Examples/Takeovers.antt =====
-- The code of hotswap64.asm at 0x8000 replaces a kernel of 80 bytes.
use live_update.Base.{◌≡◌, refl, inl, inr, some, arith}
use live_update.Memory.{Mem, load, store, bytes_of, number_of}
use live_update.Hotswap.Processor.{Cpu, rax, rbx, rcx, rdx, rsi, rdi, rsp, r8, width}
use live_update.Hotswap.Program.{Labels, gdt32_bytes, gdtr64_bytes, run_hotswap64}
use live_update.Hotswap.Setup.{IsLayout, IsCalled, IsLaunched}
use live_update.Hotswap.Takeover.{run_hotswap64-IsLaunched}
use live_update.Examples.Updates.{blob_memory}

abbrev labels : Labels
labels = record {
  startaddr = 0x8040;
  bootaddr = 0x8044;
  compatibility = 0x8050;
  protected = 0x8080;
  gdt32 = 0x80c0;
  gdtr64 = 0x80d8;
}

abbrev with_code : Mem
with_code = store (store blob_memory 0x80c0 gdt32_bytes) 0x80d8 (gdtr64_bytes labels)

abbrev cpu : Cpu
cpu = record {
  regs = λ q. elim q [
    | rax ↦ 0
    | rbx ↦ 0
    | rcx ↦ 0x10000
    | rdx ↦ 80
    | rsi ↦ 0xb064
    | rdi ↦ 0x1000
    | rsp ↦ 0x70028
    | r8 ↦ 0x7000
  ];
  flags = 2;
  cs = 0xaf9a000000ffff;
  segs = λ q. 0;
  cr0 = 0x80000011;
  efer = 0x500;
  gdt_limit = 0;
  gdt_base = 0;
  rip = 0x8000;
  mem = with_code;
}

labels-IsLayout : IsLayout labels 0x8000 0x100
labels-IsLayout = record {
  start = omega arith;
  boot = refl;
  table = omega arith;
  register = refl;
  end = omega arith;
  small = omega arith;
  compatibility = omega arith;
}

cpu-IsCalled : IsCalled labels 0x8000 0x100 0x70000 cpu
unfolding width load store bytes_of number_of
cpu-IsCalled = record {
  wide = refl;
  table = refl;
  register = refl;
  sp = refl;
  fits = omega arith;
  flags = omega arith;
  spared = inr (omega arith);
  source = inl (omega arith);
  stack = inl (omega arith);
}

run_hotswap64-IsLaunched_example :
    (end : Cpu) × (run_hotswap64 labels cpu ≡ some end) × IsLaunched labels 0x70000 cpu end
run_hotswap64-IsLaunched_example =
    run_hotswap64-IsLaunched labels 0x8000 0x100 0x70000 cpu labels-IsLayout cpu-IsCalled
