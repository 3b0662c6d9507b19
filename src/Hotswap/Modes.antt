-- ===== src/Hotswap/Modes.antt =====
-- What `compatibility_mode` and `protected_mode` of hotswap64.asm do to the processor.
use live_update.Base.{
  ℕ, ◌+◌, ◌*◌, ◌/◌, ◌%◌, ◌^◌, ◌≡◌, refl, List, [], ◌∷◌, eq→==, some, ◌==◌, if◌then◌else◌, arith,
  ◌∙◌,
}
use live_update.Memory.{get}
use live_update.Hotswap.{soft_reset_magic}
use live_update.Hotswap.Processor.{
  Cpu, Seg, Instr, mov_seg, mov16, mov32, load32, jmp_at, rax, rcx, rdx, without_bit, set, rbx, rdx,
  ss, ds, es, fs, gs, efer_msr, number_of_seg, width, step, run, descriptor,
}
use live_update.Hotswap.Program.{Labels, compatibility_mode, protected_mode, data32_segment}
use live_update.Hotswap.Steps.{HasTable, code_number, data_number, narrow, code_loaded, data_loaded}

-- From `compatibility_mode` on.
module _ (l : Labels) (c : Cpu) where
  abbrev pub unpaged : Cpu
  unpaged =
      let c1 = set rcx (without_bit 31 (c.cr0 % 2 ^ 32)) (set rcx (c.cr0 % 2 ^ 32) c) in
      let c2 = set rcx (efer_msr % 2 ^ 32) c1 in
      let c3 = set rdx (c.efer / 2 ^ 32) (set rax (c.efer % 2 ^ 32) c2) in
      let c4 = set rax (without_bit 8 (c.efer % 2 ^ 32)) c3 in
      record c4 {
        cr0 = without_bit 31 (c.cr0 % 2 ^ 32) % 2 ^ 32;
        efer = c.efer / 2 ^ 32 % 2 ^ 32 * 2 ^ 32 + without_bit 8 (c.efer % 2 ^ 32) % 2 ^ 32;
        cs = code_number;
        rip = l.protected;
      }

  pub run-compatibility_mode :
      c.cs ≡ code_number
      → HasTable c.mem l
      → c.gdt_limit ≡ 23
      → c.gdt_base ≡ l.gdt32
      → run 32 (compatibility_mode l) c ≡ some unpaged
  unfolding run step
  run-compatibility_mode code table limit base =
      rw
        (
          code,
          narrow c.cr0 c.efer,
          narrow unpaged.cr0 c.efer,
          narrow unpaged.cr0 unpaged.efer,
          limit,
          base,
          code_loaded table,
        )
        refl

-- One segment register is loaded with the selector of the data.
abbrev with_seg : Seg → Cpu → Cpu
with_seg s c = record c {
  segs = λ q. if number_of_seg q == number_of_seg s then data32_segment else c.segs q;
}

-- The processor runs the code of the table in the data of `l`, with the selector of the data in `cx`.
pub record IsTabled (l : Labels) (c : Cpu) : Type 0 where
  pub code : c.cs ≡ code_number
  pub table : HasTable c.mem l
  pub limit : c.gdt_limit ≡ 23
  pub base : c.gdt_base ≡ l.gdt32

IsTabled-with_seg : {l : Labels} {c : Cpu} (s : Seg) → IsTabled l c → IsTabled l (with_seg s c)
IsTabled-with_seg s t = record { code = t.code; table = t.table; limit = t.limit; base = t.base }

run-step :
    (bits : ℕ) (i : Instr) (is : List Instr) (c c1 : Cpu)
    → width c.cr0 c.efer c.cs ≡ bits
    → step i c ≡ some c1
    → run bits (i ∷ is) c ≡ run bits is c1
unfolding run
run-step bits i is c c1 wide h = rw (wide, eq→== bits bits refl, h) refl

IsTabled-narrow : {l : Labels} {c : Cpu} → IsTabled l c → width c.cr0 c.efer c.cs ≡ 32
IsTabled-narrow {c} t = rw (t.code) (narrow c.cr0 c.efer)

run-mov_seg :
    (l : Labels) (s : Seg) (is : List Instr) (c : Cpu)
    → IsTabled l c
    → c.regs rcx % 2 ^ 16 ≡ data32_segment
    → run 32 (mov_seg s rcx ∷ is) c ≡ run 32 is (with_seg s c)
unfolding step
run-mov_seg l s is c t selector =
    let loaded : descriptor c.mem c.gdt_limit c.gdt_base data32_segment ≡ some data_number =
      rw (t.limit, t.base) (data_loaded t.table) in
    run-step 32 (mov_seg s rcx) is c (with_seg s c) (IsTabled-narrow t) (rw (selector, loaded) refl)

-- From `protected_mode` on.
module _ (l : Labels) (c : Cpu) where
  abbrev marked : Cpu
  marked = set rcx (c.regs rcx / 2 ^ 16 * 2 ^ 16 + data32_segment % 2 ^ 16) c

  abbrev segmented : Cpu
  segmented = with_seg gs (with_seg fs (with_seg es (with_seg ds (with_seg ss marked))))

  abbrev launch : List Instr
  launch = mov32 rax soft_reset_magic ∷ load32 rbx l.bootaddr ∷ jmp_at l.startaddr ∷ []

  abbrev pub started : Cpu
  started =
      let c1 = set rax (soft_reset_magic % 2 ^ 32) segmented in
      record (set rbx (get c.mem l.bootaddr 4) c1) { rip = get c.mem l.startaddr 4 }

  run-launch : IsTabled l c → run 32 launch segmented ≡ some started
  unfolding run step
  run-launch t = rw (IsTabled-narrow t) refl

  pub run-protected_mode : IsTabled l c → run 32 (protected_mode l) c ≡ some started
  unfolding step
  run-protected_mode t =
      let cx : marked.regs rcx % 2 ^ 16 ≡ data32_segment = omega arith in
      let i2 = mov_seg gs rcx ∷ launch in
      let i3 = mov_seg fs rcx ∷ i2 in
      let i4 = mov_seg es rcx ∷ i3 in
      let i5 = mov_seg ds rcx ∷ i4 in
      let c1 = with_seg ss marked in
      let c2 = with_seg ds c1 in
      let c3 = with_seg es c2 in
      let t1 : IsTabled l marked = record {
        code = t.code;
        table = t.table;
        limit = t.limit;
        base = t.base;
      } in
      let t2 = IsTabled-with_seg {c = marked} ss t1 in
      let t3 = IsTabled-with_seg {c = c1} ds t2 in
      let t4 = IsTabled-with_seg {c = c2} es t3 in
      let t5 = IsTabled-with_seg {c = c3} fs t4 in
      run-step 32 (mov16 rcx data32_segment) (mov_seg ss rcx ∷ i5) c marked (IsTabled-narrow t) refl
      ∙ run-mov_seg l ss i5 marked t1 cx
      ∙ run-mov_seg l ds i4 c1 t2 cx
      ∙ run-mov_seg l es i3 c2 t3 cx
      ∙ run-mov_seg l fs i2 c3 t4 cx
      ∙ run-mov_seg l gs launch (with_seg fs c3) t5 cx
      ∙ run-launch t
