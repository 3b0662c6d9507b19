-- ===== src/Hotswap/Steps.antt =====
-- What `hotswap_amd64` and `begin_enter_protected` of hotswap64.asm do to the processor.
use live_update.Base.{
  ℕ, ◌+◌, ◌-◌, ◌*◌, ◌/◌, ◌%◌, ◌^◌, ◌≤◌, ◌<◌, ◌≡◌, refl, some, ◌==◌, if◌then◌else◌, arith, ◌∙◌,
}
use live_update.Memory.{Ptr, Mem, get, put}
use live_update.Memory.Laws.{Apart, get-put_self, get-put_other, get-cong, put-outside}
use live_update.Hotswap.{copy_forward}
use live_update.Hotswap.Processor.{
  Cpu, rax, rcx, rdx, rsi, rdi, rsp, r8, bit, set, rdx, number_of_seg, width, step, run, descriptor,
  interrupt_return, return_to, push,
}
use live_update.Hotswap.Program.{
  Labels, hotswap_amd64, begin_enter_protected, code32_segment, data32_segment,
}

module _ (l : Labels) (c : Cpu) where
  -- The processor behind `rep movsb`.
  abbrev pub cells : Mem
  cells = put (put c.mem l.startaddr 4 (c.regs rcx)) l.bootaddr 4 (c.regs r8)

  abbrev pub copied : Cpu
  copied =
      let n = c.regs rdx in
      set rcx 0 (
        set rsi (c.regs rsi + n) (
          set rdi (c.regs rdi + n) (
            set rcx n (
              set rax (c.regs r8) (record c {
                flags = c.flags - bit 10 c.flags * 2 ^ 10;
                mem = copy_forward n (c.regs rsi) (c.regs rdi) cells;
              })))))

  pub run-hotswap_amd64 : width c.cr0 c.efer c.cs ≡ 64 → run 64 (hotswap_amd64 l) c ≡ some copied
  unfolding run step
  run-hotswap_amd64 wide =
      let forward : (c.flags - bit 10 c.flags * 2 ^ 10) / 2 ^ 10 % 2 ≡ 0 = omega arith in
      rw (wide, forward) refl

abbrev pub code_number : ℕ
code_number = 0xcf9a000000ffff

abbrev pub data_number : ℕ
data_number = 0xcf92000000ffff

-- The data of hotswap64.asm, as the processor reads it.
pub record HasTable (m : Mem) (l : Labels) : Type 0 where
  pub limit : get m l.gdtr64 2 ≡ 23
  pub base : get m (l.gdtr64 + 2) 8 ≡ l.gdt32
  pub code : get m (l.gdt32 + 8) 8 ≡ code_number
  pub data_segment : get m (l.gdt32 + 16) 8 ≡ data_number

module _ (l : Labels) (c : Cpu) (s : Ptr) where
  -- What the five pushes leave, from `s` on.
  abbrev pub stacked : Mem
  stacked =
      put
        (put
          (put (put (put c.mem (s + 32) 8 data32_segment) (s + 24) 8 (s + 32)) (s + 16) 8 c.flags)
          (s + 8) 8 code32_segment)
        s 8 l.compatibility

  pub record IsStacked (m : Mem) : Type 0 where
    pub target : get m s 8 ≡ l.compatibility
    pub code : get m (s + 8) 8 ≡ code32_segment
    pub flags : get m (s + 16) 8 ≡ c.flags
    pub sp : get m (s + 24) 8 ≡ s + 32
    pub data_segment : get m (s + 32) 8 ≡ data32_segment

  pub stacked-IsStacked :
      l.compatibility < 2 ^ 32 → c.flags < 2 ^ 64 → s + 40 < 2 ^ 64 → IsStacked stacked
  stacked-IsStacked small flags fits =
      let m1 = put c.mem (s + 32) 8 data32_segment in
      let m2 = put m1 (s + 24) 8 (s + 32) in
      let m3 = put m2 (s + 16) 8 c.flags in
      let m4 = put m3 (s + 8) 8 code32_segment in
      record {
        target = get-put_self m4 s 8 l.compatibility (omega arith);
        code =
            get-put_other m4 s 8 l.compatibility (s + 8) 8 (omega arith)
            ∙ get-put_self m3 (s + 8) 8 code32_segment (omega arith);
        flags =
            get-put_other m4 s 8 l.compatibility (s + 16) 8 (omega arith)
            ∙ get-put_other m3 (s + 8) 8 code32_segment (s + 16) 8 (omega arith)
            ∙ get-put_self m2 (s + 16) 8 c.flags (omega arith);
        sp =
            get-put_other m4 s 8 l.compatibility (s + 24) 8 (omega arith)
            ∙ get-put_other m3 (s + 8) 8 code32_segment (s + 24) 8 (omega arith)
            ∙ get-put_other m2 (s + 16) 8 c.flags (s + 24) 8 (omega arith)
            ∙ get-put_self m1 (s + 24) 8 (s + 32) (omega arith);
        data_segment =
            get-put_other m4 s 8 l.compatibility (s + 32) 8 (omega arith)
            ∙ get-put_other m3 (s + 8) 8 code32_segment (s + 32) 8 (omega arith)
            ∙ get-put_other m2 (s + 16) 8 c.flags (s + 32) 8 (omega arith)
            ∙ get-put_other m1 (s + 24) 8 (s + 32) (s + 32) 8 (omega arith)
            ∙ get-put_self c.mem (s + 32) 8 data32_segment (omega arith);
      }

  pub stacked-outside : (x : Ptr) → Apart s 40 x 1 → stacked x ≡ c.mem x
  stacked-outside x h =
      put-outside _ s 8 l.compatibility x (omega arith)
      ∙ put-outside _ (s + 8) 8 code32_segment x (omega arith)
      ∙ put-outside _ (s + 16) 8 c.flags x (omega arith)
      ∙ put-outside _ (s + 24) 8 (s + 32) x (omega arith)
      ∙ put-outside c.mem (s + 32) 8 data32_segment x (omega arith)

-- Where the table's data stays, it is the table.
pub HasTable-cong :
    {m m' : Mem} {l : Labels}
    → ((x : Ptr) → l.gdt32 ≤ x → x < l.gdt32 + 24 → m' x ≡ m x)
    → ((x : Ptr) → l.gdtr64 ≤ x → x < l.gdtr64 + 10 → m' x ≡ m x)
    → HasTable m l
    → HasTable m' l
HasTable-cong {m} {m'} {l} gdt gdtr h = record {
  limit = get-cong m m' l.gdtr64 2 (λ x p q. gdtr x p (omega arith)) ∙ h.limit;
  base = get-cong m m' (l.gdtr64 + 2) 8 (λ x p q. gdtr x (omega arith) (omega arith)) ∙ h.base;
  code = get-cong m m' (l.gdt32 + 8) 8 (λ x p q. gdt x (omega arith) (omega arith)) ∙ h.code;
  data_segment =
      get-cong m m' (l.gdt32 + 16) 8 (λ x p q. gdt x (omega arith) (omega arith)) ∙ h.data_segment;
}

-- The table's descriptors are loaded.
pub code_loaded :
    {m : Mem} {l : Labels}
    → HasTable m l
    → descriptor m 23 l.gdt32 code32_segment ≡ some code_number
unfolding descriptor
code_loaded table = rw (table.code) refl

pub data_loaded :
    {m : Mem} {l : Labels}
    → HasTable m l
    → descriptor m 23 l.gdt32 data32_segment ≡ some data_number
unfolding descriptor
data_loaded table = rw (table.data_segment) refl

-- `iretq` from a stack at `s` whose selectors choose the code and the data of the table.
module _ (l : Labels) (c p : Cpu) (s : Ptr) where
  abbrev pub returned : Cpu
  returned = set rsp (s + 32) (record p {
    flags = c.flags;
    cs = code_number;
    segs = λ q. if number_of_seg q == 2 then data32_segment else p.segs q;
    rip = l.compatibility;
  })

  interrupt_return_lem :
      HasTable p.mem l
      → p.gdt_limit ≡ 23
      → p.gdt_base ≡ l.gdt32
      → IsStacked l c s p.mem
      → p.regs rsp ≡ s
      → interrupt_return p ≡ some returned
  unfolding interrupt_return return_to
  interrupt_return_lem table limit base stack sp =
      rw
        (
          interrupt_return,
          sp,
          stack.target,
          stack.code,
          stack.flags,
          stack.sp,
          stack.data_segment,
          return_to,
          limit,
          base,
          code_loaded table,
          data_loaded table,
        )
        refl

-- The code of the table is 32 bits wide, whatever CR0 and EFER.
pub narrow : (cr0 efer : ℕ) → width cr0 efer code_number ≡ 32
unfolding width
narrow cr0 efer = ground arith

-- From `begin_enter_protected` on.
module _ (l : Labels) (c : Cpu) (s : Ptr) where
  -- The processor before `iretq`.
  abbrev pub pushed : Cpu
  pushed =
      let c1 = record c {
        gdt_limit = get c.mem l.gdtr64 2;
        gdt_base = get c.mem (l.gdtr64 + 2) 8;
      } in
      let c2 = push data32_segment c1 in
      let c3 = push (c2.regs rsp) c2 in
      let c4 = push c3.flags c3 in
      let c5 = set rcx (l.compatibility % 2 ^ 32) (push code32_segment c4) in push (c5.regs rcx) c5

  pub pushed-mem :
      c.regs rsp ≡ s + 40
      → s + 40 < 2 ^ 64
      → l.compatibility < 2 ^ 32
      → (pushed.mem ≡ stacked l c s) × (pushed.regs rsp ≡ s)
  pushed-mem sp fits small =
      let sp1 : (s + 40 + (2 ^ 64 - 8)) % 2 ^ 64 ≡ s + 32 = omega arith in
      let sp2 : (s + 32 + (2 ^ 64 - 8)) % 2 ^ 64 ≡ s + 24 = omega arith in
      let sp3 : (s + 24 + (2 ^ 64 - 8)) % 2 ^ 64 ≡ s + 16 = omega arith in
      let sp4 : (s + 16 + (2 ^ 64 - 8)) % 2 ^ 64 ≡ s + 8 = omega arith in
      let sp5 : (s + 8 + (2 ^ 64 - 8)) % 2 ^ 64 ≡ s = omega arith in
      let cut : l.compatibility % 2 ^ 32 ≡ l.compatibility = omega arith in
      rw (sp, sp1, sp2, sp3, sp4, sp5, cut) (refl, refl)

  pub run-begin_enter_protected :
      width c.cr0 c.efer c.cs ≡ 64
      → HasTable c.mem l
      → HasTable pushed.mem l
      → IsStacked l c s pushed.mem
      → pushed.regs rsp ≡ s
      → run 64 (begin_enter_protected l) c ≡ some (returned l c pushed s)
  unfolding run step
  run-begin_enter_protected wide before table stack sp =
      rw (wide, interrupt_return_lem l c pushed s table before.limit before.base stack sp) refl
