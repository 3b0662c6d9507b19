-- ===== src/Hotswap/Takeover.antt =====
-- The code of hotswap64.asm does what `hotswap64` says.
use mathlib.Core.Path.{subst}
use live_update.Base.{◌+◌, ◌%◌, ◌^◌, ◌≤◌, ◌<◌, ◌≡◌, refl, sym, ap, ◌∙◌, some, eq→==, arith}
use live_update.Memory.{Ptr, get}
use live_update.Memory.Laws.{Apart, get-cong, get-put_other, put-outside}
use live_update.Hotswap.{hotswap64}
use live_update.Hotswap.Copy.{copy_forward-outside, copy_forward-cong}
use live_update.Hotswap.Processor.{Cpu, Seg, ss, ds, es, fs, gs, rcx, rdx, rsi, rdi, rsp, r8}
use live_update.Hotswap.Modes.{
  unpaged, run-compatibility_mode, started, run-protected_mode, IsTabled,
}
use live_update.Hotswap.Setup.{get-put_word, IsLayout, IsCalled, IsLaunched, table_lem}
use live_update.Hotswap.Program.{Labels, run_hotswap64, data32_segment}
use live_update.Hotswap.Steps.{
  HasTable, HasTable-cong, cells, copied, run-hotswap_amd64, stacked, stacked-IsStacked,
  stacked-outside, pushed, pushed-mem, returned, run-begin_enter_protected, narrow, IsStacked,
}

module _ {l : Labels} {code size s : Ptr} {c : Cpu} (layout : IsLayout l code size)
    (called : IsCalled l code size s c) where
  -- The copy and the pushes spare the data.
  copied-spared :
      (x : Ptr)
      → code ≤ x
      → x < code + size
      → Apart l.startaddr 8 x 1
      → (copied l c).mem x ≡ c.mem x
  copied-spared x p q h =
      copy_forward-outside (c.regs rdx) (c.regs rsi) (c.regs rdi) (cells l c) x
        (omega (arith, called.spared))
      ∙ put-outside _ l.bootaddr 4 (c.regs r8) x (omega (arith, layout.boot))
      ∙ put-outside c.mem l.startaddr 4 (c.regs rcx) x (omega arith)

  copied-HasTable : HasTable (copied l c).mem l
  copied-HasTable =
      HasTable-cong
        (λ x p q.
          copied-spared x (omega (arith, layout.start, layout.boot, layout.table))
            (omega (arith, layout.register, layout.end))
            (omega (arith, layout.start, layout.boot, layout.table)))
        (λ x p q.
          copied-spared x (omega (arith, layout.start, layout.boot, layout.table, layout.register))
            (omega (arith, layout.register, layout.end))
            (omega (arith, layout.start, layout.boot, layout.table, layout.register)))
        (table_lem c.mem l (omega (arith, layout.small, layout.register, layout.end)) called.table
          called.register)

  -- The processor before `iretq`: the pushes have written the stack, and nothing else.
  abbrev before_return : Cpu
  before_return = pushed l (copied l c) s

  before_return-mem : (before_return.mem ≡ stacked l (copied l c) s) × (before_return.regs rsp ≡ s)
  before_return-mem = pushed-mem l (copied l c) s called.sp called.fits layout.compatibility

  before_return-outside : (x : Ptr) → Apart s 40 x 1 → before_return.mem x ≡ (copied l c).mem x
  before_return-outside x h =
      ap (λ m. m x) before_return-mem.0 ∙ stacked-outside l (copied l c) s x h

  before_return-spared :
      (x : Ptr) → l.startaddr ≤ x → x < l.gdtr64 + 10 → before_return.mem x ≡ (copied l c).mem x
  before_return-spared x p q =
      before_return-outside x (omega (arith, called.stack, layout.start, layout.end))

  before_return-HasTable : HasTable before_return.mem l
  before_return-HasTable =
      HasTable-cong
        (λ x p q.
          before_return-spared x (omega (arith, layout.boot, layout.table))
            (omega (arith, layout.register)))
        (λ x p q.
          before_return-spared x (omega (arith, layout.boot, layout.table, layout.register)) q)
        copied-HasTable

  cells-read :
      (get (copied l c).mem l.startaddr 4 ≡ c.regs rcx % 2 ^ 32)
      × (get (copied l c).mem l.bootaddr 4 ≡ c.regs r8 % 2 ^ 32)
  cells-read =
      let outside = λ (x : Ptr) (p : l.startaddr ≤ x) (q : x < l.bootaddr + 4).
        copy_forward-outside (c.regs rdx) (c.regs rsi) (c.regs rdi) (cells l c) x (
          omega (
            arith, called.spared, layout.start, layout.boot, layout.table, layout.register,
            layout.end,
          )) in
      (
        get-cong (cells l c) _ l.startaddr 4 (λ x p q. outside x p (omega (arith, layout.boot)))
            ∙ get-put_other _ l.bootaddr 4 (c.regs r8) l.startaddr 4 (omega (arith, layout.boot))
            ∙ get-put_word c.mem l.startaddr (c.regs rcx),
        get-cong (cells l c) _ l.bootaddr 4 (λ x p q. outside x (omega (arith, layout.boot)) q)
            ∙ get-put_word _ l.bootaddr (c.regs r8),
      )

  -- The memory at the jump is that of the copy, but for the cells and the stack.
  copied-mem :
      (x : Ptr)
      → Apart l.startaddr 8 x 1
      → (copied l c).mem x
        ≡ (hotswap64 (c.regs rdi) (c.regs rsi) (c.regs rdx) (c.regs rcx) (c.regs r8) c.mem).1 x
  unfolding hotswap64
  copied-mem x h =
      let same = λ (y : Ptr) (a : Apart l.startaddr 8 y 1).
        put-outside _ l.bootaddr 4 (c.regs r8) y (omega (arith, layout.boot))
        ∙ put-outside c.mem l.startaddr 4 (c.regs rcx) y (omega arith) in
      copy_forward-cong (c.regs rdx) (c.regs rsi) (c.regs rdi) c.mem (cells l c) x
        (λ y p q. same y (
          omega (
            arith, called.source, layout.start, layout.boot, layout.table, layout.register,
            layout.end,
          )))
        (same x h)

  abbrev narrowed : Cpu
  narrowed = unpaged l (returned l (copied l c) before_return s)

  abbrev final : Cpu
  final = started l narrowed

  narrowed-IsTabled : IsTabled l narrowed
  narrowed-IsTabled = record {
    code = refl;
    table = before_return-HasTable;
    limit = copied-HasTable.limit;
    base = copied-HasTable.base;
  }

  run_hotswap64-final : run_hotswap64 l c ≡ some final
  unfolding run_hotswap64
  run_hotswap64-final =
      let k = copied l c in
      let enter =
        run-begin_enter_protected l k s called.wide copied-HasTable before_return-HasTable
          (subst (IsStacked l k s) (sym before_return-mem.0) (
            stacked-IsStacked l k s layout.compatibility (omega (arith, called.flags)) called.fits))
          before_return-mem.1 in
      let narrowing =
        run-compatibility_mode l (returned l k before_return s) refl before_return-HasTable
          copied-HasTable.limit copied-HasTable.base in
      rw
        (
          run-hotswap_amd64 l c called.wide,
          enter,
          eq→== l.compatibility l.compatibility refl,
          narrowing,
          eq→== l.protected l.protected refl,
          run-protected_mode l narrowed narrowed-IsTabled,
        )
        refl

  final-segs : (q : Seg) → final.segs q ≡ data32_segment
  final-segs ss = refl
  final-segs ds = refl
  final-segs es = refl
  final-segs fs = refl
  final-segs gs = refl

  final-IsLaunched : IsLaunched l s c final
  unfolding hotswap64
  final-IsLaunched =
      let spared = before_return-spared in
      record {
        entry = (
          get-cong (copied l c).mem _ l.startaddr 4
                (λ x p q. spared x p (omega (arith, layout.boot, layout.table, layout.register)))
              ∙ cells-read.0,
          refl,
          get-cong (copied l c).mem _ l.bootaddr 4 (λ x p q.
                spared x (omega (arith, layout.boot))
                  (omega (arith, layout.table, layout.register)))
              ∙ cells-read.1,
        );
        mem = λ x p q. before_return-outside x q ∙ copied-mem x p;
        narrow = narrow final.cr0 final.efer;
        paging = omega arith;
        long = omega arith;
        segs = final-segs;
      }

-- The code of hotswap64.asm does what `hotswap64` says. It is called in 64-bit code with the five
-- arguments in registers; its data stand in place, in the order of the source and below 2 ^ 32, and the
-- code lies outside of the source, the destination and the stack. Then the instructions run to the end
-- without a fault, and the last one jumps where `hotswap64` does: at the entry point, with the magic
-- number in `eax` and the address of the reset data in `ebx`, in 32-bit code with paging and the long mode
-- off and the data segment in all segment registers; the memory is what `hotswap64` leaves, but for the
-- two cells in the code and 40 bytes of the stack.
pub run_hotswap64-IsLaunched :
    (l : Labels) (code size s : Ptr) (c : Cpu)
    → IsLayout l code size
    → IsCalled l code size s c
    → (end : Cpu) × (run_hotswap64 l c ≡ some end) × IsLaunched l s c end
run_hotswap64-IsLaunched l code size s c layout called =
    (final layout called, run_hotswap64-final layout called, final-IsLaunched layout called)
