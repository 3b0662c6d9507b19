-- ===== src/Hotswap/Processor.antt =====
-- What the instructions of hotswap64.asm do on an x86_64 processor.
use live_update.Base.{
  ℕ, zero, suc, ◌+◌, ◌-◌, ◌*◌, ◌/◌, ◌%◌, ◌^◌, ◌&&◌, Option, none, some, List, [], ◌∷◌, leb, ◌==◌,
  if◌then◌else◌,
}
use live_update.Memory.{Ptr, Mem, store, get, put}
use live_update.Hotswap.{copy_forward}

pub data Reg : Type 0 where
  rax rbx rcx rdx rsi rdi rsp r8 : Reg

pub data Seg : Type 0 where
  ss ds es fs gs : Seg

abbrev number_of_reg : Reg → ℕ
number_of_reg rax = 0
number_of_reg rcx = 1
number_of_reg rdx = 2
number_of_reg rbx = 3
number_of_reg rsp = 4
number_of_reg rsi = 6
number_of_reg rdi = 7
number_of_reg r8 = 8

abbrev pub number_of_seg : Seg → ℕ
number_of_seg es = 0
number_of_seg ss = 2
number_of_seg ds = 3
number_of_seg fs = 4
number_of_seg gs = 5

-- The registers, the flags, `cs` by the descriptor that is loaded, the other segment registers by their
-- selectors, CR0, the MSR EFER, the GDT register, and the memory. Of the flags only the direction is read
-- here, and those that arithmetic sets are not kept.
pub record Cpu : Type 0 where
  pub regs : Reg → ℕ
  pub flags : ℕ
  pub cs : ℕ
  pub segs : Seg → ℕ
  pub cr0 : ℕ
  pub efer : ℕ
  pub gdt_limit : ℕ
  pub gdt_base : Ptr
  pub rip : Ptr
  pub mem : Mem

abbrev pub bit : ℕ → ℕ → ℕ
bit n v = (v / 2 ^ n) % 2

-- A 32-bit number without the bit `n`.
abbrev pub without_bit : ℕ → ℕ → ℕ
without_bit n v = v % 2 ^ 32 - bit n (v % 2 ^ 32) * 2 ^ n

abbrev pub set : Reg → ℕ → Cpu → Cpu
set r v c = record c { regs = λ q. if number_of_reg q == number_of_reg r then v else c.regs q }

-- The width of the code that runs: 64 with paging (CR0, bit 31), the long mode (EFER, bit 8) and a
-- descriptor of 64-bit code (bit 53), else as bit 54 of the descriptor says.
unfoldable pub width : ℕ → ℕ → ℕ → ℕ
width cr0 efer cs =
    if bit 31 cr0 == 1 && (bit 8 efer == 1 && bit 53 cs == 1)
    then 64
    else if bit 54 cs == 1
    then 32
    else 16

-- The descriptor that a selector chooses, which is within the table's limit and present.
unfoldable pub descriptor : Mem → ℕ → Ptr → ℕ → Option ℕ
descriptor m limit base selector =
    let desc = get m (base + selector / 8 * 8) 8 in
    if leb (selector / 8 * 8 + 7) limit && bit 47 desc == 1 then some desc else none

-- What follows that did not fault.
abbrev pub after : {A : Type 0} → Option A → (A → Option Cpu) → Option Cpu
after none k = none
after (some c) k = k c

abbrev pub load_seg : Seg → ℕ → Cpu → Option Cpu
load_seg s selector c = after (descriptor c.mem c.gdt_limit c.gdt_base selector) λ desc.
    some
      (record c { segs = λ q. if number_of_seg q == number_of_seg s then selector else c.segs q })

abbrev pub jump_far : ℕ → Ptr → Cpu → Option Cpu
jump_far selector target c =
    after (descriptor c.mem c.gdt_limit c.gdt_base selector)
      λ desc. some (record c { cs = desc; rip = target })

-- `push` of 8 bytes; what is pushed is read before `rsp` changes.
abbrev pub push : ℕ → Cpu → Cpu
push v c =
    let sp = (c.regs rsp + (2 ^ 64 - 8)) % 2 ^ 64 in
    set rsp sp (record c { mem = put c.mem sp 8 v })

-- `rep movsb` with the direction flag set goes downwards.
abbrev copy_backward : ℕ → Ptr → Ptr → Mem → Mem
copy_backward zero base dest m = m
copy_backward (suc n) base dest m =
    copy_backward n (base - 1) (dest - 1) (store m dest (m base ∷ []))

pub data Instr : Type 0 where
  mov : Reg → Reg → Instr
  mov32 mov16 : Reg → ℕ → Instr
  store32 : Ptr → Reg → Instr
  load32 : Reg → Ptr → Instr
  push_imm : ℕ → Instr
  push_reg : Reg → Instr
  pushf iretq cld rep_movsb rdmsr wrmsr : Instr
  lgdt : Ptr → Instr
  from_cr0 to_cr0 : Reg → Instr
  clear_bit : Reg → ℕ → Instr
  mov_seg : Seg → Reg → Instr
  jmp_far : ℕ → Ptr → Instr
  jmp_at : Ptr → Instr

abbrev pub efer_msr : ℕ
efer_msr = 0xc0000080

-- `iretq`: the address, `cs`, the flags, `rsp` and `ss` are popped.
unfoldable pub return_to : (target code flags sp stack : ℕ) → Cpu → Option Cpu
return_to target code flags sp stack c =
    after (jump_far code target (set rsp sp (record c { flags = flags })))
      λ c1. load_seg ss stack c1

unfoldable pub interrupt_return : Cpu → Option Cpu
interrupt_return c =
    let sp = c.regs rsp in
    return_to (get c.mem sp 8) (get c.mem (sp + 8) 8) (get c.mem (sp + 16) 8)
      (get c.mem (sp + 24) 8) (get c.mem (sp + 32) 8) c

-- One instruction. An `and` that clears one bit, as all here do, names the bit.
unfoldable pub step : Instr → Cpu → Option Cpu
step (mov r q) c = some (set r (c.regs q) c)
step (mov32 r v) c = some (set r (v % 2 ^ 32) c)
step (mov16 r v) c = some (set r (c.regs r / 2 ^ 16 * 2 ^ 16 + v % 2 ^ 16) c)
step (store32 a r) c = some (record c { mem = put c.mem a 4 (c.regs r) })
step (load32 r a) c = some (set r (get c.mem a 4) c)
step (push_imm v) c = some (push v c)
step (push_reg r) c = some (push (c.regs r) c)
step pushf c = some (push c.flags c)
step iretq c = interrupt_return c
step cld c = some (record c { flags = c.flags - bit 10 c.flags * 2 ^ 10 })
step rep_movsb c =
    let n = c.regs rcx in
    if bit 10 c.flags == 0
    then some (
        set rcx 0 (
          set rsi (c.regs rsi + n) (
            set rdi (c.regs rdi + n)
              (record c { mem = copy_forward n (c.regs rsi) (c.regs rdi) c.mem }))))
    else some (
        set rcx 0 (
          set rsi (c.regs rsi - n) (
            set rdi (c.regs rdi - n)
              (record c { mem = copy_backward n (c.regs rsi) (c.regs rdi) c.mem }))))
step rdmsr c =
    if c.regs rcx % 2 ^ 32 == efer_msr
    then some (set rdx (c.efer / 2 ^ 32) (set rax (c.efer % 2 ^ 32) c))
    else none
step wrmsr c =
    if c.regs rcx % 2 ^ 32 == efer_msr
    then some (record c { efer = c.regs rdx % 2 ^ 32 * 2 ^ 32 + c.regs rax % 2 ^ 32 })
    else none
step (lgdt a) c = some (record c { gdt_limit = get c.mem a 2; gdt_base = get c.mem (a + 2) 8 })
step (from_cr0 r) c = some (set r (c.cr0 % 2 ^ 32) c)
step (to_cr0 r) c = some (record c { cr0 = c.regs r % 2 ^ 32 })
step (clear_bit r n) c = some (set r (without_bit n (c.regs r)) c)
step (mov_seg s r) c = load_seg s (c.regs r % 2 ^ 16) c
step (jmp_far selector target) c = jump_far selector target c
step (jmp_at a) c = some (record c { rip = get c.mem a 4 })

-- Instructions one after the other, each met by a processor that runs code of the width they are for.
unfoldable pub run : ℕ → List Instr → Cpu → Option Cpu
run bits [] c = some c
run bits (i ∷ is) c =
    if width c.cr0 c.efer c.cs == bits then after (step i c) (λ c1. run bits is c1) else none

-- A jump has reached a label.
abbrev pub reached : Ptr → Cpu → Option Cpu
reached target c = if c.rip == target then some c else none
