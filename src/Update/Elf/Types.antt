-- ===== src/Update/Elf/Types.antt =====
-- elf.h: the types and the structs of ELF files that `begin` reads, and how their fields lie in the memory.
use live_update.Base.{ℕ, ◌+◌, List}
use live_update.Memory.{Ptr, Mem, load, get}

-- The sizes of `Elf32_Half` and `Elf64_Half`, of `Elf32_Word` and `Elf64_Word`, of `Elf64_Xword`, of
-- `Elf32_Addr` and `Elf64_Addr`, and of `Elf32_Off` and `Elf64_Off`.
abbrev pub half : ℕ
half = 2

abbrev pub word : ℕ
word = 4

abbrev pub xword : ℕ
xword = 8

abbrev pub addr32 : ℕ
addr32 = 4

abbrev pub addr64 : ℕ
addr64 = 8

abbrev pub off32 : ℕ
off32 = 4

abbrev pub off64 : ℕ
off64 = 8

abbrev pub ei_nident : ℕ
ei_nident = 16

abbrev pub elfmag0 : ℕ
elfmag0 = 0x7f

abbrev pub elfmag1 : ℕ
elfmag1 = b'E'

abbrev pub elfmag2 : ℕ
elfmag2 = b'L'

abbrev pub elfmag3 : ℕ
elfmag3 = b'F'

abbrev pub ei_class : ℕ
ei_class = 4

abbrev pub elfclass32 : ℕ
elfclass32 = 1

-- Elf32_Ehdr and Elf64_Ehdr, whose fields have the same names in the same order.
pub record Ehdr : Type 0 where
  pub e_ident : List ℕ
  pub e_type : ℕ
  pub e_machine : ℕ
  pub e_version : ℕ
  pub e_entry : ℕ
  pub e_phoff : ℕ
  pub e_shoff : ℕ
  pub e_flags : ℕ
  pub e_ehsize : ℕ
  pub e_phentsize : ℕ
  pub e_phnum : ℕ
  pub e_shentsize : ℕ
  pub e_shnum : ℕ
  pub e_shstrndx : ℕ

unfoldable pub read_ehdr32 : Mem → Ptr → Ehdr
read_ehdr32 m p = record {
  e_ident = load m p ei_nident;
  e_type = get m (p + 16) half;
  e_machine = get m (p + 18) half;
  e_version = get m (p + 20) word;
  e_entry = get m (p + 24) addr32;
  e_phoff = get m (p + 28) off32;
  e_shoff = get m (p + 32) off32;
  e_flags = get m (p + 36) word;
  e_ehsize = get m (p + 40) half;
  e_phentsize = get m (p + 42) half;
  e_phnum = get m (p + 44) half;
  e_shentsize = get m (p + 46) half;
  e_shnum = get m (p + 48) half;
  e_shstrndx = get m (p + 50) half;
}

unfoldable pub read_ehdr64 : Mem → Ptr → Ehdr
read_ehdr64 m p = record {
  e_ident = load m p ei_nident;
  e_type = get m (p + 16) half;
  e_machine = get m (p + 18) half;
  e_version = get m (p + 20) word;
  e_entry = get m (p + 24) addr64;
  e_phoff = get m (p + 32) off64;
  e_shoff = get m (p + 40) off64;
  e_flags = get m (p + 48) word;
  e_ehsize = get m (p + 52) half;
  e_phentsize = get m (p + 54) half;
  e_phnum = get m (p + 56) half;
  e_shentsize = get m (p + 58) half;
  e_shnum = get m (p + 60) half;
  e_shstrndx = get m (p + 62) half;
}

-- Elf32_Phdr and Elf64_Phdr.
pub record Phdr : Type 0 where
  pub p_type : ℕ
  pub p_flags : ℕ
  pub p_offset : ℕ
  pub p_vaddr : ℕ
  pub p_paddr : ℕ
  pub p_filesz : ℕ
  pub p_memsz : ℕ
  pub p_align : ℕ

unfoldable pub read_phdr32 : Mem → Ptr → Phdr
read_phdr32 m p = record {
  p_type = get m p word;
  p_offset = get m (p + 4) off32;
  p_vaddr = get m (p + 8) addr32;
  p_paddr = get m (p + 12) addr32;
  p_filesz = get m (p + 16) word;
  p_memsz = get m (p + 20) word;
  p_flags = get m (p + 24) word;
  p_align = get m (p + 28) word;
}

unfoldable pub read_phdr64 : Mem → Ptr → Phdr
read_phdr64 m p = record {
  p_type = get m p word;
  p_flags = get m (p + 4) word;
  p_offset = get m (p + 8) off64;
  p_vaddr = get m (p + 16) addr64;
  p_paddr = get m (p + 24) addr64;
  p_filesz = get m (p + 32) xword;
  p_memsz = get m (p + 40) xword;
  p_align = get m (p + 48) xword;
}
