-- ===== src/Update/Elf.antt =====
-- The part of `LiveUpdate::begin` that finds the ELF header in the blob and reads it (update.cpp). The blob's bytes are read
-- from the memory, also behind its end, as the code does.
pub mod Types
use live_update.Base.{
  ℕ, ◌+◌, ◌*◌, ◌%◌, ◌^◌, Bool, true, ◌&&◌, ◌||◌, Option, none, some, ltb, leb, ◌==◌, if◌then◌else◌,
}
use live_update.Memory.{Ptr, Mem, sign_extend, offset}
use live_update.Update.Elf.Types.{
  elfmag0, elfmag1, elfmag2, elfmag3, ei_class, elfclass32, read_ehdr32, read_ehdr64, read_phdr32,
  read_phdr64,
}

abbrev pub sect_size : ℕ
sect_size = 512

abbrev pub elf_minimum : ℕ
elf_minimum = 164

-- `e_ident` begins with 0x7F and "ELF".
unfoldable pub validate_header : Mem → Ptr → Bool
validate_header m hdr =
    m hdr == elfmag0
    && (m (hdr + 1) == elfmag1 && (m (hdr + 2) == elfmag2 && m (hdr + 3) == elfmag3))

-- The header's address: the blob's first byte, or the first behind a boot sector.
unfoldable pub find_header : Mem → Ptr → Option Ptr
find_header m blob =
    if validate_header m blob
    then some blob
    else if validate_header m (blob + sect_size)
    then some (blob + sect_size)
    else none

-- What `begin` takes from the headers. `bin_len` is an `int`, as its bit pattern.
pub record Image : Type 0 where
  pub expected_total : ℕ
  pub start_offset : ℕ
  pub bin_data : Ptr
  pub bin_len : ℕ
  pub phys_base : Ptr

-- The product of two `uint16_t` is an `int`; in the 32-bit case the sum is a `uint32_t`.
unfoldable pub read_elf32 : Mem → Ptr → Image
read_elf32 m binary =
    let hdr = read_ehdr32 m binary in
    let phdr = read_phdr32 m (binary + hdr.e_phoff) in
    record {
      expected_total = (hdr.e_shnum * hdr.e_shentsize % 2 ^ 32 + hdr.e_shoff) % 2 ^ 32;
      start_offset = hdr.e_entry;
      bin_data = offset binary phdr.p_offset;
      bin_len = phdr.p_filesz;
      phys_base = phdr.p_paddr;
    }

unfoldable pub read_elf64 : Mem → Ptr → Image
read_elf64 m binary =
    let ehdr = read_ehdr64 m binary in
    let phdr = read_phdr64 m (offset binary ehdr.e_phoff) in
    record {
      expected_total =
          (sign_extend (ehdr.e_shnum * ehdr.e_shentsize % 2 ^ 32) + ehdr.e_shoff) % 2 ^ 64;
      start_offset = ehdr.e_entry;
      bin_data = offset binary phdr.p_offset;
      bin_len = phdr.p_filesz % 2 ^ 32;
      phys_base = phdr.p_paddr;
    }

-- `e_ident[EI_CLASS] == ELFCLASS32`
unfoldable pub read_elf : Mem → Ptr → Image
read_elf m hdr = if m (hdr + ei_class) == elfclass32 then read_elf32 m hdr else read_elf64 m hdr

-- `blob.size() < expected_total || expected_total < ELF_MINIMUM`, negated
unfoldable pub is_whole : Image → ℕ → Bool
is_whole image size = leb image.expected_total size && leb elf_minimum image.expected_total

-- `bin_data == nullptr || phys_base == nullptr || bin_len <= 64`
unfoldable pub is_malformed : Image → Bool
is_malformed image =
    image.bin_data == 0
    || (image.phys_base == 0 || (if ltb image.bin_len (2 ^ 31) then leb image.bin_len 64 else true))
