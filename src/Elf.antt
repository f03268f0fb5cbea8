-- ===== src/Elf.antt =====
-- The loading of an ELF image: LoadElfImage of keow-kernel/KeowKernel/Process.cpp, up to its interpreter.
pub mod Layout
mod Tests
use keow.Prelude.{
  ℕ, zero, suc, ◌+◌, ◌-◌, ◌*◌, ◌/◌, ◌%◌, ◌^◌, Bool, true, false, not, ◌&&◌, ◌||◌, List, [], ◌∷◌,
  Option, none, some, ltb, leb, ◌==◌, if◌then◌else◌, ◌>>=◌, length,
}
use Prim.Native.Nat.{bit_and}
use keow.Errno.{word}

-- e_type, e_machine, e_version, e_ident[EI_VERSION], e_entry, e_phoff and e_phentsize. The program
-- headers that the file holds, e_phnum of them, stand in a list of their own.
pub record ElfHeader : Type 0 where
  pub e_type : ℕ
  pub e_machine : ℕ
  pub e_version : ℕ
  pub ident_version : ℕ
  pub e_entry : ℕ
  pub e_phoff : ℕ
  pub e_phentsize : ℕ

pub record ProgramHeader : Type 0 where
  pub p_type : ℕ
  pub p_offset : ℕ
  pub p_vaddr : ℕ
  pub p_filesz : ℕ
  pub p_memsz : ℕ
  pub p_align : ℕ

pub record ElfLoadData : Type 0 where
  pub phdr_addr : ℕ
  pub phdr_phnum : ℕ
  pub phdr_phent : ℕ
  pub bss_start : ℕ
  pub brk : ℕ
  pub program_base : ℕ
  pub program_max : ℕ
  pub last_lib_addr : ℕ
  pub interpreter : List ℕ
  pub interpreter_base : ℕ
  pub start_addr : ℕ
  pub image_base : ℕ

-- AllocateMemAndProtect, FillMem with zeros and WriteMemory on the process, and what ReadFile gets from
-- the image at an offset.
pub record ImageMemory : Type 1 where
  pub Space : Type 0
  pub allocate : Space → ℕ → ℕ → Space × ℕ
  pub fill : Space → ℕ → ℕ → Space
  pub write : Space → ℕ → List ℕ → Space × Bool
  pub read_file : ℕ → ℕ → List ℕ

abbrev pub et_exec : ℕ
et_exec = 2

abbrev pub et_dyn : ℕ
et_dyn = 3

abbrev pub em_386 : ℕ
em_386 = 3

abbrev pub ev_current : ℕ
ev_current = 1

abbrev pub pt_load : ℕ
pt_load = 1

abbrev pub pt_interp : ℕ
pt_interp = 3

abbrev pub pt_phdr : ℕ
pt_phdr = 6

-- The checks of the header, of which the first that fails is ERROR_BAD_FORMAT.
unfoldable pub is_format : ElfHeader → Bool
is_format h =
    (h.e_type == et_exec || h.e_type == et_dyn)
    && h.e_machine == em_386
    && h.e_version == ev_current
    && h.ident_version == ev_current

-- `x & ~(align-1)`: what the mask `align-1` has of the bits is taken away.
unfoldable pub align_down : ℕ → ℕ → ℕ
align_down align x = x - bit_and x (align - 1)

abbrev pub lib_block : ℕ
lib_block = 2 ^ 16

-- Where a library starts: after the last one, at the next 64 KB.
unfoldable pub lib_base : ℕ → ℕ
unfolding align_down
lib_base last_lib_addr =
    align_down lib_block
      (((if last_lib_addr == 0 then 2 ^ 30 else last_lib_addr) + (lib_block - 1)) % word)

abbrev pub is_based : Bool → ElfHeader → Bool
is_based as_library h = as_library || h.e_type == et_dyn

unfoldable pub base_addr : Bool → ElfHeader → ElfLoadData → ℕ
unfolding lib_base
base_addr as_library h d = if is_based as_library h then lib_base d.last_lib_addr else 0

unfoldable pub want_mem : ℕ → ProgramHeader → ℕ
want_mem base p = (p.p_vaddr + base) % word

unfoldable pub aligned_mem : ℕ → ProgramHeader → ℕ
unfolding want_mem align_down
aligned_mem base p =
    if ltb 1 p.p_align then align_down p.p_align (want_mem base p) else want_mem base p

unfoldable pub aligned_size : ℕ → ProgramHeader → ℕ
unfolding want_mem aligned_mem align_down
aligned_size base p =
    if ltb 1 p.p_align
    then align_down p.p_align
        ((p.p_memsz + (want_mem base p - aligned_mem base p) + (p.p_align - 1)) % word)
    else p.p_memsz

-- `if(x > kept) kept = x`.
abbrev pub raise : ℕ → ℕ → ℕ
raise kept x = if ltb kept x then x else kept

-- The addresses that are kept for a program; `mem` is the address of the allocation.
unfoldable pub track_program : ElfLoadData → ProgramHeader → ℕ → ℕ → ElfLoadData
track_program d p mem size = record d {
  bss_start = raise d.bss_start ((mem + p.p_filesz) % word);
  brk = raise d.brk ((mem + size) % word);
  program_base = if ltb mem d.program_base || d.program_base == 0 then mem else d.program_base;
  program_max = raise d.program_max ((mem + p.p_memsz) % word);
}

unfoldable pub track_library : ElfLoadData → ProgramHeader → ℕ → ElfLoadData
track_library d p mem = record d {
  last_lib_addr = raise d.last_lib_addr ((mem + p.p_memsz) % word);
}

unfoldable pub track : Bool → ElfLoadData → ProgramHeader → ℕ → ℕ → ElfLoadData
unfolding track_program track_library
track as_library d p mem size =
    if as_library then track_library d p mem else track_program d p mem size

-- The load data before the loop.
unfoldable pub start_load : Bool → ElfHeader → ElfLoadData → ElfLoadData
unfolding base_addr
start_load as_library h d =
    let base = base_addr as_library h d in
    record d {
      interpreter_base = if is_based as_library h then base else d.interpreter_base;
      interpreter = [];
      start_addr = (h.e_entry + base) % word;
      image_base = base;
    }

module _ (image : ImageMemory) where
  open image use {Space}

  -- The file's part of a segment; `false` is a short read or a write that failed.
  unfoldable pub copy_file : Space → ℕ → ProgramHeader → Space × Bool
  copy_file s want p =
      if p.p_filesz == 0
      then (s, true)
      else (let bytes = image.read_file p.p_offset p.p_filesz in
          if length bytes == p.p_filesz then image.write s want bytes else (s, false))

  -- The memory of a segment.
  unfoldable pub load_segment : Space → ℕ → ProgramHeader → Space × Bool
  unfolding copy_file aligned_mem aligned_size want_mem
  load_segment s base p =
      let mem = aligned_mem base p in
      let size = aligned_size base p in
      let (t, got) = image.allocate s mem size in
      if got == mem then copy_file (image.fill t mem size) (want_mem base p) p else (t, false)

  -- The load data once the memory of a segment is there.
  unfoldable pub after_segment :
      Bool → ℕ → ElfLoadData → ProgramHeader → Space × Bool → Space × ElfLoadData × Bool
  after_segment as_library base d p (t, true) =
      (t, track as_library d p (aligned_mem base p) (aligned_size base p), true)
  after_segment as_library base d p (t, false) = (t, d, false)

  -- One program header. The result is the process, the load data, and loadok.
  unfoldable pub load_header :
      Bool → ElfHeader → ℕ → ℕ → Space → ElfLoadData → ProgramHeader → Space × ElfLoadData × Bool
  load_header as_library h count base s d p =
      if p.p_type == pt_load
      then after_segment as_library base d p (load_segment s base p)
      else if p.p_type == pt_phdr
      then (
        s,
        record d {
          phdr_addr = (p.p_vaddr + base) % word;
          phdr_phnum = count;
          phdr_phent = h.e_phentsize;
        },
        true,
      )
      else if p.p_type == pt_interp
      then (s, record d { interpreter = image.read_file p.p_offset p.p_filesz }, true)
      else (s, d, true)

  -- The loop goes on, or ends at a header that fails.
  unfoldable pub go_on :
      (Space → ElfLoadData → Space × ElfLoadData × Bool)
      → Space × ElfLoadData × Bool
      → Space × ElfLoadData × Bool
  go_on next (t, e, true) = next t e
  go_on next (t, e, false) = (t, e, false)

  -- The loop over the program headers.
  unfoldable pub load_headers :
      Bool
      → ElfHeader
      → ℕ
      → ℕ
      → List ProgramHeader
      → Space
      → ElfLoadData
      → Space × ElfLoadData × Bool
  load_headers as_library h count base [] s d = (s, d, true)
  load_headers as_library h count base (p ∷ ps) s d =
      go_on (load_headers as_library h count base ps) (load_header as_library h count base s d p)

  -- LoadElfImage up to the interpreter. `none` is ERROR_BAD_FORMAT, and `false` the return of -1.
  unfoldable pub load_elf_image :
      Bool
      → ElfHeader
      → List ProgramHeader
      → Space
      → ElfLoadData
      → Option (Space × ElfLoadData × Bool)
  unfolding is_format start_load load_headers
  load_elf_image as_library h ps s d =
      if not (is_format h)
      then none
      else if h.e_phoff == 0
      then some (s, d, false)
      else some (
          load_headers as_library h (length ps) (base_addr as_library h d) ps s
            (start_load as_library h d))
