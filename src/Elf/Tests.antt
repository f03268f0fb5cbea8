-- ===== src/Elf/Tests.antt =====
-- A program with a segment of code and one of data, and a library.
use keow.Prelude.{
  ℕ, ◌+◌, ◌^◌, ◌≡◌, ◌≤◌, refl, true, false, false, List, [], ◌∷◌, some, replicate, arith,
}
use keow.Elf.{
  ElfHeader, ProgramHeader, ElfLoadData, ImageMemory, load_elf_image, want_mem, aligned_mem,
  aligned_size, lib_base, base_addr, start_load, pt_load, load_headers, load_header, after_segment,
  load_segment, go_on, track,
}
use keow.Elf.Layout.{Allocated, load_elf_image-covered}

-- The writes to a process, newest first: address and length.
abbrev image : ImageMemory
image = record {
  Space = List (ℕ × ℕ);
  allocate = λ s a n. (s, a);
  fill = λ s a n. (a, n) ∷ s;
  write = λ s a bytes. (s, true);
  read_file = λ at n. replicate n 7;
}

abbrev program : ElfHeader
program = record {
  e_type = 2;
  e_machine = 3;
  e_version = 1;
  ident_version = 1;
  e_entry = 4196;
  e_phoff = 52;
  e_phentsize = 32;
}

abbrev code : ProgramHeader
code = record {
  p_type = pt_load;
  p_offset = 0;
  p_vaddr = 4096;
  p_filesz = 8;
  p_memsz = 300;
  p_align = 4096;
}

abbrev variables : ProgramHeader
variables = record code { p_vaddr = 8292; p_filesz = 4; p_memsz = 4090 }

abbrev empty : ElfLoadData
empty = record {
  phdr_addr = 0;
  phdr_phnum = 0;
  phdr_phent = 0;
  bss_start = 0;
  brk = 0;
  program_base = 0;
  program_max = 0;
  last_lib_addr = 0;
  interpreter = [];
  interpreter_base = 0;
  start_addr = 0;
  image_base = 0;
}

-- The break is past the data; the start of the bss is counted from the aligned address.
abbrev loaded : ElfLoadData
loaded = record empty {
  bss_start = 8196;
  brk = 16384;
  program_base = 4096;
  program_max = 12282;
  start_addr = 4196;
}

loads :
    load_elf_image image false program (code ∷ variables ∷ []) [] empty
    ≡ some ((8192, 8192) ∷ (4096, 4096) ∷ [], loaded, true)
unfolding load_elf_image load_headers load_header after_segment load_segment go_on track
loads = refl

-- A library that does not start at a page: the next one is put below its end.
library_test :
    (aligned_mem (2 ^ 30) (record code { p_vaddr = 4000; p_memsz = 64000 }) ≡ 2 ^ 30)
    × (want_mem (2 ^ 30) (record code { p_vaddr = 4000; p_memsz = 64000 }) + 64000 ≡ 2 ^ 30 + 68000)
    × (lib_base (2 ^ 30 + 64000) ≡ 2 ^ 30 + 65536)
unfolding aligned_mem want_mem lib_base
library_test = (refl, refl, refl)

load_elf_image-covered_example :
    Allocated image program 2 0
      (code ∷ variables ∷ [])
      []
      (start_load false program empty)
      1
      variables
    × (aligned_mem 0 variables ≤ want_mem 0 variables)
    × (want_mem 0 variables + 4090 ≤ aligned_mem 0 variables + aligned_size 0 variables)
    × (want_mem 0 variables + 4090 ≤ 16384)
unfolding want_mem base_addr
load_elf_image-covered_example =
    load_elf_image-covered image program (code ∷ variables ∷ []) []
      ((8192, 8192) ∷ (4096, 4096) ∷ []) empty loaded 1 variables loads refl refl (omega arith)
