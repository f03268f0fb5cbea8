-- ===== src/Errno.antt =====
-- keow-kernel/KeowKernel/ConstantMapping.cpp, the error numbers of linux-abi/linux/linux_defines.h
-- that the system calls return, and the 32-bit words of the register file.
use keow.Prelude.{ℕ, ◌+◌, ◌-◌, ◌%◌, ◌^◌, Bool, leb, ◌==◌, ◌||◌, if◌then◌else◌}

abbrev pub word : ℕ
word = 2 ^ 32

-- `-n` as a DWORD.
abbrev pub negative : ℕ → ℕ
negative n = (word - n) % word

-- A DWORD that is a negative int.
abbrev pub is_negative : ℕ → Bool
is_negative w = leb (2 ^ 31) w

abbrev pub eperm : ℕ
eperm = 1

abbrev pub enoent : ℕ
enoent = 2

abbrev pub esrch : ℕ
esrch = 3

abbrev pub eio : ℕ
eio = 5

abbrev pub enoexec : ℕ
enoexec = 8

abbrev pub ebadf : ℕ
ebadf = 9

abbrev pub enomem : ℕ
enomem = 12

abbrev pub eacces : ℕ
eacces = 13

abbrev pub efault : ℕ
efault = 14

abbrev pub einval : ℕ
einval = 22

abbrev pub emfile : ℕ
emfile = 24

abbrev pub enosys : ℕ
enosys = 38

-- The Win32 errors that the kernel tells apart; their numbers are the Windows headers'.
pub data Win32Error : Type 0 where
  success : Win32Error
  file_not_found : Win32Error
  path_not_found : Win32Error
  too_many_open_files : Win32Error
  access_denied : Win32Error
  invalid_handle : Win32Error
  arena_trashed : Win32Error
  invalid_block : Win32Error
  not_enough_memory : Win32Error
  outofmemory : Win32Error
  invalid_function : Win32Error
  broken_pipe : Win32Error
  no_data : Win32Error
  pipe_not_connected : Win32Error
  bad_format : Win32Error
  other_error : ℕ → Win32Error

unfoldable pub win32_err_to_unix_error : Win32Error → ℕ
win32_err_to_unix_error success = 0
win32_err_to_unix_error file_not_found = enoent
win32_err_to_unix_error path_not_found = enoent
win32_err_to_unix_error too_many_open_files = emfile
win32_err_to_unix_error access_denied = eacces
win32_err_to_unix_error invalid_handle = ebadf
win32_err_to_unix_error arena_trashed = efault
win32_err_to_unix_error invalid_block = efault
win32_err_to_unix_error not_enough_memory = enomem
win32_err_to_unix_error outofmemory = enomem
win32_err_to_unix_error invalid_function = enosys
win32_err_to_unix_error broken_pipe = eio
win32_err_to_unix_error no_data = eio
win32_err_to_unix_error pipe_not_connected = eio
win32_err_to_unix_error bad_format = enoexec
win32_err_to_unix_error (other_error code) = eperm

-- The flags of an ELF segment: PF_X, PF_W, PF_R.
abbrev pub pf_x : ℕ
pf_x = 1

abbrev pub pf_w : ℕ
pf_w = 2

abbrev pub pf_r : ℕ
pf_r = 4

-- The Win32 page protections that the mapping chooses from.
pub data PageProtection : Type 0 where
  page_readonly page_readwrite page_execute_read page_execute_readwrite : PageProtection

unfoldable pub elf_protection_to_win32_protection : ℕ → PageProtection
elf_protection_to_win32_protection prot =
    if prot == pf_r
    then page_readonly
    else if prot == pf_w || prot == pf_w + pf_r
    then page_readwrite
    else if prot == pf_x
    then page_execute_read
    else if prot == pf_x + pf_r
    then page_execute_read
    else if prot == pf_w + pf_x || prot == pf_w + pf_x + pf_r
    then page_execute_readwrite
    else page_execute_readwrite
