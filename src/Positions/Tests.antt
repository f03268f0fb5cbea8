-- ===== src/Positions/Tests.antt =====
-- Positions in an object that holds its data.
use keow.Prelude.{
  ℕ, zero, suc, ◌+◌, ◌-◌, ◌%◌, ◌^◌, ◌<◌, ◌≡◌, ◌∙◌, refl, List, [], ◌∷◌, Option, none, some, arith,
  if◌then◌else◌, length, true, false,
}
use keow.Errno.{Win32Error, is_negative, negative, enosys}
use keow.Files.{Device, Transfer, Handler, Process}
use keow.Files.Checks.{IsTable}
use keow.StaticData.{StaticData, Method, seek}
use keow.Positions.{Seekable}
use keow.Positions.Returns.{Positioned}

abbrev static_device : Device
static_device = record {
  Object = StaticData;
  write = λ o address size. (o, Transfer.failed Win32Error.success);
  read = λ o address size. (o, Transfer.transferred 0);
  ioctl = λ o request argument. (o, negative enosys);
  duplicate = λ o. some o;
  duplicate_error = λ o. Win32Error.success;
}

-- An int as 64 bits.
abbrev sign_extended : ℕ → ℕ
sign_extended n = if is_negative n then n + (2 ^ 64 - 2 ^ 32) else n

sign_extended-low : (n : ℕ) → n < 2 ^ 32 → sign_extended n % 2 ^ 32 ≡ n
sign_extended-low n h = ground arith

abbrev static_seekable : Seekable static_device
static_seekable = record {
  seek_object = λ o offset method.
      (seek o offset method, sign_extended (seek o offset method).file_pointer, Win32Error.success);
  list_object = λ o maxbytes. (o, some [], Win32Error.success);
}

-- `Seek` of IOHStaticData keeps the laws of a position.
seek-Positioned : Positioned static_device static_seekable
unfolding seek
seek-Positioned = record {
  position = λ o. o.file_pointer;
  seek_begin = λ o k h. (
    seek o k Method.file_begin,
    sign_extended (k % 2 ^ 32),
    refl,
    sign_extended-low (k % 2 ^ 32) (omega arith) ∙ omega (arith, h),
    omega (arith, h),
  );
  seek_current = λ o k h h'. (
    seek o k Method.file_current,
    sign_extended ((o.file_pointer + k % 2 ^ 32) % 2 ^ 32),
    refl,
    sign_extended-low ((o.file_pointer + k % 2 ^ 32) % 2 ^ 32) (omega arith) ∙ omega (arith, h'),
    omega (arith, h'),
  );
}

abbrev six : Handler StaticData
six = record {
  object = record {
    data_block = 1 ∷ 2 ∷ 3 ∷ 4 ∷ 5 ∷ 6 ∷ [];
    file_pointer = 2;
    refreshable = false;
  };
  inheritable = true;
  flags = 0;
}

slots : ℕ → List (Option (Handler StaticData))
slots zero = []
slots (suc n) = none ∷ slots n

length-slots : (n : ℕ) → length (slots n) ≡ n
unfolding slots
length-slots zero = refl
length-slots (suc n) = omega (arith, length-slots n)

abbrev reader : Process StaticData
reader = record { open_files = some six ∷ slots 1023; signals = [] }

reader-IsTable : IsTable static_device reader
reader-IsTable = omega (arith, length-slots 1023)
