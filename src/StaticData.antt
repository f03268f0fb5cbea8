-- ===== src/StaticData.antt =====
-- Objects that hold their data: keow-kernel/KeowKernel/IOHStaticData.cpp. The files under /proc and the
-- directory listings are such objects.
pub mod Reading
pub mod Listing
mod Tests
use keow.Prelude.{
  ℕ, zero, suc, ◌+◌, ◌*◌, ◌-◌, ◌%◌, ◌^◌, Bool, true, false, ◌&&◌, ◌||◌, List, [], ◌∷◌, ◌++◌, Option,
  none, some, ltb, leb, ◌==◌, if◌then◌else◌, ◌>>=◌, length, take, drop, map,
}
use keow.Errno.{word, is_negative}
use keow.Text.{read_at, c_string}

-- The block and its length, and the file pointer, an int as its 32 bits.
pub record StaticData : Type 0 where
  pub data_block : List ℕ
  pub file_pointer : ℕ
  pub refreshable : Bool

-- The methods of SetFilePointer.
pub data Method : Type 0 where
  file_begin file_end file_current : Method

unfoldable pub new_static_data : Bool → StaticData
new_static_data refreshable = record {
  data_block = [];
  file_pointer = 0;
  refreshable = refreshable;
}

unfoldable pub add_data : StaticData → List ℕ → StaticData
add_data d bytes = record d { data_block = d.data_block ++ bytes }

-- The argument is a block with its NUL.
unfoldable pub add_text : StaticData → List ℕ → Option StaticData
add_text d text = c_string text >>= λ bytes. some (add_data d bytes)

unfoldable pub duplicate_data : StaticData → StaticData
duplicate_data d = record {
  data_block = d.data_block;
  file_pointer = d.file_pointer;
  refreshable = d.refreshable;
}

unfoldable pub open_data : StaticData → StaticData
open_data d = record d { file_pointer = 0 }

-- The new pointer is also the result.
unfoldable pub seek : StaticData → ℕ → Method → StaticData
seek d offset Method.file_begin = record d { file_pointer = offset % word }
seek d offset Method.file_end = record d {
  file_pointer = (length d.data_block + (word - 1) + (word - offset % word)) % word;
}
seek d offset Method.file_current = record d {
  file_pointer = (d.file_pointer + offset % word) % word;
}

unfoldable pub can_read : StaticData → Bool
can_read d = is_negative d.file_pointer || ltb d.file_pointer (length d.data_block)

-- `source` is what an object that is created anew for the path holds, if it is of this class.
unfoldable pub refresh_data : Option (List ℕ) → StaticData → StaticData
refresh_data none d = d
refresh_data (some fresh) d = if d.refreshable then record d { data_block = fresh } else d

-- The rest of `Read` once the data is as fresh as it gets.
unfoldable pub read_fresh : StaticData → ℕ → Option (StaticData × List ℕ)
read_fresh d size =
    let data_left = (length d.data_block + (word - d.file_pointer)) % word in
    if data_left == 0 || is_negative data_left
    then some (d, [])
    else (let n = if ltb data_left size then data_left else size in
        read_at d.data_block d.file_pointer n >>= λ bytes.
        some (record d { file_pointer = (d.file_pointer + n) % word }, bytes))

-- The bytes that go to the process; their count is the result. `none` is a read outside of the block.
unfoldable pub read_data : Option (List ℕ) → StaticData → ℕ → Option (StaticData × List ℕ)
read_data source d size = read_fresh (refresh_data source d) size

-- A directory record: a copy of the stored bytes, and the fields that are written over it. The length
-- field is the size of a record.
pub record DirEnt : Type 0 where
  pub raw : List ℕ
  pub d_off : ℕ
  pub d_ino : ℕ

-- `size` is sizeof(linux::dirent64), and `this` the address of the object.
module _ (size this : ℕ) where
  -- The loop of `GetDirEnts64`: the object, the records, and how many bytes they fill. Each round fills
  -- `size` bytes, so `maxbytes` rounds are enough.
  unfoldable pub dir_ents : ℕ → StaticData → ℕ → ℕ → Option (StaticData × List DirEnt × ℕ)
  dir_ents zero d filled maxbytes = some (d, [], filled)
  dir_ents (suc rounds) d filled maxbytes = elim (ltb (filled + size) maxbytes && can_read d) [
    | false ↦ some (d, [], filled)
    | true ↦ read_at d.data_block d.file_pointer size >>= λ raw.
        dir_ents rounds (record d { file_pointer = (d.file_pointer + size) % word }) (filled + size)
          maxbytes
        >>= λ (d', later, total). some (
          d',
          record { raw = raw; d_off = d.file_pointer; d_ino = (this + d.file_pointer) % word }
              ∷ later,
          total,
        )
  ]

  -- `maxbytes` is an int that is not negative.
  unfoldable pub get_dir_ents64 : StaticData → ℕ → Option (StaticData × List DirEnt × ℕ)
  get_dir_ents64 d maxbytes = dir_ents maxbytes d 0 maxbytes
