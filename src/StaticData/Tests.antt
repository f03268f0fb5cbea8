-- ===== src/StaticData/Tests.antt =====
-- Six bytes of data, which are also three records of two bytes.
use keow.Prelude.{ℕ, ◌≡◌, refl, List, [], ◌∷◌, some, arith, false}
use keow.StaticData.{StaticData, seek, Method, dir_ents, get_dir_ents64, can_read}
use keow.StaticData.Reading.{IsPlaced}
use keow.StaticData.Listing.{Stands, Lists, joined, get_dir_ents64_lem}

abbrev six : StaticData
six = record { data_block = 1 ∷ 2 ∷ 3 ∷ 4 ∷ 5 ∷ 6 ∷ []; file_pointer = 2; refreshable = false }

six-IsPlaced : IsPlaced six
six-IsPlaced = record { placed = omega arith; int = omega arith }

-- Two bytes before the end is the last byte but two.
seek_test : seek six 2 Method.file_end ≡ record six { file_pointer = 3 }
unfolding seek
seek_test = refl

abbrev two_left : List (List ℕ)
two_left = (3 ∷ 4 ∷ []) ∷ (5 ∷ 6 ∷ []) ∷ []

six-Stands : Stands 2 six (1 ∷ 2 ∷ []) two_left
unfolding joined
six-Stands = record { block = refl; pointer = refl; sizes = (refl, (refl, tt)); int = omega arith }

get_dir_ents64_lem_example : Lists 2 (1 ∷ 2 ∷ []) two_left 0 4 (get_dir_ents64 2 4096 six 4)
get_dir_ents64_lem_example =
    get_dir_ents64_lem 2 4096 six (1 ∷ 2 ∷ []) two_left 4 (omega arith) six-Stands

-- Four bytes have room for two records, and one is listed.
get_dir_ents64_test :
    get_dir_ents64 2 4096 six 4
    ≡ some (
      record six { file_pointer = 4 },
      record { raw = 3 ∷ 4 ∷ []; d_off = 2; d_ino = 4098 } ∷ [],
      2,
    )
unfolding get_dir_ents64 dir_ents can_read keow.Text.read_at
get_dir_ents64_test = refl
