-- ===== src/Credentials/Tests.antt =====
-- A user's process whose effective id is another user's.
use keow.Prelude.{◌≡◌, refl, [], ◌∷◌, arith}
use keow.Errno.{negative, eperm}
use keow.Credentials.{Ids, setreuid, setregid, unchanged, sys_setreuid, run_calls}
use keow.Credentials.Kept.{IsConfined, run_calls-IsConfined}

abbrev user : Ids
user = record { uid = 500; euid = 501; saved_uid = 501; gid = 100; egid = 100; saved_gid = 100 }

refused : sys_setreuid user 0 0 ≡ (user, negative eperm)
unfolding sys_setreuid
refused = refl

swapped : (sys_setreuid user unchanged 500).0 ≡ record user { euid = 500 }
unfolding sys_setreuid
swapped = refl

-- A refused real id does not show in the result where the effective id is accepted.
masked_refusal : sys_setreuid user 0 500 ≡ (record user { euid = 500 }, 0)
unfolding sys_setreuid
masked_refusal = refl

run_calls-IsConfined_example :
    IsConfined user (run_calls user (setreuid 500 501 ∷ setregid 0 0 ∷ setreuid unchanged 0 ∷ []))
run_calls-IsConfined_example =
    run_calls-IsConfined user (setreuid 500 501 ∷ setregid 0 0 ∷ setreuid unchanged 0 ∷ [])
      (omega arith)
