-- ===== src/Credentials/Kept.antt =====
-- What a process cannot change with the calls of sys_perms.cpp.
use keow.Prelude.{◌≡◌, ◌≢◌, ◌⊎◌, List, [], ◌∷◌, arith}
use keow.Credentials.{Ids, Call, setreuid, setregid, ask, run_call, run_calls}

-- A process none of whose user ids is root's.
pub record IsPlain (p : Ids) : Type 0 where
  pub real : p.uid ≢ 0
  pub effective : p.euid ≢ 0
  pub saved : p.saved_uid ≢ 0

-- What its ids may become: the real and the saved ids stay, and the effective id stays one of the three.
pub record IsConfined (p q : Ids) : Type 0 where
  pub uid_kept : q.uid ≡ p.uid
  pub saved_kept : q.saved_uid ≡ p.saved_uid
  pub euid_old : (q.euid ≡ p.uid) ⊎ ((q.euid ≡ p.euid) ⊎ (q.euid ≡ p.saved_uid))
  pub gid_kept : q.gid ≡ p.gid
  pub saved_gid_kept : q.saved_gid ≡ p.saved_gid
  pub egid_old : (q.egid ≡ p.gid) ⊎ ((q.egid ≡ p.egid) ⊎ (q.egid ≡ p.saved_gid))

IsConfined-refl : (p : Ids) → IsConfined p p
IsConfined-refl p = ground arith

run_call-IsConfined : (p : Ids) (c : Call) → IsPlain p → IsConfined p (run_call p c).0
unfolding run_call
run_call-IsConfined p (setreuid r e) h = ground arith
run_call-IsConfined p (setregid r e) h = ground arith
run_call-IsConfined p (ask q) h = IsConfined-refl p

IsConfined-IsPlain : (p q : Ids) → IsPlain p → IsConfined p q → IsPlain q
IsConfined-IsPlain p q h c = ground arith

IsConfined-trans : (p q r : Ids) → IsConfined p q → IsConfined q r → IsConfined p r
IsConfined-trans p q r a b = ground arith

-- If none of the three user ids of a process is root's, then after any sequence of calls its real and
-- its saved user and group ids are what they were, its effective user id is one of the three user ids
-- that it had, and its effective group id one of the three group ids.
pub run_calls-IsConfined : (p : Ids) (cs : List Call) → IsPlain p → IsConfined p (run_calls p cs)
unfolding run_calls
run_calls-IsConfined p [] h = IsConfined-refl p
run_calls-IsConfined p (c ∷ cs) h =
    let once = run_call-IsConfined p c h in
    let q = (run_call p c).0 in
    IsConfined-trans p q (run_calls q cs) once
      (run_calls-IsConfined q cs (IsConfined-IsPlain p q h once))
