-- ===== src/Credentials.antt =====
-- The user and group ids of a process: keow-kernel/KeowKernel/sys_perms.cpp.
pub mod Kept
mod Tests
use keow.Prelude.{
  ℕ, zero, suc, ◌-◌, ◌%◌, Bool, true, false, not, ◌&&◌, ◌||◌, List, [], ◌∷◌, ◌==◌, if◌then◌else◌,
}
use keow.Errno.{word, negative, eperm}

-- m_uid, m_euid, m_saved_uid, m_gid, m_egid and m_saved_gid of a process, as words.
pub record Ids : Type 0 where
  pub uid : ℕ
  pub euid : ℕ
  pub saved_uid : ℕ
  pub gid : ℕ
  pub egid : ℕ
  pub saved_gid : ℕ

-- The -1 that leaves an id as it is.
abbrev pub unchanged : ℕ
unchanged = word - 1

abbrev pub is_root : Ids → Bool
is_root p = p.uid == 0 || p.euid == 0

-- Each half of setreuid and setregid takes the ids with eax so far.
unfoldable pub set_uid : ℕ → Ids × ℕ → Ids × ℕ
set_uid ruid (p, eax) =
    if not (ruid == unchanged) && is_root p then (record p { uid = ruid }, 0) else (p, eax)

unfoldable pub set_euid : ℕ → Ids × ℕ → Ids × ℕ
set_euid id (p, eax) =
    if not (id == unchanged) && (is_root p || id == p.uid || id == p.euid || id == p.saved_uid)
    then (record p { euid = id }, 0)
    else (p, eax)

unfoldable pub sys_setreuid : Ids → ℕ → ℕ → Ids × ℕ
unfolding set_uid set_euid
sys_setreuid p ruid id = set_euid id (set_uid ruid (p, negative eperm))

-- The test of setregid for the id that it sets, which asks for uid 0 as setreuid does.
unfoldable pub set_gid : ℕ → Ids × ℕ → Ids × ℕ
set_gid rgid (p, eax) =
    if not (rgid == unchanged) && is_root p then (record p { gid = rgid }, 0) else (p, eax)

unfoldable pub set_egid : ℕ → Ids × ℕ → Ids × ℕ
set_egid id (p, eax) =
    if not (id == unchanged) && (is_root p || id == p.gid || id == p.egid || id == p.saved_gid)
    then (record p { egid = id }, 0)
    else (p, eax)

unfoldable pub sys_setregid : Ids → ℕ → ℕ → Ids × ℕ
unfolding set_gid set_egid
sys_setregid p rgid id = set_egid id (set_gid rgid (p, negative eperm))

-- The calls that return an id, and those of the chmod and chown families, which do nothing.
pub data Query : Type 0 where
  getuid geteuid getgid getegid : Query
  chmod fchmod chown lchown fchown : Query

unfoldable pub query : Ids → Query → ℕ
query p getuid = p.uid
query p geteuid = p.euid
query p getgid = p.gid
query p getegid = p.egid
query p chmod = 0
query p fchmod = 0
query p chown = 0
query p lchown = 0
query p fchown = 0

-- A call of sys_perms.cpp; the calls whose names end in 32 run the same code.
pub data Call : Type 0 where
  setreuid : ℕ → ℕ → Call
  setregid : ℕ → ℕ → Call
  ask : Query → Call

unfoldable pub run_call : Ids → Call → Ids × ℕ
unfolding sys_setreuid sys_setregid query
run_call p (setreuid r e) = sys_setreuid p r e
run_call p (setregid r e) = sys_setregid p r e
run_call p (ask q) = (p, query p q)

-- A sequence of calls of one process.
unfoldable pub run_calls : Ids → List Call → Ids
unfolding run_call
run_calls p [] = p
run_calls p (c ∷ cs) = run_calls (run_call p c).0 cs
