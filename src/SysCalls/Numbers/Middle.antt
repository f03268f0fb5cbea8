-- ===== src/SysCalls/Numbers/Middle.antt =====
-- The __NR_ constants from vm86old to gettid: linux-abi/linux/linux_defines.h of keow-kernel/KeowKernel.
use keow.Prelude.{ℕ, List, [], ◌∷◌}
use Prim.Native.String.{String}

unfoldable pub second_numbers : List (String × ℕ)
second_numbers =
    ("vm86old", 113)
    ∷ ("wait4", 114)
    ∷ ("swapoff", 115)
    ∷ ("sysinfo", 116)
    ∷ ("ipc", 117)
    ∷ ("fsync", 118)
    ∷ ("sigreturn", 119)
    ∷ ("clone", 120)
    ∷ ("setdomainname", 121)
    ∷ ("uname", 122)
    ∷ ("modify_ldt", 123)
    ∷ ("adjtimex", 124)
    ∷ ("mprotect", 125)
    ∷ ("sigprocmask", 126)
    ∷ ("create_module", 127)
    ∷ ("init_module", 128)
    ∷ ("delete_module", 129)
    ∷ ("get_kernel_syms", 130)
    ∷ ("quotactl", 131)
    ∷ ("getpgid", 132)
    ∷ ("fchdir", 133)
    ∷ ("bdflush", 134)
    ∷ ("sysfs", 135)
    ∷ ("personality", 136)
    ∷ ("afs_syscall", 137)
    ∷ ("setfsuid", 138)
    ∷ ("setfsgid", 139)
    ∷ ("_llseek", 140)
    ∷ ("getdents", 141)
    ∷ ("_newselect", 142)
    ∷ ("flock", 143)
    ∷ ("msync", 144)
    ∷ ("readv", 145)
    ∷ ("writev", 146)
    ∷ ("getsid", 147)
    ∷ ("fdatasync", 148)
    ∷ ("_sysctl", 149)
    ∷ ("mlock", 150)
    ∷ ("munlock", 151)
    ∷ ("mlockall", 152)
    ∷ ("munlockall", 153)
    ∷ ("sched_setparam", 154)
    ∷ ("sched_getparam", 155)
    ∷ ("sched_setscheduler", 156)
    ∷ ("sched_getscheduler", 157)
    ∷ ("sched_yield", 158)
    ∷ ("sched_get_priority_max", 159)
    ∷ ("sched_get_priority_min", 160)
    ∷ ("sched_rr_get_interval", 161)
    ∷ ("nanosleep", 162)
    ∷ ("mremap", 163)
    ∷ ("setresuid", 164)
    ∷ ("getresuid", 165)
    ∷ ("vm86", 166)
    ∷ ("query_module", 167)
    ∷ ("poll", 168)
    ∷ ("nfsservctl", 169)
    ∷ ("setresgid", 170)
    ∷ ("getresgid", 171)
    ∷ ("prctl", 172)
    ∷ ("rt_sigreturn", 173)
    ∷ ("rt_sigaction", 174)
    ∷ ("rt_sigprocmask", 175)
    ∷ ("rt_sigpending", 176)
    ∷ ("rt_sigtimedwait", 177)
    ∷ ("rt_sigqueueinfo", 178)
    ∷ ("rt_sigsuspend", 179)
    ∷ ("pread", 180)
    ∷ ("pwrite", 181)
    ∷ ("chown", 182)
    ∷ ("getcwd", 183)
    ∷ ("capget", 184)
    ∷ ("capset", 185)
    ∷ ("sigaltstack", 186)
    ∷ ("sendfile", 187)
    ∷ ("getpmsg", 188)
    ∷ ("putpmsg", 189)
    ∷ ("vfork", 190)
    ∷ ("ugetrlimit", 191)
    ∷ ("mmap2", 192)
    ∷ ("truncate64", 193)
    ∷ ("ftruncate64", 194)
    ∷ ("stat64", 195)
    ∷ ("lstat64", 196)
    ∷ ("fstat64", 197)
    ∷ ("lchown32", 198)
    ∷ ("getuid32", 199)
    ∷ ("getgid32", 200)
    ∷ ("geteuid32", 201)
    ∷ ("getegid32", 202)
    ∷ ("setreuid32", 203)
    ∷ ("setregid32", 204)
    ∷ ("getgroups32", 205)
    ∷ ("setgroups32", 206)
    ∷ ("fchown32", 207)
    ∷ ("setresuid32", 208)
    ∷ ("getresuid32", 209)
    ∷ ("setresgid32", 210)
    ∷ ("getresgid32", 211)
    ∷ ("chown32", 212)
    ∷ ("setuid32", 213)
    ∷ ("setgid32", 214)
    ∷ ("setfsuid32", 215)
    ∷ ("setfsgid32", 216)
    ∷ ("pivot_root", 217)
    ∷ ("mincore", 218)
    ∷ ("madvise", 219)
    ∷ ("madvise1", 219)
    ∷ ("getdents64", 220)
    ∷ ("fcntl64", 221)
    ∷ ("security", 223)
    ∷ ("gettid", 224)
    ∷ []
