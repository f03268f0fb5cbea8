-- ===== src/SysCalls/Numbers/High.antt =====
-- The __NR_ constants from readahead to recvmmsg: linux-abi/linux/linux_defines.h of keow-kernel/KeowKernel.
use keow.Prelude.{ℕ, List, [], ◌∷◌}
use Prim.Native.String.{String}

unfoldable pub third_numbers : List (String × ℕ)
third_numbers =
    ("readahead", 225)
    ∷ ("setxattr", 226)
    ∷ ("lsetxattr", 227)
    ∷ ("fsetxattr", 228)
    ∷ ("getxattr", 229)
    ∷ ("lgetxattr", 230)
    ∷ ("fgetxattr", 231)
    ∷ ("listxattr", 232)
    ∷ ("llistxattr", 233)
    ∷ ("flistxattr", 234)
    ∷ ("removexattr", 235)
    ∷ ("lremovexattr", 236)
    ∷ ("fremovexattr", 237)
    ∷ ("tkill", 238)
    ∷ ("sendfile64", 239)
    ∷ ("futex", 240)
    ∷ ("sched_setaffinity", 241)
    ∷ ("sched_getaffinity", 242)
    ∷ ("set_thread_area", 243)
    ∷ ("get_thread_area", 244)
    ∷ ("io_setup", 245)
    ∷ ("io_destroy", 246)
    ∷ ("io_getevents", 247)
    ∷ ("io_submit", 248)
    ∷ ("io_cancel", 249)
    ∷ ("alloc_hugepages", 250)
    ∷ ("free_hugepages", 251)
    ∷ ("exit_group", 252)
    ∷ ("lookup_dcookie", 253)
    ∷ ("epoll_create", 254)
    ∷ ("epoll_ctl", 255)
    ∷ ("epoll_wait", 256)
    ∷ ("remap_file_pages", 257)
    ∷ ("set_tid_address", 258)
    ∷ ("timer_create", 259)
    ∷ ("timer_settime", 260)
    ∷ ("timer_gettime", 261)
    ∷ ("timer_getoverrun", 262)
    ∷ ("timer_delete", 263)
    ∷ ("clock_settime", 264)
    ∷ ("clock_gettime", 265)
    ∷ ("clock_getres", 266)
    ∷ ("clock_nanosleep", 267)
    ∷ ("statfs64", 268)
    ∷ ("fstatfs64", 269)
    ∷ ("tgkill", 270)
    ∷ ("utimes", 271)
    ∷ ("fadvise64_64", 272)
    ∷ ("vserver", 273)
    ∷ ("mbind", 274)
    ∷ ("get_mempolicy", 275)
    ∷ ("set_mempolicy", 276)
    ∷ ("mq_open", 277)
    ∷ ("mq_unlink", 278)
    ∷ ("mq_timedsend", 279)
    ∷ ("mq_timedreceive", 280)
    ∷ ("mq_notify", 281)
    ∷ ("mq_getsetattr", 282)
    ∷ ("kexec_load", 283)
    ∷ ("waitid", 284)
    ∷ ("add_key", 286)
    ∷ ("request_key", 287)
    ∷ ("keyctl", 288)
    ∷ ("ioprio_set", 289)
    ∷ ("ioprio_get", 290)
    ∷ ("inotify_init", 291)
    ∷ ("inotify_add_watch", 292)
    ∷ ("inotify_rm_watch", 293)
    ∷ ("migrate_pages", 294)
    ∷ ("openat", 295)
    ∷ ("mkdirat", 296)
    ∷ ("mknodat", 297)
    ∷ ("fchownat", 298)
    ∷ ("futimesat", 299)
    ∷ ("fstatat64", 300)
    ∷ ("unlinkat", 301)
    ∷ ("renameat", 302)
    ∷ ("linkat", 303)
    ∷ ("symlinkat", 304)
    ∷ ("readlinkat", 305)
    ∷ ("fchmodat", 306)
    ∷ ("faccessat", 307)
    ∷ ("pselect6", 308)
    ∷ ("ppoll", 309)
    ∷ ("unshare", 310)
    ∷ ("set_robust_list", 311)
    ∷ ("get_robust_list", 312)
    ∷ ("splice", 313)
    ∷ ("sync_file_range", 314)
    ∷ ("tee", 315)
    ∷ ("vmsplice", 316)
    ∷ ("move_pages", 317)
    ∷ ("getcpu", 318)
    ∷ ("epoll_pwait", 319)
    ∷ ("utimensat", 320)
    ∷ ("signalfd", 321)
    ∷ ("timerfd_create", 322)
    ∷ ("eventfd", 323)
    ∷ ("fallocate", 324)
    ∷ ("timerfd_settime", 325)
    ∷ ("timerfd_gettime", 326)
    ∷ ("signalfd4", 327)
    ∷ ("eventfd2", 328)
    ∷ ("epoll_create1", 329)
    ∷ ("dup3", 330)
    ∷ ("pipe2", 331)
    ∷ ("inotify_init1", 332)
    ∷ ("preadv", 333)
    ∷ ("pwritev", 334)
    ∷ ("rt_tgsigqueueinfo", 335)
    ∷ ("perf_event_open", 336)
    ∷ ("recvmmsg", 337)
    ∷ []
