-- ===== src/StaticTree/Trees.antt =====
-- The trees of keow-kernel/KeowKernel/FilesystemProc.cpp and FilesystemDev.cpp.
use keow.Prelude.{◌≢◌, refl, List, [], ◌∷◌, All}
use keow.FilePath.{Bytes, append_path}
use keow.StaticTree.{
  handler0, handler1, handler2, lister0, lister1, Node, fault, new_node, create_io_handler,
}
use keow.StaticTree.Additions.{
  Addition, file, list, add_all, Matched, stars, create_io_handler-add_all,
}
use Prim.Native.Char.{code}
use Prim.Native.String.{String}

abbrev pub codes : String → Bytes
codes String.[] = []
codes (String.◌∷◌ c s) = code c ∷ codes s

-- The methods of FilesystemProc that its constructor registers.
pub record ProcProcedures (I : Type 0) (E : Type 0) : Type 0 where
  pub get_pids : List E
  pub get_open_files : Bytes → List E
  pub get_mem_info : Bytes → I
  pub get_cpu_info : Bytes → I
  pub get_uptime : Bytes → I
  pub get_stat : Bytes → I
  pub get_mounts : Bytes → I
  pub get_load_avg : Bytes → I
  pub get_pid_cmdline : Bytes → Bytes → I
  pub get_pid_cwd : Bytes → Bytes → I
  pub get_pid_environ : Bytes → Bytes → I
  pub get_pid_exe : Bytes → Bytes → I
  pub get_pid_fd : Bytes → Bytes → Bytes → I
  pub get_pid_maps : Bytes → Bytes → I
  pub get_pid_mem : Bytes → Bytes → I
  pub get_pid_root : Bytes → Bytes → I
  pub get_pid_stat : Bytes → Bytes → I
  pub get_pid_statm : Bytes → Bytes → I
  pub get_pid_status : Bytes → Bytes → I

module _ {I E : Type 0} where
  unfoldable pub proc_additions : ProcProcedures I E → List (Addition I E)
  proc_additions p =
      list (codes "/") (lister0 p.get_pids)
      ∷ list (codes "/*/fd/") (lister1 p.get_open_files)
      ∷ file (codes "/meminfo") (handler0 p.get_mem_info)
      ∷ file (codes "/cpuinfo") (handler0 p.get_cpu_info)
      ∷ file (codes "/uptime") (handler0 p.get_uptime)
      ∷ file (codes "/stat") (handler0 p.get_stat)
      ∷ file (codes "/mounts") (handler0 p.get_mounts)
      ∷ file (codes "/loadavg") (handler0 p.get_load_avg)
      ∷ file (codes "/*/cmdline") (handler1 p.get_pid_cmdline)
      ∷ file (codes "/*/cwd") (handler1 p.get_pid_cwd)
      ∷ file (codes "/*/environ") (handler1 p.get_pid_environ)
      ∷ file (codes "/*/exe") (handler1 p.get_pid_exe)
      ∷ file (codes "/*/fd/*") (handler2 p.get_pid_fd)
      ∷ file (codes "/*/maps") (handler1 p.get_pid_maps)
      ∷ file (codes "/*/mem") (handler1 p.get_pid_mem)
      ∷ file (codes "/*/root") (handler1 p.get_pid_root)
      ∷ file (codes "/*/stat") (handler1 p.get_pid_stat)
      ∷ file (codes "/*/statm") (handler1 p.get_pid_statm)
      ∷ file (codes "/*/status") (handler1 p.get_pid_status)
      ∷ []

  unfoldable pub proc_tree : ProcProcedures I E → Node I E
  unfolding proc_additions
  proc_tree p = add_all new_node (proc_additions p)

module _ {I : Type 0} where
  unfoldable pub dev_additions :
      (console tty null random u_random : Bytes → I) → (E : Type 0) → List (Addition I E)
  dev_additions console tty null random u_random E =
      file (codes "/console") (handler0 console)
      ∷ file (codes "/tty") (handler0 tty)
      ∷ file (codes "/null") (handler0 null)
      ∷ file (codes "/random") (handler0 random)
      ∷ file (codes "/urandom") (handler0 u_random)
      ∷ []

module _ {I E : Type 0} where
  proc_additions-Matched : (p : ProcProcedures I E) → All Matched (proc_additions p)
  unfolding proc_additions stars append_path
  proc_additions-Matched p = (
    (refl, refl),
    (
      (refl, refl),
      (
        (refl, refl),
        (
          (refl, refl),
          (
            (refl, refl),
            (
              (refl, refl),
              (
                (refl, refl),
                (
                  (refl, refl),
                  (
                    (refl, refl),
                    (
                      (refl, refl),
                      (
                        (refl, refl),
                        (
                          (refl, refl),
                          (
                            (refl, refl),
                            (
                              (refl, refl),
                              (
                                (refl, refl),
                                ((refl, refl), ((refl, refl), ((refl, refl), ((refl, refl), tt)))),
                              ),
                            ),
                          ),
                        ),
                      ),
                    ),
                  ),
                ),
              ),
            ),
          ),
        ),
      ),
    ),
  )

  -- No path under /proc makes CreateIOHandler call a procedure through a wrong or NULL pointer, or read
  -- past the wildcards that it captured.
  pub proc_tree-safe :
      (entry : Bytes → E) (p : ProcProcedures I E) (path : Bytes) (es : List Bytes)
      → create_io_handler entry (proc_tree p) path es ≢ fault
  unfolding proc_tree
  proc_tree-safe entry p path es =
      let (first, rest) = proc_additions-Matched p in
      create_io_handler-add_all entry _ _ first rest path es
