-- ===== src/Select.antt =====
-- select of keow-kernel/KeowKernel/sys_io.cpp (sys__newselect), and the operations on a set of
-- descriptors of keow-kernel/KeowKernel/linux_includes.h.
pub mod Answers
pub mod Polls
pub mod Rounds
mod Tests
use keow.Prelude.{
  ℕ, zero, suc, ◌+◌, ◌-◌, ◌*◌, ◌/◌, ◌%◌, Bool, true, false, not, ◌&&◌, ◌||◌, List, [], ◌∷◌, Option,
  none, some, ltb, ◌==◌, if◌then◌else◌, ◌>>=◌, get_elem?,
}
use keow.Errno.{word, negative, is_negative}

-- The bits of a linux::fd_set.
abbrev pub FdSet : Type 0
FdSet = ℕ → Bool

abbrev pub fd_setsize : ℕ
fd_setsize = 1024

-- The number of 32-bit words of a set.
abbrev pub fdset_longs : ℕ
fdset_longs = fd_setsize / 32

-- The memset clears as many bytes as the set has words; the other bits stay as they are.
unfoldable pub fd_zero : FdSet → FdSet
fd_zero s = λ i. if ltb i (8 * fdset_longs) then false else s i

-- `none` is a read past the end of the set.
unfoldable pub fd_isset : ℕ → FdSet → Option Bool
fd_isset fd s = if ltb fd fd_setsize then some (s fd) else none

unfoldable pub set_fd : ℕ → FdSet → FdSet
set_fd fd s = λ i. (i == fd) || s i

pub record FdSets : Type 0 where
  pub reads : FdSet
  pub writes : FdSet
  pub excepts : FdSet

-- The three sets as pointers of the process, `none` for NULL, with the sets that they point to.
pub record Pointers : Type 0 where
  pub read_fds : Option FdSet
  pub write_fds : Option FdSet
  pub except_fds : Option FdSet

-- CanRead, CanWrite and HasException of the open objects, at one time.
pub record Watch (O : Type 0) : Type 0 where
  pub can_read : O → Bool
  pub can_write : O → Bool
  pub has_exception : O → Bool

-- A turn of the loop: the objects as it polls them, and the tick count after its Sleep.
abbrev pub PollTurn : Type 0 → Type 0
PollTurn O = Watch O × ℕ

-- `fault` is an access outside of a set or of the table; `waiting` asks for more turns. A call that
-- returns has stored the sets whose pointers are not NULL.
pub data Selection : Type 0 where
  fault : Selection
  waiting : Selection
  returned : Pointers → ℕ → Selection

unfoldable pub request_set : FdSet → Option FdSet → FdSet
request_set stack none = fd_zero stack
request_set stack (some s) = s

unfoldable pub requests : FdSets → Pointers → FdSets
requests stack p = record {
  reads = request_set stack.reads p.read_fds;
  writes = request_set stack.writes p.write_fds;
  excepts = request_set stack.excepts p.except_fds;
}

unfoldable pub stored_set : Option FdSet → FdSet → Option FdSet
stored_set none result = none
stored_set (some s) result = some result

unfoldable pub store_results : Pointers → FdSets → Pointers
store_results p results = record {
  read_fds = stored_set p.read_fds results.reads;
  write_fds = stored_set p.write_fds results.writes;
  except_fds = stored_set p.except_fds results.excepts;
}

-- A signed division by 1000 in a DWORD.
unfoldable pub thousandth : ℕ → ℕ
thousandth w = if is_negative w then negative ((word - w) / 1000) else w / 1000

-- INFINITE, or the milliseconds of the seconds and microseconds.
unfoldable pub wait_ms : Option (ℕ × ℕ) → ℕ
wait_ms none = word - 1
wait_ms (some (sec, usec)) = (sec * 1000 + thousandth usec) % word

-- Whether the loop takes another turn when it has found nothing.
unfoldable pub polls_again : ℕ → ℕ → ℕ → Bool
polls_again wait end tick = not (wait == 0) && ltb tick end

unfoldable pub mark : Bool → ℕ → FdSet × Bool → FdSet × Bool
mark true fd (result, found) = (set_fd fd result, true)
mark false fd (result, found) = (result, found)

-- The descriptors that a signed count lets the loop reach.
unfoldable pub bound : ℕ → ℕ
bound num = if is_negative num then 0 else num

module _ {O : Type 0} where
  unfoldable pub is_ready : (O → Bool) → Option O → Bool
  is_ready ready none = false
  is_ready ready (some h) = ready h

  -- One of the three tests on a descriptor; the table is read only for a bit that is set.
  unfoldable pub check :
      List (Option O) → FdSet → (O → Bool) → ℕ → FdSet × Bool → Option (FdSet × Bool)
  check files asked ready fd s = fd_isset fd asked >>= λ b.
      if b then (get_elem? files fd >>= λ slot. some (mark (is_ready ready slot) fd s)) else some s

  unfoldable pub poll_fd :
      List (Option O) → FdSets → Watch O → ℕ → FdSets × Bool → Option (FdSets × Bool)
  poll_fd files asked w fd (s, found) =
      check files asked.reads w.can_read fd (s.reads, found) >>= λ r.
      check files asked.writes w.can_write fd (s.writes, r.1) >>= λ t.
      check files asked.excepts w.has_exception fd (s.excepts, t.1) >>= λ e.
      some (record { reads = r.0; writes = t.0; excepts = e.0 }, e.1)

  -- The descriptors from `fd` on, as many as are left.
  unfoldable pub poll :
      List (Option O) → FdSets → Watch O → ℕ → ℕ → FdSets × Bool → Option (FdSets × Bool)
  poll files asked w zero fd s = some s
  poll files asked w (suc n) fd s = poll_fd files asked w fd s >>= poll files asked w n (suc fd)

  unfoldable pub select_turns :
      List (Option O) → FdSets → Pointers → ℕ → ℕ → ℕ → List (PollTurn O) → FdSets → Selection
  select_turns files asked p num wait end [] s = Selection.waiting
  select_turns files asked p num wait end ((w, tick) ∷ turns) s =
      elim (poll files asked w (bound num) 0 (s, false)) [
        | none ↦ Selection.fault
        | some (r, true) ↦ Selection.returned (store_results p r) num
        | some (r, false) ↦ elim (polls_again wait end tick) [
          | true ↦ select_turns files asked p num wait end turns r
          | false ↦ Selection.returned (store_results p r) 0
        ]
      ]

  -- `stack_requests` and `stack_results` are the six sets as the call finds them on its stack, and
  -- `ticks` is the tick count at its start.
  unfoldable pub sys_newselect :
      List (Option O)
      → FdSets
      → FdSets
      → ℕ
      → Pointers
      → Option (ℕ × ℕ)
      → ℕ
      → List (PollTurn O)
      → Selection
  sys_newselect files stack_requests stack_results num p timeout ticks turns =
      select_turns files (requests stack_requests p) p num (wait_ms timeout)
        ((ticks + wait_ms timeout) % word) turns
        (record {
          reads = fd_zero stack_results.reads;
          writes = fd_zero stack_results.writes;
          excepts = fd_zero stack_results.excepts;
        })
