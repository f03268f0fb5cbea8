-- ===== src/Lib.antt =====
-- A model of the Keow kernel: Windows code under keow/keow-kernel/KeowKernel that runs Linux
-- processes. Its parts below are translated function by function; a fault of the C++ code (a read
-- or write outside of a block, the use of a NULL pointer) is the value `none`.
--
-- - Text: the class `string` of String.cpp, over the block of bytes it owns. `string::reserve` is
--   `reserve`, the three `operator +=` are `append_char`, `append_c_string` and `append`, the two
--   `operator =` are `assign_c_string` and `assign`. What `new char[n]` returns is a parameter, the
--   record `Allocator`: a block of n bytes with any contents. The loop of `reserve` has as many
--   rounds as the size that is asked for, and each round adds 1024. A size that is
--   asked for is an int, so one past the largest is negative and grows nothing.
-- - FilePath: the path stack of Path.cpp: AppendPath, JoinList, EqualsPartialPath and the element
--   accessors. Here and in Traverse a string is the list of its bytes. The loop of AppendPath has
--   one round more than the text has bytes, since each round but the last moves past a slash.
-- - Traverse: the rest of Path.cpp (TranverseMountPoints, the getters with their caches,
--   SetUnixPath), MountPoint::Mount of MountPoint.cpp, and the search of `sys_umount` in
--   sys_mount.cpp. The walk reads the mount table and asks the filesystem of a mount about links;
--   a filesystem is the record `Filesystem` of its virtual functions.
-- - Errno: Win32ErrToUnixError and ElfProtectionToWin32Protection of ConstantMapping.cpp, and the
--   error numbers of linux-abi/linux/linux_defines.h that system calls return.
-- - Files: the descriptor table of Process.h with Process::FindFreeFD and the closing loop of
--   FreeResourcesBeforeExec (Process.cpp), and the system calls of sys_io.cpp that work on it. An
--   I/O object is a parameter, the record `Device` of the virtual functions of IOHandler.h.
--   A call returns the process and eax; `none` is an access outside of the table.
-- - Ldt: the table of local descriptors of MemoryHelper.cpp (AllocateLDTSelector,
--   CalculateLDTEntryForThread, GetLDTSelector, SetLDTSelector, HandlePossibleLDTException) and
--   set_thread_area, get_thread_area and modify_ldt of sys_mem.cpp. Whether Windows takes a
--   descriptor is a parameter, `accepts`.
-- - StaticData: the I/O object of IOHStaticData.cpp, which holds its data: AddData, Read, Seek,
--   RefreshData and GetDirEnts64. The loop of GetDirEnts64 has as many rounds as bytes are asked
--   for, and each round fills a record of at least one byte. What the data is refreshed from, the
--   size of a record and the address of the object are parameters.
-- - Positions: lseek, _llseek and getdents64 of sys_io.cpp, on the table of Files. The record
--   `Seekable` is `Seek` and `GetDirEnts64` of an object, and `Positioned` the laws that a client
--   of lseek relies on; the seek of StaticData keeps them.
-- - Mounts: the calls mount and umount of sys_mount.cpp and chdir of sys_io.cpp, over Traverse.
--   What Windows says of a path and the filesystems that the constructors make are parameters.
-- - Signals: the signal tables of a process and their operations in Process.cpp (SendSignal,
--   HandleSignal, InitSignalHandling, the head of DebuggerLoop's round), sigaction and sigprocmask
--   of sys_process.cpp and sigreturn of sys_rtsig.cpp. Delivery is in Signals.Delivery, the calls in
--   Signals.Calls. What reaches beyond the tables (threads, exit, the frame on the user stack) is a
--   list of effects. As many rounds as there are pending signals are enough to handle them.
-- - Console: the terminal of keow/keow-kernel/KeowConsole/cons25.cpp: OutputChar, a state machine
--   over the bytes of a text, and InputChar. What the Windows console reports after the calls made
--   so far is a parameter, and the calls are values.
-- - LinkedList: the list template of List.h over a store of nodes. The loops take fuel, one turn for
--   each node and one more.
-- - Memory: ReadMemory, WriteMemory, ReadString and FillMem of MemoryHelper.cpp, over the loop of
--   ProcessReadWriteMemory, which cuts a transfer at the pages of both ends. The two calls of
--   Windows are a parameter, also what they do when they fail. A turn moves a byte at least, so as many turns as bytes are enough; a
--   block of ReadString ends its string or is a byte of it at least.
-- - Kill: FindProcess of KernelTable.cpp, kill of sys_sys.cpp and the calls on process groups of
--   sys_process.cpp, over a sequence of processes with their Signals.
-- - StaticTree: the tree of patterns of FilesystemGenericStatic.cpp, with AddFile, AddLister and
--   CreateIOHandler, and the additions of FilesystemProc.cpp and FilesystemDev.cpp. The handlers and
--   listers are parameters; a call through a pointer of another type, or a NULL one, is a fault.
-- - SysCalls: the table that InitSysCallTable of SysCalls.cpp fills from the numbers of
--   linux-abi/linux/linux_defines.h, and HandleInt80SysCall with its stops for a tracer, which use
--   Signals. The functions of the other files are a parameter, by their names.
-- - Credentials: the calls of sys_perms.cpp on the ids of a process.
-- - Wait: wait4 of sys_process.cpp. What Windows reports and the processes after it are given round
--   by round, so a wait may outlast the rounds that are given.
-- - Allocation: AllocateMemAndProtect and DeallocateMemory of MemoryHelper.cpp, and brk of
--   sys_mem.cpp. The pages of Windows are the record `VirtualMemory`, and `IsWindows` is what the
--   code relies on of them below the end of the user's part of the address space; a query that fails
--   leaves the region of the last, as in the code. A round of the loops goes a page forward at least, so fuel for the
--   pages of the area and of two blocks is enough.
-- - Elf: LoadElfImage of Process.cpp up to its interpreter. The allocation, the writes to the process
--   and the file are the record `ImageMemory`.
-- - Select: sys__newselect of sys_io.cpp and the sets of descriptors of linux_includes.h. What the
--   objects are ready for and the tick count are given turn by turn, so a wait may outlast the turns
--   that are given; what the stack holds before a set is cleared is a parameter.
--
-- Not modelled: the calls of Windows (LegacyWindows.cpp, SysCallDll_Kernel.cpp and the NT calls of
-- Process.cpp), which need the operating system; the objects over files, pipes and devices of the
-- host (IOHFile.cpp, IOHPipe.cpp, IOHNtConsole.cpp) with open, stat, the directory calls and mmap,
-- which pass their arguments on to such calls; the console's launcher and its device (DevConsole.cpp,
-- KeowConsole.cpp); ptrace, the forks and the start of an image, which work on a suspended process of
-- Windows; locks of the kernel table, since each call is one step here; the trace output.
pub mod Prelude
pub mod Errno
pub mod Text
pub mod FilePath
pub mod Traverse
pub mod Files
pub mod Allocation
pub mod Console
pub mod Credentials
pub mod Elf
pub mod Kill
pub mod Ldt
pub mod LinkedList
pub mod Memory
pub mod Mounts
pub mod Positions
pub mod Select
pub mod Signals
pub mod StaticData
pub mod StaticTree
pub mod SysCalls
pub mod Wait
