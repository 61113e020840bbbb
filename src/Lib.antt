-- ===== src/Lib.antt =====
-- JosLab: a model of the kernel of a teaching operating system (JOS) for 32-bit x86 machines, and
-- of the library routines it shares with its user programs.
--
-- The kernel keeps a table of physical pages and page tables (kern/pmap.c), a table of
-- environments, its processes (kern/env.c), which a round-robin scheduler runs (kern/sched.c) and
-- which call the kernel by system calls (kern/syscall.c). Traps, interrupts and page faults enter
-- the kernel through kern/trap.c, which calls the scheduler, the system calls and the user's page
-- fault upcall. A spinlock guards the kernel (kern/spinlock.c); the console (kern/console.c), the
-- string routines (lib/string.c) and the printing routines (lib/printfmt.c) stand beside it.
--
-- The files:
-- - Base: shared names, tests, lists, bits, and runs that may panic or fault.
-- - Mmu (inc/mmu.h, inc/memlayout.h, inc/types.h): addresses, layout, rounding; Mmu/Address and
--   Mmu/Descriptor hold what is proved of them.
-- - Kernel (inc/error.h): error codes and `int` results.
-- - Pmap (kern/pmap.c, kern/pmap.h): `Mem` holds the page records and the words of memory by frame
--   and index; functions keep the names of the source. Pmap/Free is about the free list,
--   Pmap/Space, Grown, Walk, Entry, Lookup, Remove, Displace and Insert about page tables,
--   Pmap/User about the check of user memory, Pmap/Boot about start-up, Pmap/Region about regions
--   that are mapped at once, and Pmap/Overlay about regions that need new page tables. Pmap/Init is
--   `mem_init` with `check_kern_pgdir`: Init/Alloc is about its first half, Init/Stacks about the
--   stacks of the CPUs; Init/Layout has what is to be mapped, Init/Laid and Lay that it is, and
--   Init/Loops and Check that the kernel's test passes.
-- - Env (inc/env.h, inc/trap.h, kern/env.c): the table of environments in a `Kernel`, `envid2env`
--   and `env_run`; Env/Init, Env/Alloc, Env/Free and Env/Load (with the headers of inc/elf.h) have
--   the other operations, Env/Lookup, Env/Fresh and Env/Switch hold what is proved, Env/Region of
--   `region_alloc`, and Env/Image, Segment, Program and Icode of `load_icode`.
-- - Sched (kern/sched.c): the choice of the next environment, and Sched/Order and Sched/Progress.
-- - Syscall (kern/syscall.c): the system calls, with Syscall/Ipc for IPC and the dispatcher;
--   Syscall/Authority and Syscall/Delivery hold the theorems.
-- - Strings (lib/string.c): functions on a memory of bytes, and Strings/Length, Compare and Move;
--   Strings/Number has `strtol`.
-- - Console (kern/console.c): the input ring and what the devices put into it, the keyboard (maps in
--   Console/Keys) and the screen;
--   Console/Queue and Console/Screen hold the theorems.
-- - Spinlock (kern/spinlock.c): the lock, step by step, and Spinlock/Exclusion.
-- - Print (lib/printfmt.c): `printnum` and the buffer of `vsnprintf`, with Print/Digits,
--   Print/Buffer, and Print/RoundTrip on `strtol` after `printnum`; Print/Format has `vprintfmt`
--   and Print/Plain the theorems on it; Print/Collect is the buffered output of lib/printf.c.
-- - Trap (kern/trap.c, inc/trap.h): numbers and names; Trap/Idt has the interrupt table, the task
--   segment and the global descriptor table, Trap/Fault the page fault handler, Trap/Dispatch
--   `trap_dispatch` and `trap`; Trap/Gates, Bytes, Stores, Frame, Upcall and Return hold what is
--   proved.
-- - Kdebug (kern/kdebug.c, kern/kdebug.h, inc/stab.h): `stab_binsearch`, with Kdebug/Rounds on its
--   end, Kdebug/Bracket on its invariant and Kdebug/Region on its result; Kdebug/Eip has
--   `debuginfo_eip`, and Kdebug/Functions the theorem on it.
-- - Start (kern/entrypgdir.c): the page tables that the kernel starts with.
-- - Mp (kern/mpconfig.c, kern/cpu.h): the MP tables and the table of CPUs, and Mp/Scan.
-- - Monitor (lib/readline.c, kern/monitor.c): the line editor, and Monitor/Line; Monitor/Command is
--   `runcmd`, Monitor/Words, Monitor/Loops and Monitor/Arguments are about its parse, and
--   Monitor/Lookup about the command it calls.
-- - User (lib/fork.c, lib/pgfault.c, lib/ipc.c): the user-level library over an interface of the
--   system calls, which may fail; User/Cow and User/Private are about copy on write, User/Ipc about IPC. User/Stubs
--   has the stubs of lib/syscall.c, which call `trap` of the kernel, and `exit` of lib/exit.c.
-- - Boot (boot/main.c): the boot loader over a disk that is a parameter, and Boot/Segments.
-- - Examples: concrete states on which the theorems are applied.
--
-- Numbers are natural numbers; a 32-bit operation writes its `% 2 ^ 32`. The addresses of
-- lib/string.c do not wrap round. Mutable state is passed from call to call. A panic and a fault
-- are results of the type `Run`, so a theorem that gives an `ok` result also says that the code
-- returns. A kernel runs on one CPU at a time, under the big kernel lock.
--
-- Fuel: the loops of the string routines that look for the end of a string take a number of
-- rounds, and the theorems ask for one round more than the string is long; `printnum` takes more
-- rounds than the number, and `vprintfmt` one for each character that it reads; the loop of
-- `user_mem_check` takes the pages of the range and three rounds more, which the theorem on it
-- shows to be enough; `stab_binsearch` takes two rounds for each stab of its range and two more,
-- which is proved to be enough for every table; `ipc_send` takes more rounds than the receiver
-- makes it wait, `readline` the characters of its input, and `runcmd` more rounds for each loop
-- than the line has characters. All other loops count down the rounds of the source.
--
-- Outside the model: port input and output, inline assembly, the console output of `cprintf`, the
-- control registers that `mem_init` loads at its end and the checks between its halves, what the
-- commands of the monitor print, the echo of `readline`, and the assembly that enters and leaves
-- the kernel.
-- `sys_page_alloc` is left out, since it passes `page_alloc` a pointer.
mod Base
pub mod Mmu
pub mod Kernel
pub mod Pmap
pub mod Env
pub mod Sched
pub mod Syscall
pub mod Strings
pub mod Console
pub mod Spinlock
pub mod Print
pub mod Kdebug
pub mod Trap
pub mod Start
pub mod User
pub mod Mp
pub mod Monitor
pub mod Boot
mod Examples
