-- ===== src/Lib.antt =====
-- A verification library for the core of lightstreak-os, a 32-bit x86 kernel in C.
--
-- The program. The boot loader enters `kmain`, which sets up the segment descriptors and the
-- interrupt gates (kernel/arch), the page allocator, the heap and paging (kernel/mm), the drivers
-- (kernel/drivers), the file system (kernel/fs), the processes and the scheduler (kernel/proc), and
-- loads the shell, which calls the kernel by `int 0x80` (kernel/syscall). Processes take their
-- control blocks and stacks from the heap; a call of exit runs the scheduler's tick, while the timer
-- interrupt only counts; the system calls on files go through a switch to the one mounted file
-- system; standard input waits for the keyboard's ring buffer, and standard output prints on the
-- text screen.
--
-- The files; theorems stand in child modules, tests and examples in a child Tests:
--   Base       numbers, bits, C arithmetic modulo 2^32, lists, Boolean tests, loops
--   Pmm        kernel/mm/pmm.c: the bitmap of page frames; Pmm.Boot is pmm_init; Pmm.Frames has the
--              single bits, Pmm.Alloc the search, Pmm.Count the counter
--   Heap       kernel/mm/heap.c: headers in memory; Heap.Blocks has the list of blocks that the
--              headers stand for, and the heap's invariant IsHeap; Heap.Safe and Heap.Release have
--              what a client relies on, Heap.Frame what the calls leave alone, and Heap.Room when an
--              allocation succeeds
--   Keyboard   kernel/drivers/keyboard.c: the ring buffer; Keyboard.Queue and Keyboard.Typing have
--              the queue of characters that it stands for
--   Vmm        kernel/mm/vmm.c: page directories and tables; Vmm.Walk is the translation by the CPU,
--              Vmm.Identity on vmm_init, Vmm.Mapping on single pages, Vmm.Users on user directories
--   Ramfs      kernel/fs/ramfs.c: 64 files of at most 32 KB; Ramfs.Data on bytes, Ramfs.Names on the
--              directory; Ramfs.Initramfs is the loader of the boot image, Ramfs.Image its format,
--              Ramfs.Loaded what is loaded and Ramfs.Slots which slot a name leads to
--   Mkramfs    tools/mkramfs.c: the image of a directory, as a list of bytes; Mkramfs.Held has memory
--              that holds bytes, Mkramfs.Table the tables, Mkramfs.RoundTrip what the kernel loads
--   Vfs        kernel/fs/vfs.c: the table of operations, and the mounting of ramfs
--   Syscall    kernel/syscall/syscall.c: the calls on descriptors; Syscall.Machine has the state of all
--              calls and the calls on processes and memory, Syscall.Handler the dispatcher;
--              Syscall.Effects, Syscall.Exit and Syscall.Ring have their theorems
--   Wrappers   userspace/lib/syscall_wrappers.h: the calls through the registers
--   Shell      userspace/shell/shell.c over an interface of the system calls; Shell.Commands has the
--              commands, Shell.Kernel the calls of this kernel and its terminal, Shell.Reading its open
--              files, Shell.Editing, Shell.Cat and Shell.Session the theorems
--   Kprintf    kernel/kernel.c: kprintf; Kprintf.Format has the text that a format describes
--   Vga        kernel/drivers/vga.c: the screen of 25 rows and 80 columns
--   Arch       kernel/arch/gdt.c and tss.c (Arch.Gdt), idt.c (Arch.Idt, Arch.Irq), irq.c (Arch.Irq) and
--              isr.c (Arch.Isr)
--   Scheduler  kernel/proc/scheduler.c and kernel/drivers/timer.c; Scheduler.Links has linked segments,
--              Scheduler.Queue the run queue as a list, Scheduler.Removal and Scheduler.Members the
--              removal from it and the addition, Scheduler.Choice one tick, Scheduler.Fair and
--              Scheduler.Zombies many, Scheduler.Pit the divisor of the timer's chip
--   Process    kernel/proc/process.c: the creation of processes and their first stack frame;
--              Process.Creation is creation on a valid heap, Process.Room on one with room
--   Launch     kernel/proc/exec.c and scheduler_init of kernel/proc/scheduler.c; Launch.Startup is what
--              kmain of kernel/kernel.c does with the heap, the processes, the timer and the files.
--              Launch.Programs is on exec, Launch.Room on the memory that it takes,
--              Launch.Startup.Placement on the place of the heap, Launch.Startup.Readied on the states
--              in between, and Launch.Startup.Shell on the whole way from a directory to the program in memory
--   Strings    userspace/lib/string.c
--
-- How the code is modelled. The state of a file's static variables is a record, and a function takes
-- the state and returns its result with the new one. A `uint32_t` is a natural number, with every
-- wrap-around written out (add32, sub32, mul32); an `int32_t` is a signed integer. An array, and
-- memory, is a function of the index; a write is `update`. A pointer is an address, 0 is NULL. A
-- string is the list of its characters in front of the NUL. An index or -1 is an Option, where the
-- code only asks whether it is -1. What assembly, the linker or the hardware supplies (addresses of
-- stubs, the scan codes that come in, the memory map) is an argument; a byte sent to a port is an
-- event or the state of the device. Log lines are left out.
--
-- Bounds and fuel. Loops with a bound are structural. The walk along the chain of headers in kmalloc
-- has the heap's size as fuel, which is more than the number of headers in it; the walk over the
-- memory map has its length, and each entry takes at least four bytes of it; utoa has 32 rounds, as
-- a 32-bit value has at most 32 digits in a base from 2 to 36. In each case a theorem says that this is
-- enough. The walk of scheduler_remove has the number of processes that it looks at, and the length
-- of the run queue is enough. The search of 64 steps in the scheduler is the bound of the code
-- itself. In keyboard_getchar and sys_read the list of keys still to come ends the wait: `none`
-- means that the kernel waits on. print_uint has 32 rounds as utoa has. A C string in memory has at
-- most 2^32 characters, the number of addresses. In the shell the fuel of readline and of cat is the
-- number of reads, and the theorems say how many are enough; the endless loop of the shell runs a
-- given number of rounds.
--
-- Not modelled: the banner, the serial port and the jump to the shell in kmain (kernel/kernel.c),
-- which are output and a call of code that was loaded; interrupts that come in between the steps of
-- another function; the answers of the host to tools/mkramfs.c beyond the entries of a directory; what
-- happens where the code writes behind its own data: a system call whose pointer leads into the state
-- of the kernel (memory is kept apart from the other state), and a copy of ramfs_write behind the 32 KB
-- of a file. Assembly, port access and the build files are outside a model of the C code.
pub mod Base
pub mod Launch
pub mod Mkramfs
pub mod Pmm
pub mod Heap
pub mod Keyboard
pub mod Ramfs
pub mod Arch
pub mod Vfs
pub mod Syscall
pub mod Vga
pub mod Strings
pub mod Scheduler
pub mod Process
pub mod Vmm
pub mod Kprintf
pub mod Wrappers
pub mod Shell
