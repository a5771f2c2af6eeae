-- ===== src/Lib.antt =====
-- TOS, a small operating system: a model of its kernel and of its network protocols.
--
-- The parts and how they interact
--
-- Kernel/State.antt: the process control block, the port and the other data of include/kernel.h,
--   and the global variables of the kernel in the one record `Kernel`. `Outcome` says whether the
--   machine goes on or a panic or an assertion of include/assert.h stops it.
-- Kernel/Memory.antt: kernel/mem.c, bytes, words and longs in memory.
-- Kernel/Dispatch.antt: kernel/dispatch.c, with the table of kernel/disptable.c in
--   Kernel/Dispatch/Table.antt. Ring, Inv, Enqueue, Dequeue and Choice are about the circular lists
--   that `add_ready_queue` and `remove_ready_queue` link, and about the choice of `dispatcher`.
-- Kernel/Ipc.antt: kernel/ipc.c, the ports and send, message, receive and reply. Chain is about
--   the list of blocked processes of one port, Ports about the loop of `receive`.
-- Kernel/Intr.antt: kernel/intr.c, `wait_for_interrupt` and the service routines.
-- Kernel/Process.antt: kernel/process.c, `create_process` and `init_process`, and the start of
--   kernel/main.c. Stack is about the stack of a new process, Create about the invariant, Boot about
--   the first kernel.
-- Kernel/System.antt: the invariant of the whole kernel, `IsSystem`. Its children say for each
--   operation what it leads to: Switch and Block hold the steps that the operations share, Send,
--   Wait, Receive and Reply the operations. PortCalls is about opening, closing and creating
--   ports and the end of `wait_for_interrupt`. Sound collects them, and Reach is about sequences of
--   system calls and interrupts.
-- Net/Bytes.antt: the helpers of include/nll.h. Net/Eth.antt: kernel/eth.c. Net/Arp.antt:
--   kernel/arp.c, with Packet and Cache. Net/Udp.antt: kernel/udp.c, with Sum, Checksum and Packet.
--   Net/Ip.antt: kernel/ip.c, with Checksum, Header and Dotted.
--
-- Window.antt: kernel/window.c, the windows of the screen. Loop is about its counting loops, Scroll
--   about scrolling and clearing, Output and Line about `output_char`. Window/Number.antt holds
--   `printnum`, with Window/Numeral.antt about its decimal digits, Window/Format.antt `vsprintf`,
--   `wprintf` and `kprintf`, with Fuel and Text.
-- Drivers/Keyboard.antt: kernel/keyb.c, with Typing, Locks and Alt. Drivers/Timer.antt:
--   kernel/timer.c. Drivers/Events.antt: kernel/em.c, with Listeners.
-- Programs/Shell.antt: kernel/shell.c, with Edit and Command. Programs/Pacman.antt: kernel/pacman.c,
--   with Random, Beside, Walk and Start.
-- Fat.antt: tools/fat/fat.c and tools/fat/fs.h, the library of the host tools for volumes with a file
--   allocation table. Entry, Mirror, Free and Chain are about the table; Fat/Init.antt holds
--   `fs_init`, Fat/File.antt the control blocks with `fs_read` and `fs_write`, Fat/Seek.antt
--   `TOS_fs_read` and `TOS_fs_seek`, Fat/Directory.antt the search in the root directory, with Search,
--   and Fat/Open.antt opening and closing. Content says what a file holds, Read and Handle are about
--   reading by a descriptor. Place is about the sectors of a volume, and Write, with Link, Loop and
--   Close, about `fs_write`.
--
-- The operations of the kernel call each other as in the source: an operation of kernel/ipc.c or
-- kernel/intr.c changes the state of processes, calls `add_ready_queue` and `remove_ready_queue`,
-- and ends in `resign`, which lets the process run that `dispatcher` chooses. The processes of the
-- drivers are functions from a message to what they send: the notifier of the keyboard gives key
-- strokes, which the event manager hands to the shell, and the shell and the game write to windows.
--
-- Conventions
--
-- A pointer to a PCB or a port is a number: 0 is NULL and `i + 1` is the element `i` of the array.
-- Arrays of the kernel are functions, so that a write through a pointer is seen by every reader.
-- Numbers of the machine are natural numbers with the wrap-around written out where it matters. The
-- loop of `receive` over the ports runs on the fuel 41, since a process owns at most 40 ports; the
-- loop of `ip_checksum` that folds the carry runs twice at most. Interrupts are masked in every
-- operation of the kernel, so that an operation is one step, but for `wait_for_interrupt`,
-- whose end is one of its own. `vsprintf` runs on the length of the format, since every round takes a
-- character; the digits of a number are 32 at most, a ghost finds its way with five tries at most, and
-- a new ghost its place with 24, from every random number.
-- The loops of tools/fat/fat.c run on what they count: bytes, clusters or entries of a directory.
--
-- Not modelled: the assembler code that saves and loads registers, the interrupt descriptor table,
-- the subdirectories of a volume, the pixels of the screen, the drivers of the network card and of the
-- serial line, the train, and the other programs.
pub mod Base
pub mod Kernel
pub mod Net
pub mod Window
pub mod Drivers
pub mod Programs
pub mod Fat
