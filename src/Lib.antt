-- ===== src/Lib.antt =====
-- The kernel of notux, in C: the parts that decide about memory, processes, files, keys and the screen.
--
-- How the parts work together. The physical page allocator (kernel/pmm.c) hands out pages; the paging
-- code (kernel/vmm.c) takes them for page tables. The process table (kernel/process.c) holds eight
-- slots; the timer calls schedule, and create_process takes page tables from vmm.c. The ELF loader
-- (load_elf_into_process of kernel/onion.c) takes pages and maps them for a process. The system calls
-- (syscall_handler of kernel/syscall.c) work on all of these, on the ring of the keyboard driver
-- (kernel/keyboard.c), on the list of files in memory (kernel/ramfs.c, kernel/ramfspawn.c), and on the
-- file system below them, whose blocks go through the buffers of xv6fs_bridge.c. mkfs.c is a program of
-- the build: it writes the disk image that this file system reads.
--
-- Files. Base and its children hold what the others share: Boolean tests, counted loops (for_loop,
-- find_from), and the laws of set_bit, clear_bit and test_bit.
-- Pmm: kernel/pmm.c. Bitmap has the laws of its primitives, Region is about pmm_init and
-- pmm_reserve_region, Alloc about pmm_alloc_page, Refine about sequences of calls and their owners.
-- Keyboard: kernel/keyboard.c. Ring and Refine compare it with a bounded queue, Decode and Chars are
-- about the characters that it stores.
-- Machine: physical memory byte by byte, with load64 and store64 for `uint64_t *`; Word has their laws.
-- Vmm: kernel/vmm.c. Frames is about the pages that it takes. Words has what a loop of writes leaves in
-- memory, Walk is vmm_virt_to_phys by levels, Tree the invariant on the tables, Grow and Extend are about
-- a table that is added, Mapping about the last write, Path about the
-- tables on the way to it, and Refine about
-- vmm_map_page as a whole; Find and Unmap are about vmm_unmap_page.
-- Bridge: kernel/Xjail/xv6/xv6fs_bridge.c, its buffers; Locks and Files have the rest of it, and Ops is
-- kernel/Xjail/xv6/xv6fs_ops.c. Coherence is about bread, Refine compares the buffers with the disk,
-- Reuse is about the choice of a buffer; Owns, Branches and Balance are about references and locks.
-- Ahci: kernel/ahci/onahci.c, the commands to a port of the disk controller; Wait is about the reads that
-- wait for the device, Issue about a transfer.
-- Boot: kernel() of kernel/onion.c; Reserved is about the pages that are in use before the first
-- allocation. Its create_default_dirs is Bridge/Boot, and Bridge.Balance is about it too.
-- Console: kernel/console.c with the drawing of kernel/font.c and kernel/gfx.c. Scroll is about scroll,
-- Bounds about the cursor and the frame, Strings about the loops over a string.
-- Idt: kernel/idt.c, the table of interrupt gates; Vectors is about where they lead.
-- Paging: kernel/paging.c, the tables of the boot. Identity reads them through vmm_virt_to_phys.
-- Process: kernel/process.c. Next and Sched are about schedule, Fair about rows of switches, Frame
-- about the kernel stack of a new process, Create about create_process, the pids, and
-- get_process_by_pid.
-- Elf: load_elf_into_process of kernel/onion.c. Bounds is about one page, Pages about a
-- segment, Whole about a file.
-- Mkfs: mkfs.c, which writes the disk image; Build has its main. Inode is about dinodes in a sector, Words
-- about tables of addresses. Bytes says what makes the blocks of the files apart; Root, Table, Where,
-- Step and Find are about block_for, Append about the loop of iappend, Agree and Files about the image
-- around it. Spec, Alloc and Run compare the operations with a map of files, Embed is about the loop of
-- main, Start, Main and Contents about main, and Build/Bitmap about balloc_mark_used.
-- Ramfs: kernel/ramfs.c; Lookup is about its comparison of names.
-- Syscall: the state of kernel/syscall.c, and FileSystem, the calls that it makes of the file system.
-- Files, Open, Memory, Exec and Handler have the calls, each case of the switch as a function sys_...;
-- Fds is about descriptors, Seek about lseek, Wait about wait4, Brk about brk, and Others about the slots
-- of the process table that a call leaves alone.
-- The modules called Examples apply the theorems to concrete states.
--
-- Conventions. A pointer is its address, NULL is 0; a slot of the process table is its index. Unsigned
-- integers are numbers with `% 2 ^ w` where the code wraps. A negative `int` result is none or the
-- 64-bit pattern minus_one, as the code stores it. What goes to the processor (CR3, the TSS, invlpg)
-- is state of Machine. The console keeps an int as its 32 bits. User memory is a function from virtual
-- address to byte of its own, which is not tied to the page tables.
--
-- Loops and limits. Counted loops run by their count, searches by the number of slots. The loop over
-- the pages of a segment runs by the number of pages, and page_count is that of the code's condition.
-- The loops over strings in console.c and font.c have a limit; Console.Strings says which is enough.
-- The loops in onahci.c that wait for the device run by the reads that AHCI_IO_TIMEOUT leaves.
-- The loop of iappend runs by the number of bytes, of which each round takes one at least, and so does
-- that of main on fread. An append is given three blocks for each block of the file that it writes to.
-- The comparison of names in ramfs.c has no bound in the code; the model has a limit, and any limit
-- above the length of the name sought gives the code's answer.
--
-- Not modelled: the file system itself (kernel/xv6fs, a copy of that of xv6), which is the parameter
-- FileSystem of the system calls and the parameter Inodes of Bridge; the search for devices on the PCI
-- bus, the set-up of the disk controller and of the mode of the screen; segment descriptors, assembly,
-- and the boot but for its page tables and the pages that it reserves; what is only printed. In mkfs.c
-- the calls of the C library on the image file are taken to succeed.
-- A panic halts the kernel, and is not a value, but for bridge_halt in Bridge.
pub mod Base
pub mod Pmm
pub mod Keyboard
pub mod Machine
pub mod Vmm
pub mod Paging
pub mod Bridge
pub mod Console
pub mod Ahci
pub mod Boot
pub mod Idt
pub mod Mkfs
pub mod Process
pub mod Ramfs
pub mod Elf
pub mod Syscall
