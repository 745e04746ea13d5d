-- ===== src/Lib.antt =====
-- xv6 for booting with UEFI: the kernel's components, modelled from xv6/ and proved correct.
--
-- The kernel keeps memory in pages that kalloc.c gives out, files on a disk that log.c changes in
-- transactions, processes in a table that proc.c schedules, and bytes between processes in the rings
-- of pipe.c, and spinlock.c keeps CPUs apart. string.c serves all of them. The network code answers
-- ARP, ICMP and TCP packets.
--
-- Base          helpers that the components share (no program code)
-- Pipe          xv6/pipe.c: a stretch of pipewrite or piperead between two sleeps is a function;
--               Pipe.System interleaves the stretches of several processes, with the sleeps and the
--               wakeups that xv6/proc.c makes of them
-- Kalloc        xv6/kalloc.c: the free list is threaded through memory, a word at each address
-- Vm            xv6/vm.c on the words of Kalloc's memory: walkpgdir and mappages; Vm.User changes the
--               size of an address space, and Vm.Copy has setupkvm, copyuvm and copyout;
--               Vm.Space and Vm.Owned say what a well-formed one is
-- Log           xv6/log.c over a disk of blocks and a view of the buffer cache (xv6/bio.c): what
--               bread returns. Log.Space has the file system calls in any interleaving
-- Bio           xv6/bio.c: the buffers, their list in the order of use, and the disk below them
-- Fs            xv6/fs.c and xv6/fs.h: Fs.Alloc is balloc and bfree, Fs.Content bmap, readi and writei,
--               Fs.Trunc itrunc and stati, Fs.Path skipelem, Fs.Icache the inodes that the kernel has
--               in memory, and Fs.Icache.Dir the directories and namex
-- File          xv6/file.c: the table of open files; it calls Fs, and a pipe or device goes on there
-- Sysfile       xv6/sysfile.c: the descriptors of a process, over File; Sysfile.Names and Sysfile.Open
--               have the calls that take path names, and Sysfile.Pipe has sys_pipe and pipealloc
-- Console       xv6/console.c: the ring of typed bytes that interrupts edit and readers empty;
--               Console.Print is what cprintf prints
-- Locks         xv6/spinlock.c: one CPU's interrupt flag and depth, and a lock that CPUs contend for
-- Sleeplock     xv6/sleeplock.c: the lock; Sleeplock.System has the processes that contend for it
-- Proc          xv6/proc.c: allocproc, fork, exit, wait, kill and the scheduler on the table; exit
--               closes the files of its process by Sysfile.Exit
-- Strings       xv6/string.c
-- Ulib          xv6/ulib.c: the library of user programs
-- Net           byte order (xv6/eth.c), checksums (xv6/icmp.c, xv6/ipv4.c), the ARP table (xv6/arp.c)
--
-- An operation that takes a lock is one step, or one step between two sleeps, so that the other
-- modules have no locks in their state. An inode's own lock, which outlasts a step, is in the state: a
-- call that finds an inode locked ends with the result `waits`. `power` in Log.Disk is the number of
-- disk writes before the power fails, and every number is allowed. In Fs the blocks of the bitmap, of
-- the inodes and of the files are three parts of the state, since xv6/mkfs.c gives them different
-- blocks of the disk, and a block is as `bread` returns it within a transaction.
--
-- Loops that are not structural run on fuel, which is enough: freerange on vend / 4096 + 1, since each
-- round adds 4096 to the page and the loop ends at vend; the scan of the bitmap on size / 4096 + 1
-- blocks; readi, writei and filewrite on as many rounds as there are bytes, since each round moves at
-- least one; a directory on size / 16 + 2 entries; namex on the path's length and one more;
-- printint on the 16 bytes of its buffer, of which it needs 11; control-U on the length of the line;
-- mappages on as many rounds as there are pages; deallocuvm, allocuvm, copyuvm and loaduvm on
-- size / 4096 + 2, and copyout on len / 4096 + 3, since each round moves on by a page.
-- Numbers are unbounded where the code keeps them far below 2 ^ 32; where a counter can wrap, as the
-- ring indices of a pipe do, the wrap-around is written out.
--
-- Not modelled: device drivers and boot code, which are input and output; the calls of xv6/vm.c
-- that load registers of the CPU; sys_exec, and the user programs.
pub mod Base
pub mod Pipe
pub mod Bio
pub mod File
pub mod Fs
pub mod Kalloc
pub mod Locks
pub mod Sleeplock
pub mod Log
pub mod Net
pub mod Proc
pub mod Strings
pub mod Sysfile
pub mod Console
pub mod Vm
pub mod Ulib
