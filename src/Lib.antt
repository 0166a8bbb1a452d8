-- ===== src/Lib.antt =====
-- Verification of parts of an xv6 kernel for RISC-V with a software RAID layer: that layer
-- (kernel/raid.c, kernel/raid.h, kernel/sysraid.c), the redo log of the file system (kernel/log.c),
-- the cache of disk blocks (kernel/bio.c), pipes (kernel/pipe.c), the page allocator
-- (kernel/kalloc.c), the sleep lock (kernel/sleeplock.c), the table of open files (kernel/file.c),
-- the blocks and the contents of files and the first step of path names (kernel/fs.c), the copies
-- between the kernel and a process (kernel/vm.c, kernel/proc.c), the memory routines of
-- kernel/string.c, text routines of user/ulib.c, and the matcher of user/grep.c.
--
-- The program. A process reads and writes blocks of an array of disks by the system calls of
-- kernel/sysraid.c, which hand their arguments to kernel/raid.c. That layer keeps a superblock in
-- block 0 of each disk (struct RAIDSuperblock) and a device in memory (struct RAIDDevice): the
-- superblock once it has been loaded, the health of each disk, a sleep lock for each disk and a
-- spin lock. It places a logical block by the level of the array (RAID0, RAID1, RAID0_1, RAID4 or
-- RAID5), and writes a mirror or a parity block beside it. Disk 0 holds the file system and is no
-- disk of the array.
--
-- The file system reaches disk 0 through the cache: bread gives a locked buffer with a block, brelse
-- gives it back. A system call that changes blocks does so between begin_op and end_op, and hands
-- each changed buffer to log_write in place of bwrite; the last end_op copies the blocks to the log,
-- commits them with one write of the header, and installs them. After a power failure initlog
-- installs what was committed. A file is an inode, in its table on the disk, with the addresses of
-- its blocks, the last of which is that of a block of further addresses; a map with a bit for each
-- block of the disk tells which are in use. bmap gives a block of a file, and takes one with balloc
-- where there is none yet; readi and writei copy between the blocks and memory by it. A pipe is a ring of bytes in a page, shared by its two ends.
--
-- The files.
--   Base             names of the libraries; Boolean tests, machine words, exclusive or, folds
--   KernelString     kernel/string.c: memcmp; below it memset, memmove, strncmp,
--                    safestrcpy and strlen
--   Log              kernel/log.c: the log, its disk, and the calls down to the writes of blocks
--   Bcache           kernel/bio.c: the buffers, their order by recency, and the calls
--   Pipe             kernel/pipe.c: the ring, pipewrite, piperead, pipeclose
--   Grep             user/grep.c: match, matchhere, matchstar
--   Kalloc           kernel/kalloc.c: the free list in the pages, kinit, kfree, kalloc
--   Sleeplock        kernel/sleeplock.c: one sleep lock, its processes, and their steps
--   FileTable        kernel/file.c: the open files, filealloc, filedup, fileclose
--   PathName         kernel/fs.c: skipelem, namecmp
--   UserCopy         kernel/vm.c: copyin, copyout; kernel/proc.c: either_copyin, either_copyout
--   Fs               kernel/fs.c: bzero, balloc, bfree, iupdate, bmap, itrunc; below it Fs/Rw has
--                    readi and writei, Fs/Dir dirlookup, Fs/Itable iget, Fs/Ilock ilock, Fs/Bits and Fs/Alloc the map of
--                    the blocks in use, Fs/Map the blocks of a file
--   UserString       user/ulib.c: strcmp, strlen, strchr, atoi
--   Raid/Types       kernel/raid.h: the types and the state (Machine) of the layer
--   Raid/Machine     what the layer calls: read_block and write_block (kernel/virtio_disk.c),
--                    kalloc and kfree, the locks, walkaddr; M is the type of a call
--   Raid/Superblock  the superblock in its block
--   Raid/Geometry    where rw_block puts a block, by level
--   Raid/Rw          get_disk_health, load_metadata, handle_rw_raid01, write_parrity_block,
--                    rw_block
--   Raid/Recovery    mirrorRecovery (mirror_recovery), raid4_and_5_recovery, handle_recovery
--   Raid/Api         init_raid_device, formatDisks, the raid_* calls and the sys_* calls
--   Raid/Volume      the array seen as one volume of blocks: what a read or write does to the disks
--   Raid/Tests       a configuration of four disks, and arrays in it
-- Below each of them stand files named for what is proved. A C function keeps its name in lower
-- case; a part of one that has a name of its own is a function of the same file.
--
-- State, errors, bounds. A call takes the machine to a result and a machine, or to none where it
-- does not return: a panic, a fault, or a wait for ever. An int or an enum is its 32-bit pattern
-- (-1 is minus_one), and the arithmetic of uint and uint64 wraps around. IsConfig is what is assumed
-- of the build: three disks at least and fewer than 2 ^ 11, a disk size from 1 to 2047 megabytes, so
-- that DISK_SIZE * 1024 * 1024 fits an int, and drives of that size. Disk 0 has no
-- transfer buffer, so that a read or a write of it faults, and the kernel maps nothing in the first
-- page, so that a transfer from or to an address that walkaddr does not find faults; Buffer says that
-- a process has its buffer of a block, in one page, and where it is. The
-- numbers of blocks of a disk are below 2 ^ 31, where balloc counts them by an int, and below 2 ^ 31
-- sectors, and the header of the log names no more than LOGSIZE blocks, which is what a log of the
-- usual size leaves room for. Every loop runs a number of
-- rounds that is known when it starts, so that there is no fuel; but strlen of KernelString/Copy takes
-- a bound on its rounds, and is shown to find the length with any bound above it.
--
-- In Log a call ends in one of four ways (Outcome): it returns, sleeps, panics, or the power fails.
-- The power of a state is the number of blocks that can still be written; a write of a block is whole
-- or not at all, the write that has no power left ends the call with the disk alone, and boot
-- starts on that disk with empty buffers. Buffers come into Log as a function from blocks to
-- contents (buf), which is what Bcache promises of bread: one buffer for a block, with its
-- contents. In Bcache the list of buffers is a list of indexes, the most recent first, and device 0
-- is that of a buffer that has not been used. In Pipe a call runs up to where it returns or sleeps
-- (Ended). In Grep, PathName and UserString a C string is the list of its bytes before the 0. In Kalloc the memory is the
-- 64-bit words at its addresses, and MEM is below 2048, so that PHYSTOP does not wrap around. In
-- Sleeplock a process behind the acquire of the spin lock runs in one step up to the release, and
-- only the process that has the sleep lock gives it back, which is how its callers use it. In
-- FileTable the references to the files are a list of their numbers, and what fileclose calls at
-- its end is its result (Closing).
--
-- In Fs the state has the contents of the buffers (cache), what the transaction is to write (saved),
-- the inode that the call has locked and the memory that it copies from or to: bread and log_write
-- come in by what Bcache and Log state of them. log_write panics where the log has no room, which it
-- has within what begin_op reserves: FitsLog bounds the blocks that a writei can hand it, and the pieces
-- that filewrite cuts a write into are within the bound. A lock of an inode that is held is waited for
-- for ever, as one call runs at a time. The map is consistent (IsValid) when the blocks up to
-- its end are in use and the transaction has each change; a file is (IsFile) when its addresses are
-- those of different data blocks in use. Each turn of the loops of readi, writei, copyin and copyout
-- takes a byte or more, so that as many turns as bytes are enough, which the theorems on them show.
-- The translation of the pages of a process (page) is what walkaddr gives.
--
-- Outside the code. The page table that walkaddr goes through is a function of the machine (walk),
-- and the sizes of the drives are part of the configuration (capacity): they are parameters. So are
-- the memory of the process that pipewrite and piperead copy from and to (copyin, copyout), and
-- whether it has been killed, the end of the kernel in memory, which the linker sets, and MEM.
--
-- Not modelled. But for Sleeplock, calls run one at a time, so that the sleep locks and the spin locks
-- are flags or left out, and so are the wake-ups. In Raid the free pages are counted. The virtio
-- queues, the table of inodes but for iget, changes of directories, the messages printed and the progress of a recovery are left out, and so is the rest of
-- the kernel and of the user programs.
pub mod Base
pub mod KernelString
pub mod Log
pub mod Bcache
pub mod Pipe
pub mod Grep
pub mod Kalloc
pub mod Sleeplock
pub mod FileTable
pub mod PathName
pub mod UserString
pub mod Fs
pub mod UserCopy
pub mod Raid
