-- ===== src/Lib.antt =====
-- Coeleo OS is an x86_64 operating system in Rust: a kernel with its own desktop, and programs that
-- run on it. This library models the parts of it that carry state and decide, as pure functions on
-- that state.
--
-- The parts and how they meet. The boot code hands a memory map to the frame allocator; page
-- tables and the program loader take frames from it. The scheduler keeps eight process slots; each
-- process owns a table of sixteen descriptors, and descriptors of pipes refer to a static table of
-- four rings, which count the descriptors that hold each of their ends. The calls `spawn`, `wait`,
-- `kill`, `pipe`, `close`, `read` and `write` change slots, descriptors and pipes together. The
-- compositor keeps the queue of screen rectangles that wait to be drawn. The installer writes a
-- partition table, from which the kernel finds its volumes at the next start; the file system sees
-- such a volume as a stream of bytes over the sectors of the disk. The keyboard puts bytes into a
-- queue, from which the shell reads the line that is typed, edits it, looks it up in the lines
-- that were entered, and suggests a command for one it does not know. It starts programs with
-- packed argument strings, and installs packages that a host tool writes.
--
-- Which file models which part, each with the functions of the same names:
--   Fs/Disk         the calls of kernel/src/fs/blk.rs on one disk; Fs/Part kernel/src/fs/part.rs:
--                   `volumes`; Fs/Gpt kernel/src/fs/gpt.rs: `write_esp`.
--   Fs/FatDisk      kernel/src/fs/fat_disk.rs: `read`, `write` and `seek` on a partition, with the
--                   sector that is kept.
--   Input/Kbd       kernel/src/input/kbd.rs: the queue of bytes and `dispatch`.
--   Mem/Pmm         kernel/src/mem/pmm.rs: the bitmap of frames and the counters.
--   Task/Pipe       kernel/src/task/pipe.rs: the rings. Task/Pipe/Channel is what they promise: a
--                   bounded queue with counts of readers and writers.
--   Task/Fd         kernel/src/task/fd.rs: `FdTable`, `sys_close`, `sys_pipe`, the step of
--                   `sys_readdir`. Task/Fd/Count has the counts of ends.
--   Task/Sched      kernel/src/task/sched/pcb.rs, and the wake-ups of sched/spawn.rs;
--   Task/Sched/Switch  kernel/src/task/sched/switch.rs: the choice of a process, and changing to it;
--   Task/Sched/Spawn   kernel/src/task/sched/spawn.rs: `insert_pcb`, `user_exit`, `try_reap`,
--                   `sys_kill`, `kill_foreground`, `reap_orphans`, `parse_argv_blob`, `sys_ps`;
--   Task/Sched/Files   the calls of fd.rs on the descriptors of the running process: `close_fd`,
--                   `make_pipe` and one round of `read_pipe` and `write_pipe`;
--   Task/Sched/Steps   all of these as steps from one state of slots and pipes to the next, with
--                   `run_with`; the launcher of the desktop spawns also while no process is current.
--   Ui/Rect         kernel/src/ui/comp/rect.rs: half-open rectangles.
--   Ui/Damage       kernel/src/ui/comp/damage.rs, with parts of comp/geom.rs and ui/panel.rs.
--   Sh/Path         userspace/apps/sh/src/path.rs: `pack_argv`.
--   Sh/Cwd          userspace/apps/sh/src/cwd.rs: `resolve`.
--   Sh/Alias        userspace/apps/sh/src/alias.rs: the table of aliases.
--   Sh/Suggest      userspace/apps/sh/src/err.rs: `levenshtein` and `suggest_command`.
--   Sh/Line         userspace/apps/sh/src/line.rs: the editing keys; Sh/History the ring of lines;
--                   Sh/Browse `hist_up` and `hist_down`; Sh/Search `find_match`; Sh/Prompt the loop
--                   of `read_line` and `reverse_search`, one byte at a time.
--   Pkg             userspace/libs/pkg/src/lib.rs: `parse`, and tools/coe-pack/src/main.rs: `pack`.
--   Base            what the others share: tests, lists, bytes, bits, slices, arrays, UTF-8.
--
-- How state and calls are read. A static behind a mutex is a value that each function takes and
-- returns; the kernel holds the lock for the whole of each modelled step. A function that diverges
-- into another process (`schedule_next`, `switch_to`) is the change of the table up to that point.
-- Words are natural numbers; where a sum can wrap, the modulus is written out. An index that the
-- source knows to be in range is total here, with the case out of range written at the helper.
--
-- Bounds and fuel. `scan`, `free_range`, `free_frames`, `copy_in`, `copy_out` and `pick_from`
-- count down the rounds that are left, from the bound of the loop in the source. `coalesce` and
-- `absorb` have the length of the queue as fuel, since each of their rounds but the last takes an
-- entry off. `reap_orphans` takes the number of rounds: each round but the last empties one of the
-- eight slots. `read_loop` and `write_loop` of Fs/FatDisk have as many rounds as bytes are asked
-- for, since each but the last moves at least one. `back_while`, `ahead_while`, `find_from` and
-- the rows of `levenshtein` count down to the bound of the loop. `feed_all` takes the bytes that
-- come: each of them is one round of the loop of `read_line`.
--
-- Not modelled, since it is the machine's or a library's: the assembly that saves and restores
-- registers, page tables (the x86_64 crate), the heap (talc), the drivers, which a disk of sectors
-- stands for, the file system (fatfs), the network stack (smoltcp and TLS), Ed25519, and all
-- painting. Of the shell, what is written to the terminal is left out; the completion of
-- complete.rs, the text of the clipboard, and the answers of the compositor to a key are
-- arguments. Program images and the argument words on a new stack are arguments of `insert_pcb`;
-- the check of a caller's buffer comes before the modelled part of a system call.
-- The program loader, the parsing of http.rs and dns.rs, the order of windows, the decoding of USB
-- reports and the programs are not modelled either, only for their size.
pub mod Base
pub mod Fs
pub mod Input
pub mod Mem
pub mod Pkg
pub mod Sh
pub mod Task
pub mod Ui
