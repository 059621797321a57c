-- ===== src/Lib.antt =====
-- The C part of the kernel under kernel/: memory, pools, locks, 64-bit arithmetic, time, timers,
-- rectangles, windows, sorting, strings, runes and numbers as text. Each module models one or a few
-- source files, one definition for each function or loop, under the name that it has there.
--
-- - Xalloc: kernel/Port/xalloc.c, the allocator of kernel memory that is hardly ever freed. Its state
--   is the chain of free holes, in order, the number of unused slots of the table of 128 holes, and
--   the memory, a function from addresses to words, where the headers of the blocks stand. xallocz,
--   xfree, xhole, xspanalloc and xmerge are modelled; xinit, which reads the memory layout of the
--   machine, is not.
-- - Pool: kernel/Libc/port/pool.c, the pool allocator. Pool has the blocks of a pool as a sequence in
--   the order of their addresses, splitting, merging and freeing; Pool/Tree the search tree of the free
--   blocks by size; Pool/Arena new arenas, their merging and the allocation. What p->alloc gives and
--   whether p->merge joins two arenas are arguments. `none` stands for a panic or a failed assertion.
--   Pool/Compact has the compaction of a pool with p->move. The theorem on poolallocl is for a pool
--   without it, a quantum and a minimal block of at most 4096, a minimal arena of at most 2^31, and a
--   p->merge that joins nothing: a join may enlarge a block in use without counting it in curalloc. Of the
--   contents of the blocks only the words ALIGN_MAGIC, which D2B reads, are modelled. poolreallocl,
--   poolallocalign, poolmsize, the checks and the dumps are not modelled.
-- - Taslock: kernel/Port/taslock.c, spin locks. Taslock has the steps of a processor, one access to the
--   lock each, from the call of lock, canlock or ilock to the end of unlock or iunlock; Taslock/Run any
--   number of processors on one lock, interleaved in any order. Every processor has its own process and
--   state, and calls the function to unlock that belongs to the one it called to lock. The statistics,
--   the debugging of long loops and the call of sched are not modelled.
-- - Layer: kernel/Libmemlayer, windows that overlap. Layer has _memlayerop, which cuts a rectangle of a
--   window into the pieces on the screen and in the save area; Layer/Stack saving, showing and moving
--   windows and _memlsetclear, from lhide.c, ltofront.c, ltorear.c and ldelete.c. A window with those in
--   front of it and behind it is a Stack. Save areas are in the coordinates of the screen, and every
--   window has one. memlorigin, memlalloc, memldelete and the drawing in windows are not modelled.
-- - Qsort: kernel/Libc/port/qsort.c on elements. The loops run on fuel: the scans as many steps as there
--   are elements left, a round and the recursion as many as there are elements, which is enough.
-- - Vlong: kernel/Libc/arm/vlrt.c, 64-bit arithmetic on pairs of 32-bit words, as the compiler calls
--   it. The loop of dodiv that scales the divisor runs at most 64 times and is given 65 rounds.
--   Vlong/Signed has the signed division and the bitwise operations, Vlong/Assign the compound
--   assignment. The floating-point conversions are not modelled.
-- - Tod: kernel/Port/tod.c and kernel/Port/mul64fract.c, the time of day. Its state is the record Tod;
--   what the machine gives, the readings of the fast counter and the slow ticks, is an argument.
-- - Timers: kernel/Port/portclock.c, the queue of timers of a processor and the clock interrupt. It
--   takes `ns2fastticks` once initialized, fastticks_of, from Tod. The queue is in the order of signed
--   numbers, and the interrupt reads the times as unsigned ones. The loop of timerintr runs on fuel, one
--   round more than the sum of how late the timers are: every round takes a timer away or puts it off by a
--   tick at least. The handlers are only recorded, and do not call the timer functions themselves.
-- - Geometry: kernel/Libgeometry/arith.c and kernel/Libgeometry/replclipr_geom.c, points and
--   rectangles with 32-bit coordinates that wrap.
-- - Strings: strchr, strlen, strncmp, strncpy, memccpy, memcmp, toupper and tolower of
--   kernel/Libc/port. Memory is a list of bytes, and what is beyond it is not read.
-- - Rune: kernel/Libc/port/rune.c, UTF-8. The loop of chartorune has the three rounds of the source.
--   Rune/Utf has utflen and utfrune of utflen.c and utfrune.c there, on one round more than there are
--   bytes.
-- - Strtoul: kernel/Libc/port/strtoul.c, the number at the start of a string.
-- - Atol: kernel/Libc/port/atol.c, a signed number in decimal, octal or hexadecimal.
-- - Ifmt: _ifmt of kernel/Libc/fmt/dofmt.c, the text of an integer, up to its call of _fmtcpy. The digits
--   are put in at most 64 rounds, the bits of a number, and zeros in at most 89, the bytes of the buffer.
--   The rest of kernel/Libc/fmt is not modelled.
--
-- Prelude holds what they share: tests on numbers, 32-bit words, lists over the native numbers,
-- integers and bit operations. Machine integers are native numbers with their wrap-around written
-- out. The locks around the operations of the other modules are not modelled: each operation there is
-- one step.
--
-- Not modelled: the drawing of pixels, the hardware of the Raspberry Pi, floating point, the OCaml runtime
-- under kernel/Byterun and the programs of the repository that are written in OCaml.
pub mod Atol
pub mod Geometry
pub mod Ifmt
pub mod Layer
pub mod Pool
pub mod Prelude
pub mod Qsort
pub mod Rune
pub mod Strings
pub mod Strtoul
pub mod Taslock
pub mod Timers
pub mod Tod
pub mod Vlong
pub mod Xalloc
