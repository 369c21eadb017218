-- ===== src/Lib.antt =====
-- Verification of Low-Level-Programming: a memory allocator, two image programs and the exercises
-- of a course.
--
-- Memory allocator (`Memory Allocator C/src`: `mem.c`, `mem_internals.h`, `mem.h`, `util.h`,
-- `main.c`). The heap is a linked list of block headers that stand in mapped memory in front of
-- their contents.
--   Alloc              headers in memory (a map from addresses), the calls made to the operating
--                      system, and programs on them. Reading where no header stands, and using
--                      `NULL`, is `fault`; a write elsewhere makes a header; a loop without fuel is `out_of_fuel`.
--   Alloc.Sizes        sizes and capacities modulo 2 ^ 64, `round_pages`, `region_actual_size`.
--   Alloc.Blocks       `split_if_too_big`, `try_merge_with_next`, `find_good_or_last`,
--                      `try_memalloc_existing`, `_free`.
--   Alloc.Region       `map_pages`, `alloc_region`, `heap_init`.
--   Alloc.Heap         `grow_heap`, `memalloc`, `_malloc`.
--   Alloc.Term         `unmap_from_pointer`, `heap_term`.
--   Alloc.Debug        `mem_debug.c`: the lines it prints, before their numbers are formatted.
--   Alloc.Program      `main.c`: the program that tests the allocator by assertions.
--   Alloc.Chain        the abstract view: a list of blocks that memory holds (`Holds`), none of
--                      which overlap (`Layout`), and what merging free neighbours does to the list.
--   Alloc.Client       sessions: any sequence of calls of `_malloc` and `_free` behind `heap_init`,
--                      where `_free` is called on a pointer that the client holds. `grow_heap` cuts
--                      blocks off the list, so that a session's heap is several chains; `heap_term`
--                      walks the one that starts at the heap's address.
-- A loop of the allocator takes fuel, one unit a round; the theorems ask for more fuel than there
-- are blocks, since every round passes or removes a block; a call adds at most two blocks, so that
-- a session asks for more than twice as much as it has calls. `mmap` and `getpagesize` are the
-- parameter `Os`; what is assumed of its answers is `Answers` in Alloc.Region.Map: a new mapping with
-- room for a header is not at address 0, ends in the address space and overlaps no block. A session
-- assumes `IsSystem` of Alloc.Client.Invariant, from which `Answers` is proved at every call.
-- The contents of blocks are not modelled: the allocator does not read them.
--
-- Image rotation (`Image Rotation C/solution`).
--   Image              `include/image.h` and `src/rotation.c`: an image is its width, its height
--                      and an array of pixels; an access outside of the array is a fault (`none`).
--                      Index expressions are computed modulo 2 ^ 64. `malloc` is a parameter.
--   Image.Loop         the loops of the macro `ROATATE`.
--   Image.Rotation     where each pixel goes.
--   Image.Symmetry     the rotations one after another.
--   Image.Bmp          `include/bmp.h` and `src/serialization.c`: `from_bmp` and `to_bmp` on files of
--                      bytes. Headers are packed and little-endian. A device has room for a number
--                      of bytes, behind which writes fail. A loop takes the rounds left, which are
--                      the width and the height of the image.
--   Image.Bmp.Header   the header as bytes.
--   Image.Bmp.Writer   the loop of `to_bmp`; Image.Bmp.Save its file.
--   Image.Bmp.Reader   the loops of `from_bmp`; Image.Bmp.Load and Bounds the image it returns.
--   Image.Command      the angle: the checks of `src/console_io.c`, with `strtol` as a parameter, and
--                      the `switch` of `src/main.c`.
--   Image.Program      the rest: `main`, the tables of messages, `check_valid_filename`. A run ends
--                      with an exit code, what it has printed and what it has written; opening a
--                      file is a parameter, `Files`.
--   Image.Tester       the comparison tool of `Image Rotation C/tester`: `file_cmp`, `bmp_cmp`, its
--                      `main`. The loop of `file_cmp` takes one unit of fuel more than there are
--                      bytes to compare, since a round that goes on takes bytes off.
--
-- Sepia filter (`Sepia Filter C, ASM`).
--   Sepia.Bitmap       images, BMP files, names of files and of statuses. `bmp.c` has the text of the
--                      rotation's `serialization.c`, so the definitions of Image.Bmp are used.
--   Sepia.Filter       `filter.c`, with Sepia.Float: the type `float` and its operations are a
--                      parameter.
--   Sepia.Simd         `filter.asm`: the loop in assembly, which accesses one pixel behind the array.
--                      The registers that it does not restore are not modelled.
--   Sepia.Program      `main.c`: two loops of 500 rounds, and two files that are written. `malloc`
--                      in each round and the opening of files are parameters;
--                      the times that are measured are left out.
--
-- Heaps of blocks (`seminar6`).
--   Seminar6.Heap0     `heap-0.c`: single blocks in an array of flags.
--   Seminar6.Heap1     `heap-1.c`: runs of blocks in an array of statuses; FirstFit holds the
--                      definition of first fit that `block_allocate` is compared with. The loop of
--                      `block_free` takes as much fuel as there are blocks, since each round passes
--                      one.
--
-- Seminar 5.
--   Seminar5.Ast       `task4.c`: expression trees and their printer. A literal has at most 20 digits,
--                      since it is a word of 64 bits.
--   Seminar5.GenericList  `task3.c`: the lists that a macro declares for a type. A loop takes one unit
--                      of fuel a round; the theorem asks for more fuel than there are values.
--
-- Seminar 7.
--   Seminar7.TailRec   `tail-rec.c`: a recursion over a list, on a stack with so many frames.
--   Seminar7.StackSmash  `stack-smash.c`: a buffer and what stands behind it.
-- The lists of seminars 5 and 7 are nodes on a heap, Base.Nodes.
--
-- Seminar 8.
--   Seminar8.Reordering  `cpu-reordering.c`: the steps of the main thread and of the two others under
--                        any schedule. A write is pending in the store buffer of its thread until a step of its
--                        own, and `mfence` waits for that step.
--   Seminar8.Mutex     `task05.c`: two threads that print words under a mutex, under any schedule.
--   Seminar8.Pipes     `pipes.c`: a child that sends an array after each change, and its parent.
--   Seminar8.SharedArray  `semaphore.c`: a child and its parent that take turns by two semaphores on
--                      an array they share, under any schedule. The semaphores start at 0.
--   Seminar8.Fork      `fork.c`: a child that writes an array while its parent prints it, under any
--                      schedule. The parent takes 13 steps from `fork` to its return.
--
-- Not modelled: the assembly of `Dictionary ASM` and the seminars, the allocator's test suite,
-- `docs/malloc-impl.c` (another project's source) and the rest of the seminars 2 to 5.
pub mod Base
pub mod Alloc
pub mod Image
pub mod Sepia
pub mod Seminar5
pub mod Seminar6
pub mod Seminar7
pub mod Seminar8
