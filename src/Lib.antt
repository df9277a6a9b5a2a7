-- ===== src/Lib.antt =====
-- MOS is a hobby operating system kernel in C. This library models the data structures of the kernel,
-- the block memory routines under them, the pipe that is built on them, I/O objects, the memory maps
-- of an address space, signals, wait lists and the mutex.
--
-- Parts, and the files that model them (paths from the root of the repository):
--   libs/stdlib/mos_string.c               Memory     memcpy, memmove, memset, memzero
--     and Strings memcmp, strlen, strnlen, strncmp
--   kernel/lib/structures/ring_buffer.c    RingBuffer create, resize and the four push and pop
--     functions of a position record (push_back is ring_buffer_pos_push_back, and so on)
--   kernel/lib/structures/hashmap.c        HashMap    hashmap_init to hashmap_foreach (put is
--     hashmap_put, and so on)
--   kernel/lib/structures/bitmap.c         Bitmap     bitmap_create to bitmap_set_range (set_bit is
--     bitmap_set, the others carry the source's name without its prefix)
--   kernel/lib/structures/stack.c          DownStack  stack_init to stack_pop
--   kernel/lib/structures/list.c           LinkedList linked_list_init to list_node_insert_after, and
--     the loop list_node_foreach of its header
--   kernel/ipc/pipe.c                      Pipe       pipe_create, pipe_write, pipe_read and
--     pipe_close_one_end, in Pipe.System their interleavings, and in Pipe.Finish the order in which the
--     two calls take turns
--   kernel/io/io.c                         Io         io_init to io_mmap_perm_check; io_mmap and
--     io_munmap, which work on a map too, are in VMap
--   kernel/mm/mm.c                         VMap       do_attach_vmap (attach) and vmap_create to
--     vmap_finalise_init
--   kernel/mm/paging/paging.c              VMap.Space mm_get_free_vaddr_locked, mm_map_user_pages,
--     mm_clone_vmap_locked, mm_get_is_mapped_locked
--   kernel/mm/mmap.c                       VMap.Calls mmap_anonymous (with cow_allocate_zeroed_pages of
--     kernel/mm/cow.c), mmap_file, munmap, vm_protect
--   kernel/mm/mm.c and kernel/mm/cow.c     PageFault  mm_handle_fault and the handler of anonymous
--     memory, with mm_replace_page_locked of kernel/mm/paging/paging.c; PageFault.Fork the clone of a
--     map for fork, with mm_do_flag and mm_do_copy of kernel/mm/paging/table_ops
--   kernel/tasks/signal.c                  Signals    sending, and the next pending signal;
--     Signals.User going back to user mode, with the entry to a handler and the return from it of
--     arch/x86_64/x86_platform_api.c
--   kernel/tasks/wait.c                    WaitList   waitlist_init to waitlist_remove_me
--   kernel/lib/locks                       Mutex      mutex_acquire, mutex_release, futex_wait and
--     futex_wake on one word, with reschedule_for_waitlist of kernel/tasks/schedule.c, as the steps
--     of threads; a run takes any schedule
-- The headers of these files are under kernel/include/private/mos. Base holds what all parts share:
-- Boolean tests, lists, bits, and sums and differences of 64-bit words with their wrap-around.
--
-- How the parts interact: the ring buffer and the stack copy through memcpy, which they call as
-- Memory.copy; the pipe moves bytes through push_back and pop_front of the ring buffer. A map of an
-- address space refers to an I/O object and takes and drops references of it with io_ref and io_unref.
-- A handler's frame goes to the user stack with the checks of the downwards stack. The mutex waits on a
-- wait list, whose threads have the states that signals change too.
--
-- Parameters: what the kernel takes from elsewhere is an argument. The callbacks of an I/O object are
-- functions on a state of their own; the hypotheses of Io.Seek are what a file's seek callback
-- promises. The addresses of new structs, the configured hint address for mmap, the fault handler of
-- zeroed pages, the sizes of the structs in a handler's frame and EINTR are numbers. The signal
-- numbers are of the C library: name_of tells which of the nine named signals a number is, if any.
-- What mm.c asks of the page tables is a list of calls in VMap; in PageFault the tables are maps from a
-- space and a page to a frame, and new frames are arguments.
--
-- State and faults: a struct is a record, an array the list of its elements, a pointer into an array
-- an index, and a function that writes through a pointer returns the new value. `none` is a fault: an
-- access outside of an array, a failed assertion, a panic, a division by zero or a shift that C
-- leaves undefined. The results of allocations are arguments. A part's lock is held for a whole
-- operation, so an operation is one step. pipe_write and pipe_read give it up when they sleep: they
-- are sequences of rounds, and a schedule chooses whose round is next and when an end is closed. The
-- second close frees the pipe; a call in progress that goes on then is a fault, since it holds no
-- reference. The nodes of a linked list stand in a heap that maps each address to its two pointers.
--
-- Bounds and fuel: size_t and pointers are numbers below 2 ^ 64. The theorems on rings, stacks and
-- pipes ask for arrays and addresses below 2 ^ 62, so that no sum of two of them wraps; every machine
-- has less memory. A line of a bitmap is below 2 ^ 32. The loops of memcpy and memzero run on n + 1
-- rounds of fuel for n bytes, since a round takes at least eight bytes off n, and the loop of
-- bitmap_find_first_free_n on nlines + 2, since a round goes on to the next line; list_node_foreach
-- takes its fuel as an argument, one more than there are nodes in its theorem. The theorems
-- state that there is a result. Maps end at or below 2 ^ 64 - 2 ^ 47, where the kernel begins on
-- x86_64, and a new one is smaller than 2 ^ 47 bytes. All other loops count down a number or walk a list.
--
-- Not modelled: what only frees or places memory (ring_buffer_create_at, ring_buffer_destroy), the
-- spinlocks themselves, the wake-ups of the pipe, the other string functions, the walk
-- through the levels of a page table, the list of the futexes of different words, and the other parts of the kernel: physical
-- memory, the scheduler and processes, file systems, IPC, system calls, the architecture and the
-- drivers.
pub mod Base
pub mod Memory
pub mod RingBuffer
pub mod HashMap
pub mod Bitmap
pub mod DownStack
pub mod LinkedList
pub mod Strings
pub mod Io
pub mod VMap
pub mod PageFault
pub mod Signals
pub mod WaitList
pub mod Mutex
pub mod Pipe
mod Tests
