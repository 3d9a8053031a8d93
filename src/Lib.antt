-- ===== src/Lib.antt =====
-- A verification library of OpenModality, a research operating system: the kernel `hive` under
-- sys/hive and the C library that it shares with user programs under sdk. Paths are from the
-- repository's root.
--
-- The modules follow the program's parts.
--   Base         shared names, words, bit operations, and the outcome `Run` of C code: a result, a
--                fault (an access outside an object) or a loop whose fuel ran out. `Base.Words` has the
--                macros of sdk/inc/sys/param.h, and `Base.Ram` is memory that is read by address.
--   Sdk          sdk/string: `Memory` (memset.c, memcpy.c, memcmp.c), `Str` (strlen.c, strcmp.c),
--                `Itoa` (itoa.c), `Vsnprintf` (vsnprintf.c).
--   Acpi         sys/hive/acpi/acpi.c, with inc/acpi/tables.h: `Tables` (acpi_init, acpi_query and
--                acpi_checksum), `Madt` (acpi_read_madt).
--   Core         sys/hive/core: `Bpt` (bpt.c, inc/core/bpt.h and bpt/limine.c), `Spinlock`
--                (spinlock.c on one processor; its child `Smp`, on many), `Initrd` (initrd.c),
--                `Elfload` (elfload.c), `Timer` (timer.c, with arch/amd64/io/timer.c and
--                arch/amd64/tsc.c),
--                `Trace` (trace.c and panic.c, with arch/amd64/io/uart.S and core/panic.S).
--   Gen          gen: `Memar` (memar/memar.c, what it writes for one file).
--   Md           sys/hive/arch/amd64/cpu: `Idt` (idt.c), `Tss` (tss.c), with inc/arch/amd64.
--   Mm           sys/hive/mm: `Bitmap` (SETBIT, CLRBIT, TESTBIT and bitmap_set_range of pmem.c),
--                `Pmem` (pmem.c), `Allocator` (what clients ask of it), `Vmem` (vmem.c).
--   Mu           sys/hive/arch/amd64: `Pmap` (cpu/pmap.c, with inc/mu/pmap.h).
--   Ob           sys/hive/ob: `Heap` (inc/ob/knode.h, inc/ob/dir.h and knode_subdir_find of knode.c),
--                `Store` (dir.c, store.c and ob_knode_new of knode.c), `Path` (ob_knode_resolve).
--   Os           sys/hive/os: `Pool` (pool.c).
--   Tests        the theorems at concrete inputs.
--
-- At boot `bpt_init` sets the hooks of the boot protocol; `mm_pmem_init` walks the memory map that
-- these serve, sizes and places the frame bitmap, fills it by `memset` and clears the bits of usable
-- memory; `mm_pmem_alloc` and `mm_pmem_free` then hand out frames under a spinlock. The static
-- variables of a C file are a record that its functions take and return.
--
-- `mu_pmap_map` descends four levels of page tables, takes a frame for each table that is missing,
-- and writes the entry of a page; `vmem_map_region` maps a region page by page. The memory that the
-- tables lie in is a function from the address of a word to its value. The frame allocator enters as
-- the interface `Mm.Allocator`, which `Mm.Pmem.Allocator` fills.
-- The allocator's bitmap lies in the same memory; the model keeps it in the allocator's state, which is
-- right as long as its frames are in use. The theorems on mappings and on the loader ask for that, and
-- `Mm.Pmem.Init.BitmapFrame` shows that `mm_pmem_init` leaves those frames free instead.
--
-- `initrd_lookup` looks a file up in the archive that `memar` has built and the boot loader has loaded;
-- the archive is the list of its bytes, and a pointer into it is an offset.
--
-- `printf` and `panic` have `vsnprintf` fill a buffer of theirs from a list of arguments and send out
-- what it holds. The theorems read a format as plain text and conversions with their arguments.
--
-- `elf_load_raw` checks an executable file, takes frames for each of its segments, maps them into an
-- address space by `vmem_map_region` and copies the segment there. What it asks of the allocator is
-- the interface `IsFrameSource` of `Core.Elfload.Sequence`, which `Core.Elfload.Kernel` fills from
-- `mm_pmem_alloc` for one frame at a time; its theorem is about segments of one page.
--
-- The object store keeps knodes, which directories list: `ob_store_init` makes the root,
-- `ob_dir_append` lists a knode, and `ob_root_get` and `ob_knode_resolve` find it by name and path.
-- Knodes and directories lie in heaps, whose indices are the pointers. `timer_init` and what it calls
-- list the clocks in a directory of the root.
--
-- `acpi_init` finds the root table of ACPI by the pointer that the boot protocol passes on;
-- `acpi_query` looks a table up in it, and `acpi_read_madt` calls a callback for the entries of the
-- table it has looked up. They read memory by address; the callback works on a state of its own.
--
-- `os_pool_init` gives a part of memory to the TLSF allocator, and `os_pool_allocate` and
-- `os_pool_free` call that allocator under a lock. `md_idt_set` and `md_tss_init` write the
-- descriptors from which the processor takes handlers and stacks.
--
-- Bounds and fuel. Numbers are natural numbers, and 64-bit arithmetic is reduced modulo 2 ^ 64 where
-- the source computes it. A counted loop recurs on the rounds left. The loops over the memory map
-- have no bound in the source and run on fuel: one round more than there are entries is shown to be
-- enough. The lookup in an archive needs one round more than there are files in it, the resolution
-- of a path one round for each component and one more at its end, the mapping of a region one for
-- each page and one more, the walk over the MADT one for each entry and one more, and `itoa` twenty,
-- one for each digit that an `int64_t` can have and one more, or seventeen in base 16. `vsnprintf`
-- needs one round for each conversion and one more, and `elf_load_raw` one for each program header and
-- one more. `spinlock_acquire` gets one round in the frame allocator and in the pool, since on one
-- processor a second round cannot succeed.
--
-- Not modelled: sys/hive/mm/tlsf.c, sys/hive/inc/boot/limine.h, sdk/inc/sys/queue.h and
-- sdk/inc/sys/elf.h are copies of other projects; assembly enters only through what C code uses of
-- it. `printf` is modelled by itself, and the trace output of the other functions is left out. What
-- the boot loader answered is a parameter (`Responses`), and so is whether the pool allocator serves a
-- request of the object store.
-- The flush of cached translations is left out, as the walks of the tables are what is compared.
-- The other parts that drive hardware (the rest of sys/hive/arch) and the order of start-up in
-- core/epoch.c are outside this library: no theorem here depends on what they compute.
pub mod Acpi
pub mod Base
pub mod Core
pub mod Gen
pub mod Md
pub mod Mm
pub mod Mu
pub mod Ob
pub mod Os
pub mod Sdk
pub mod Tests
