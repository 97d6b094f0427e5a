-- ===== src/Lib.antt =====
-- A model of what a simulation of this repository's designs loads and runs, and of the C runtime, the
-- memory manager and the small kernels of the RISC-V benchmarks that it measures, with the theorems
-- that make them correct.
--
-- Parts. Under design-processing/common/dv/ stands the C++ that every simulation links: the memory of a
-- design calls `read_elf` once and then `get_section` and `read_section` until it has each section,
-- and in the same way `init_taint_vectors`, `read_taints`, `get_taint_section` and
-- `read_taint_section` for the taint; the file names and the number of ticks come from the environment.
-- The programs under benchmarks/ link the runtime of benchmarks/benchmarks/common: the
-- routines on memory and strings, and formatted output on top of them, which ends in `syscall`.
-- The kernels compute, and check their results with the comparisons of common/util.h. The
-- environment benchmarks/env/v maps the pages of a test on demand, and uses its own copy of the
-- string routines to fill them.
--
-- Files.
--   Base        tests on numbers, lists, bits, integers, memory and its updates; Run is the end of a call
--               that may abort, exit or leave an object.
--   Source      how a simulation takes sections from a loader: a record of the calls and their laws, which
--               Elf/Queue/Drain and Taint/Drain fill, and the loop over the calls.
--   Calls       the answers of a component to a sequence of calls, and when two components give the same;
--               Elf/Image/Calls and Taint/Calls compare the loaders in this way with what the calls mean.
--   Elf         design-processing/common/dv/elfloader.cc, with the structs that it shares with
--               design-processing/common/dv/elf.h. Layout has the fields of the structs and where they
--               stand, Header the reads of a struct and the magic numbers, Segments the loop over the
--               program headers and `write`, Sections those over the section headers and the symbols,
--               Read `LOAD_ELF` and `read_elf`, Queue `get_section` and `read_section`. A file is its
--               size and its bytes; the loader's variables are a record. Layout/Fields, Header/Bytes,
--               Segments/Spec, Segments/Safe, Sections/Symbols, Sections/Total, Read/Loaded,
--               Read/Backed, Read/Loadable, Read/Strayed, Queue/Drain and Queue/Copy hold the proofs.
--               Layout/Encode writes the fields of a struct, and Image a whole file from segments: both are no code of the
--               repository but the other direction, against which the loader is stated; Image/Parts,
--               Structs, Segments, Names and InOrder find the written parts again, Delivered, Cut,
--               Order and Calls say what the loader makes of such files.
--   Taint       design-processing/common/dv/taintloader.cc: the three vectors and `init_taint_vectors`;
--               Stream has `getline` and `>>`, Read `read_taints`, Queue `get_taint_section` and
--               `read_taint_section`. Hex, Numeral, Line, Text, Consistent, Keep, Spec, Drain, Malformed,
--               Delivered, Decode, Ledger, Calls and Spaced hold the proofs.
--   Sim         design-processing/common/dv/common_functions.cc in Environment, and
--               design-processing/common/dv/ticks.h in Ticks, with `cl_get_tracefile` in Environment.
--               `getenv` and the testbench of a design with its clock are parameters. Ticks/Length holds
--               the proofs.
--   CString     `memcpy`, `memset`, `strlen`, `strnlen`, `strcmp`, `strcpy` and `atol` of
--               benchmarks/benchmarks/common/syscalls.c and benchmarks/env/v/string.c, `memcmp` of
--               the latter. A memory is a function from addresses to bytes, a pointer an address.
--               Copy, Fill, Compare, Scan and Number hold the proofs, Words those on words.
--   Print       `printnum`, `getuint`, `getint`, `vprintfmt`, `putchar`, `printf` and `sprintf` of
--               syscalls.c. `printnum` is in Print, the flags of `vprintfmt` in Print/Flags, its
--               conversions and its loop in Print/Conversion, the sinks in Print/Sink, and `printhex` in
--               Print/Hex. Digits, Text,
--               Format, Sink and RoundTrip hold the proofs.
--   Kernels     `multiply` of benchmarks/benchmarks/multiply/multiply.c, `median` of
--               benchmarks/benchmarks/median/median.c, `verify` and `verifyDouble` of
--               benchmarks/benchmarks/common/util.h, each with its proofs.
--   Towers      benchmarks/benchmarks/towers/towers_main.c: the pool of nodes, the lists, and the game
--               from `main` to `towers_verify`. Pool and Linked hold the proofs on chains of nodes,
--               Stacks those on one operation, Solve, Setup and Game those on the game.
--   Vm          `handle_fault`, `evict`, `handle_trap` and the free list of `vm_boot` of
--               benchmarks/env/v/vm.c. The state holds the last-level page table, the two arrays of
--               nodes, the ends of the free list, the frames, and the image that pages are filled
--               from; what a page holds is a parameter. Lfsr, Entry, Invariant, Fault and Touch hold
--               the proofs.
--   Each part has a module Tests with runs on concrete inputs.
--
-- Bounds and fuel. `uintptr_t` has `2 ^ k` bytes and `long` as many, with `k` a parameter; output is
-- modelled for 64 bits. Words are the numbers below a power of two, with the wrap-around written
-- out; signed words are their two's complement patterns, and an overflow of `int` or `long` wraps.
-- `char` is unsigned, as on RISC-V. Objects do not reach past the end of the address space. Loops
-- whose bound is no argument run on fuel: `memcpy`, `memset` and `memcmp` take one unit more than
-- the length, `printnum` takes 64, one for each bit, `vprintfmt` one more than the length of its format, and the
-- scans of strings take the fuel as an argument; `list_clear` and `towers_verify` take one unit more
-- than the length of the list; running out is `none` or `out_of_fuel`.
--
-- A file is read as its size says; a struct or a string that does not stay inside it is `strayed`, as is
-- an id that a vector does not have, the use of a variable without a value, and a number for `atoi`
-- that is no `int`. Sums of offsets and lengths wrap as their types do, 32 or 64 bits. Where
-- the loaders count in `int` the model has no bound, and stands for the code below 2^31: the loops of
-- `write` and `read_section` for data below 2^31 bytes, the loop of `read_taint_section`, which
-- doubles its counter, for taints below 2^31 characters, `section_index` and
-- `taint_section_index` for fewer than 2^31 sections. README.md says that all numbers of a taint
-- file are hexadecimal; the code reads the id and the number of bytes as decimal numbers, and the
-- model with it. The pool of Towers has 7 nodes, and `main` is modelled for 1 to 7 discs; memory is
-- never exhausted, and a vector holds at most 2^63-1 bytes. These loops are structural: over the number of headers or
-- symbols, the lines of a file, or the characters of a string; only `drain`, which asks
-- for sections as the simulation does, has fuel, one unit more than there are sections left.
--
-- Not modelled: what the loaders print; the file system behind `open`, `fstat`, `mmap` and the streams;
-- the designs and their testbenches, which are submodules; `syscall`, `exit` and the counters, which
-- talk to the host; the control registers, the upper page tables and the fences of vm.c, and its
-- harts but the first; the matrix products of
-- benchmarks/mt and the larger kernels; dhrystone, tiny-malloc and the data sets, which are not this
-- repository's own; assembly, Python, Tcl and build files.
pub mod Base
pub mod Source
pub mod Calls
pub mod Elf
pub mod Taint
pub mod Sim
pub mod CString
pub mod Print
pub mod Kernels
pub mod Towers
pub mod Vm
