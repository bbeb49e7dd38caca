-- ===== src/Lib.antt =====
-- fake-linker: a library that finds, reads and changes the state of Android's dynamic linker from
-- inside a process, and hooks functions of loaded libraries.
--
-- Paths are those of the repository; all code below is under library/src/main/cpp/.
--
-- Prelude: the shared names, tests on numbers, lists and texts.
-- Bits: the laws of bit operations, and `align_down` and `align_up` of
-- include/fakelinker/macros.h on 64-bit words.
-- Maps: class `MapsHelper` of common/maps_util.cpp. Maps.Line holds its state and the reading of
-- a line, Maps.Window `GetMemoryProtect`, Maps.Library `GetLibraryProtect`, Maps.Lookup the
-- queries, Maps.Protect the changes of protection. The file /proc/self/maps is a list of lines,
-- and a line is what `sscanf` converts of it. The operating system is the record `Kernel`, with
-- what a successful `mprotect` promises as its laws.
-- Jni: `HookJniNativeInterface` and `HookJniNativeInterfaces` of
-- linker/art/hook_jni_native_interface_impl.cpp, on a memory of bytes (Jni.Words).
-- They call Maps.
-- Symbol: the hashes of linker/linker_util.cpp, and the symbol lookups of
-- linker/linker_soinfo.cpp: in the tables of one library, in a list of libraries (Symbol.Chain),
-- the versions of symbols (Symbol.Version, Symbol.Needed), the exported symbols (Symbol.Export), and the ELF
-- reader's own lookups (Symbol.Reader).
-- FunTable: the table of functions through which linker/linker_soinfo.cpp reads and writes the
-- members of a soinfo, as built for arm64: the macros (FunTable.Statement), what `InitApiL` to
-- `InitApiV` write (FunTable.Newest to FunTable.Oldest), `soinfo::Init` and `InitCommon`
-- (FunTable.Init), and the accessors with the versions linker/linker_soinfo.h declares them for
-- (FunTable.Calls). A soinfo is a structure and its members; sizes and offsets are not modelled.
-- Namespace: membership, accessibility and groups of linker/linker_namespaces.cpp.
-- Links: the linked lists of linker/linked_list.h, on entries in memory. An allocator is the record
-- `Allocator` of operations and laws. Blocks: the block allocator of
-- linker/linker_block_allocator.cpp, which fills that record for any `mmap` that answers unused
-- addresses.
-- Relocate: linker/linker_relocate.cpp on arm64: one relocation and a table of them in the three
-- modes (Relocate, Relocate.Modes), the packed relative ones (Relocate.Packed), the packed groups
-- of linker/linker_relocate.h (Relocate.Groups) with the numbers of linker/linker_sleb128.h
-- (Relocate.Leb), the whole of a library (Relocate.Whole), and the second relocation of a loaded
-- library (Relocate.Special); of linker/linker_soinfo.cpp the manual relocation
-- of imports (Relocate.Again). It uses the lookups of Symbol.
-- Elf: file ranges, virtual offsets, extent and alignments of segments, and the header check of
-- linker/elf_reader.cpp.
-- Elf.Headers reads the tables of headers through fragments of linker/linker_mapped_file_fragment.cpp.
-- Elf.Dynamic reads the dynamic section and its string table of a file through the same fragments.
-- Elf.Loaded finds the program headers in the loaded segments.
-- Loader.Reserve reserves the address space of a library.
-- Loader: `LoadSegments`, the protection of segments and of RELRO of linker/elf_reader.cpp, as traces
-- of system calls, and Loader.Compat the 16 KiB mode of linker/linker_phdr_16kib_compat.cpp. It uses
-- Elf.
-- Notes: `__get_elf_note` of linker/elf_reader.cpp, and linker/linker_note_gnu_property.cpp.
-- Globals: searches in the list of all soinfos, the walk over dependencies, and the global group of
-- linker/linker_globals.cpp. It uses Namespace.
-- Resolver: the ranges of libraries of linker/art/symbol_resolver.cpp.
-- Relink: `ManualRelinkLibraries` of linker/linker_globals.cpp with `again_process_relocation` and
-- `get_global_soinfo_export_symbols` of linker/linker_soinfo.cpp. It uses Maps, Relocate, Symbol and
-- Globals. Symbol.LookupList is the list of libraries that a relocation searches.
-- Tests: the theorems at concrete inputs.
--
-- Numbers: a 64-bit sum wraps by `% word`, a 32-bit one by `% word32`. Members that the source
-- leaves without a value are the parameter `indeterminate`.
--
-- Ends of the process: a symbol lookup answers with `none` where the process ends, at a string behind
-- the string table or an invalid verdef, or where the fuel ran out; a null pointer is `some none`.
--
-- Fuel: the loops over a linked list run on fuel, and more fuel than entries is enough.
-- `protect_loop` runs on fuel, and a file with fewer lines than the fuel ends it. The loops
-- along a hash chain and the walk over dependencies run on fuel, and their theorems name the fuel
-- that is enough.
--
-- Not modelled: messages, the closing of files, the locks around the lists of the linker, the
-- table of member offsets of namespaces for each version of Android, the rest of the ELF reader, `LinkedListT`, the relocations of other processors,
-- the exported tables of functions, and the copy of the XZ decoder.
pub mod Prelude
pub mod Bits
pub mod Maps
pub mod Jni
pub mod Links
pub mod Blocks
pub mod Symbol
pub mod Relocate
pub mod Namespace
pub mod Elf
pub mod FunTable
pub mod Loader
pub mod Notes
pub mod Globals
pub mod Resolver
pub mod Relink
pub mod Tests
