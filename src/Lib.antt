-- ===== src/Lib.antt =====
-- bg3le, the script extender for the Linux build of Baldur's Gate 3: the parts of the program
-- that decide something by themselves, apart from the game's memory.
--
-- The network messages (src/net.cpp) are written in the protocol buffer format (src/pb.h).
-- Archives (src/pak.cpp) hold files that may be deflated, and are read by the decompressor
-- (src/inflate.cpp). Documents inside archives (src/lsf.cpp) have sections packed by the same
-- codecs. The game's files (src/game_files.cpp) are found through an index of its archives, which
-- it reads with the archives' reader. The interposed thread calls (src/affinity.cpp), the
-- steering of uploads (src/vulkan_memory.cpp) and the allocator (src/fast_alloc.cpp) stand alone:
-- the first keep the engine's threads off a mask of few cpus, the second hides slow memory from
-- the engine, the third takes the place of the engine's allocator of short-lived blocks.
--
-- - Common: Boolean tests, lists over native numbers, bits and little-endian integers.
-- - Wire: src/pb.h. Wire.Write has `varint`, `key`, `uint_field` and `bytes_field`, which append
--   to a list of bytes; Wire.Read has the class `Reader`, whose state is the list of the bytes
--   left.
-- - Net: src/net.cpp and the `NetUserVar` of src/net.h. Net.Guid has `parse_guid` and
--   `format_guid`; Net.Message has the structures and `encode`; Net.Decode has `decode_var` and
--   `decode`, whose loops over the fields are `walk` with the code's if-chain as its step.
-- - Inflate: src/inflate.cpp. Inflate.Bits has `Bits::take`, Inflate.Huffman `construct` and
--   `decode`, Inflate.Codes the `Output`, `stored`, `codes` and `fixed_block`, Inflate.Dynamic
--   `dynamic_block`, and Inflate.Stream `inflate`.
-- - FastAlloc: src/fast_alloc.cpp. FastAlloc.Pool has the pool of one thread, the memory as a
--   function from addresses to 64-bit words, and the two hooks.
-- - Pak: src/pak.cpp and src/pak.h. Pak.Format has the two layouts of entries, Pak.Read
--   `pak_listing` and `pak_file_read`, and Pak.Write `pak_write` and `pak_write_listing`, and
--   Pak.Cache `read_list` with its cache, `pak_list` and `pak_read`.
-- - Lsf: src/lsf.cpp and src/lsf.h. Lsf.Document has `LsfDocument` and its metadata, Lsf.Sections
--   `lz4_frame` and `section`, Lsf.Names `read_names` and the strings among the attributes,
--   Lsf.Read `lsf_read`, and Lsf.Write `lsf_write`.
-- - PakFix: src/pak_fix.cpp, in part. PakFix.Names has the functions on names and `crc32`,
--   PakFix.Paths those that know files by their names and the references to them, and
--   PakFix.Groups the groups of the class `Fixer` with `find`, `unite`, `pin`, `add` and
--   `choose`; PakFix.State has the state of the class with `group` and `pin_icon_directories`,
--   PakFix.Fixer its constructor with `add_entry`, PakFix.Scan `scan`, `scan_text`, `token` and
--   `link`, and PakFix.Unify `unify`, with the three one after the other as `repaired`;
--   PakFix.Build has `pak_fix_build`, whose loop that writes the replaced files is `place`;
--   PakFix.Parts has `mod_archive` and `archive_of_part`.
-- - GameFiles: src/game_files.cpp, over Pak. GameFiles.Map has what is used of `std::map`,
--   GameFiles.Host the system's answers with `game_data_root`, `game_language` and `archives`,
--   and GameFiles.Index the index with `build`, `game_file_read`, `game_file_exists` and
--   `game_files_under`, on a state that holds the lists kept by Pak.Cache too.
-- - Affinity: src/affinity.cpp. Affinity.Masks has `unrestricted`, `fill`, `cpu_list` and
--   `single_cpu`, Affinity.Pins `remember` and `recall`, and Affinity.Calls `widen` and the four
--   calls that are interposed, `pthread_attr_setaffinity_np`, `pthread_setaffinity_np`,
--   `pthread_create` and `pthread_setname_np`, on a state of two tables and the cpu of
--   GameThread.
-- - VulkanMemory: src/vulkan_memory.cpp. VulkanMemory.Policy has `mode`, `measure_should_steer`
--   over the speeds that `probe_type` measures, `should_steer`, `hide_host_visible`, `handle`,
--   and the dispatch of names: `diverted`, `vkGetDeviceProcAddr` and `vkGetInstanceProcAddr`.
-- - Examples: each property at a concrete input.
--
-- A byte is a number below 256 and a string is a list of bytes. Machine integers are native
-- numbers with their wrap-around written out where the code can reach it. A function that fails
-- is an `Option`, and a loop that needs fuel returns a `Run`, in which `stuck` says that the fuel
-- ran out. The loops over fields have one unit of fuel for each byte and one more, since a field
-- takes at least one byte; the rounds of inflate have one for each bit that is left and one more,
-- since a round takes at least one bit. The blocks of an LZ4 frame have one for each byte and one
-- more, since a block has a word of four bytes. `find` of the archives' repair has one for each
-- group and one more, and the scan of a text one for each character and one more.
--
-- LZ4 and zstd are parameters, the record `Codecs` of Pak.Format: what LZ4 compressed it
-- decompresses, and its output has a size between 1 and `LZ4_compressBound`. What `mmap` returns
-- is a parameter of the allocator, and `LZ4_decompress_safe_usingDict` one of the LSF reader.
-- What the system answers to the code that looks for the game's files (the path of the program,
-- the names in a directory, the bytes of a file if it can be opened) is the parameter `Host` of
-- GameFiles.Host, and does not change between the calls; the cpus, the switches and the speed of
-- each memory type are parameters of Affinity and VulkanMemory. Elsewhere opening, reading and
-- writing files is taken to succeed. Where the code takes a lock, a call is one step.
--
-- Not modelled: the parts that read and patch the game's memory (hooks, entity and Osiris access,
-- user interface), the Lua host, the redirections to repaired archives (`pak_fix_redirect` in
-- src/pak_fix.cpp), savegames and the tools.
pub mod Common
pub mod Wire
pub mod Net
pub mod Inflate
pub mod FastAlloc
pub mod Pak
pub mod Lsf
pub mod PakFix
pub mod GameFiles
pub mod Affinity
pub mod VulkanMemory
pub mod Examples
