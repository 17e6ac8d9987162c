-- ===== src/Lib.antt =====
-- A small file system in a file: the disk, the free-cluster bitmap, the superblock, the table of inodes,
-- the contents of files, directories, paths, open files and their cache, and formatting.
--
-- Parts, bottom up, each with the file of the repository that it models:
--   Config       include/fs/config.h, the constants.
--   Platform     the stream behind <stdio.h> and include/fs/platform_io.h: a parameter (Stdio). IsFile
--                states what a file promises of the calls that succeed, IsReliable that none fails.
--   Disk         src/storage/disk.c, clusters of 4096 bytes in a stream (fs_disk_*). Disk.Chunks is the
--                loop that src/alloc/bitmap.c and src/metadata/index.c share to store a buffer.
--   Bitmap       src/alloc/bitmap.c (fs_bitmap_*), one bit for each cluster.
--   Superblock   src/storage/superblock.c (fs_superblock_*), cluster 0.
--   Index        src/metadata/index.c (fs_index_*), the table of inodes in memory and on the disk.
--   Alloc        src/alloc/alloc.c (fs_alloc_*): the clusters of a file through twelve direct pointers
--                and three levels of pointer clusters. Alloc.Files reads, writes and truncates.
--   Dir          include/fs/types.h, directory entries (fs_dentry_*), and the lists of them in
--                src/logical/dir.c; Dir.Table has its operations (fs_dir_*), on the parameter Stdlib: calloc,
--                qsort and bsearch, with IsStdlib what <stdlib.h> promises of the two.
--   Format       src/storage/format.c, formatting and mounting (fs_format_*).
--   Vfs          include/fs/vfs/internal.h, an open file (Session) and the whole context (Context);
--                Vfs.Cache is src/vfs/cache.c, Vfs.Files and Vfs.Open the table of open files of
--                src/vfs/context.c, Vfs.Io src/vfs/io.c, Vfs.Path src/vfs/path.c and Vfs.Operations
--                src/vfs/operations.c.
--   History      cli/src/core/history.c, the command lines that the shell remembers.
--   Huffman      cli/src/commands/file_compress_commands.c, the coder behind the commands compress and
--                decompress (huffman_*): Huffman has the tree, Huffman.Codes the canonical codes,
--                Huffman.Streams the writer and the reader of bits, Huffman.Coder the two routines.
--   Cli          the shell: Cli.Tokens and Cli.Paths are cli/src/utils.c, Cli.Editor is
--                cli/src/core/line_editor.c, and Cli.Packing has the two commands around the coder.
--   Base         the helpers: statuses and state passing (Effect), bytes (Buffer), bits of a byte
--                (Bits), integers (Integer), what calls keep and give (Keeps, Gives), counting (Counting).
--   Checks       a file in memory, a sort by insertion, and the theorems at concrete states.
--
-- How the code is written here. A call that changes what its pointer arguments point at is a function
-- from the state to a result and the new state, and the changes made before an error stay. The status
-- FS_STATUS_OK is `ok` and the others are `err`. A context is a record; what several contexts share (the
-- disk, the bitmap and the index) is passed once, in Work, Session and Vfs. A result of calloc or fopen is an
-- argument. The tests of arguments for a null pointer, and the calls that only free memory, are not
-- written. Numbers are natural numbers: where a sum or product of `uint32_t` can pass 2 ^ 32 the
-- remainder is written out; a `size_t` or `int64_t` is taken not to overflow. A buffer is a function
-- from offsets to bytes. Numbers in clusters are little-endian, `sizeof(fs_inode_t)` is 84, and its `bool` with the
-- padding is one word.
--
-- Loops. A loop over an index has the number of rounds left as its first argument. A loop over bytes has
-- fuel: as many rounds as there are bytes, which is enough since every round moves at least one byte.
-- The recursion of free_indirect_blocks is on its depth. A logical cluster past the reach of the triple
-- level would index a pointer cluster out of its bounds in the source; here it reads past the buffer.
--
-- The loops along a path have as many rounds as it has characters, which is enough since every round
-- takes at least one; a walk that had none left would end in a way of its own, out_of_rounds; at most eight symbolic links are followed, as in the source.
--
-- The loop of huffman_build_tree has one round more than there are nodes, which is enough since every
-- round but the last adds a node. The depth of a code is at most 16, and the recursion over the tree is
-- on what is left of that. The line editor takes the keys of the user as a list, and a command of the
-- shell returns what it prints as a value.
--
-- Strings are lists of their characters. The directory operations read a directory as a list of entries and
-- write all of it again. The string of an entry that is read ends with the buffer at the latest, where the
-- source would read on. Whether calloc returns memory is an argument, by the place that asks
-- (Site, Memory). The inode of Work is the local inode of the function that is modelled.
--
-- Not modelled: the creation and destruction of the contexts that hold no logic, the getters, closing the
-- disk, the buffers of fixed size that fs_vfs_rename fills from a path,
-- and of the command line under cli the terminal, the screen, the loop of the shell and the commands
-- other than compress and decompress, which print what the operations here return. The tests under tests are not part of the system.
pub mod Base
pub mod Config
pub mod Platform
pub mod Disk
pub mod Bitmap
pub mod Superblock
pub mod Index
pub mod Alloc
pub mod Dir
pub mod Format
pub mod Vfs
pub mod History
pub mod Huffman
pub mod Cli
pub mod Checks
