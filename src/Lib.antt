-- ===== src/Lib.antt =====
-- Verification of OS_fuse, a FUSE file system in C that keeps its files in one disk file.
--
-- The program. src/block.c reads and writes blocks of 512 bytes of the disk file. Block 0 holds the
-- superblock in its first 128 bytes, in the place of inode slot 0; the inodes are slots of 128 bytes
-- from there on, and block 1024 is their bitmap. src/prelude/free_block.c links the free blocks into a
-- list, src/prelude/inode.c keeps inodes, bitmap, entry lists and directories, src/prelude/path.c
-- looks paths up, src/prelude/stream.c reads and writes file contents, src/prelude/err.c carries the
-- last error, and src/sfs.c is the set of operations that FUSE calls.
--
-- Files and the code they model (paths from the repository's root):
--   Base       C's int, tests and lists on the native numbers
--   Memory     memory objects as functions from offsets to bytes, little-endian fields, memcpy
--   CString    the string functions that the code calls. Compare: laws of the test of two names
--   State      the record `Sys` of the disk and the global and static variables that an operation can
--              tell apart; src/prelude/err.c. The scratch buffer _iblockbuf and the block EmptyBlk of
--              zeros are not in it
--   Device     src/block.c over `Posix`, the calls of the host with their documented behaviour; `view`
--              is the disk of `Sys`, and the other files take the calls of src/block.c to succeed, on
--              block numbers whose offset an int holds, that is, below 2^22
--   FreeBlock  src/prelude/free_block.c. Chain: the list of free blocks that a disk spells out (IsFree)
--   Inode      src/prelude/inode.c: load, dump, initialisation and attributes of an inode
--   Bitmap     src/prelude/inode.c: free_inode_pop, free_inode_push
--   Listing    src/prelude/inode.c: dnode_listing, fnode_listing and their setters, one definition over
--              the layout of an entry. Frame to Loop are the parts of the setters' loops, Store,
--              Written and Stored the whole setter, Read the reading loops, Array and Bounds the
--              static arrays. Supply, Growth, Enough, Shrink and Frees count the inodes that a setter
--              takes
--   Entry      src/prelude/inode.c: dnode_entry_get, fnode_entry_get and their setters.
--              Located and Agree: the readers against the whole list
--   Directory  src/prelude/inode.c: dnode_append, dnode_remove. Append: what a directory is (IsDir),
--              Remove: what is left of it
--   Resolve    src/prelude/path.c. Lookup, Entries, Removed and Unique: names in a directory, Ends:
--              the walk along a path, Names to Whole: a path as the list of its names, Along:
--              a path that leads through directories, Nowhere: one that does not, Basename: the last
--              name of a path
--   Stream     src/prelude/stream.c. File: what a file on a disk is (IsFile). Blocks to Write are the
--              parts of fstream_write, Contents the files as arrays of bytes, Create a new file, FreeLoop
--              to Resize fstream_free and the shorter file it leaves
--   Format     src/prelude/inode.c: inode_init
--   Sfs        src/sfs.c, each operation from its path to its result. Init: the disk of sfs_init,
--              Start: main, Create and Long: sfs_create, Drop and Unlink: sfs_unlink, Truncate:
--              sfs_truncate, Contents: sfs_write and sfs_read, Readdir: sfs_readdir,
--              Missing: a path that leads nowhere, Again: a path that was created
--   Suite      the unit tests of src/prelude/main.c as Boolean functions
--   Tests      the theorems at concrete inputs
--
-- Operations have the name of the C function and pass the state explicitly; a loop is a function of
-- the same order of calls that counts its rounds down. Bounds: string functions and the walk along a
-- path run on PATH_MAX = 4096 rounds, which a path that FUSE passes does not exceed; the loops over
-- pages, bits and blocks have the rounds of the source. Integers are natural numbers with their
-- wrap-around written out in stores of 8, 16 and 32 bits; sizes and offsets of reads and writes are
-- not negative and do not overflow an int.
--
-- Not modelled: the log (src/log.c), the table of operations, the third-party header src/fuse.h and
-- test framework src/prelude/minunit.h, and the tests test_fb_init, which has no assertion, and
-- test_inode_struct, which compares sizes of types, of src/prelude/main.c. Memory beyond an array is
-- not modelled: where C would leave an object, the model reads 0 or keeps the bytes, as for the name
-- buffers of sfs_mkdir and sfs_rmdir and the byte that free_inode_push sets. malloc and calloc are
-- taken to succeed, but for the malloc of main.
pub mod Base
pub mod Memory
pub mod CString
pub mod State
pub mod Device
pub mod FreeBlock
pub mod Inode
pub mod Bitmap
pub mod Listing
pub mod Entry
pub mod Directory
pub mod Resolve
pub mod Stream
pub mod Format
pub mod Sfs
pub mod Suite
pub mod Tests
