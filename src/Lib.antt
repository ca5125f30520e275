-- ===== src/Lib.antt =====
-- The disk tools and the terminal of the SYS16 package.
--
-- The parts and how they interact:
--   tools/mkfs.py builds a System V file system image from a host tree and spec lines and writes it out;
--   tools/s5fs.py reads such an image and lists it, and tools/s5extract.py copies it into a directory;
--   tools/mkdisk.py lays out a drive and makes the header of its pack; tools/coff2genix.py turns a
--   kernel into a boot image; tools/nm32.py reads the kernel's symbols, and tools/trace.py names the
--   addresses of a log with them; pack/genixterm.py types to the emulated machine and watches its
--   console.
--
-- Which file models which part:
--   Base        names shared by all, lists cut by native numbers (Base/Lists, Base/Slices), the fields
--               of Python's struct (Base/Codec), and the faults a tool can end with (Base/Result).
--   Mkfs        mkfs.py: the constants, Inode, Fs, put, alloc_block and alloc_inode. A method is a state
--               passing function that may fail. Mkfs/Store is store_data, Mkfs/Inodes pack_inode and
--               write_inodes, Mkfs/Dirs dirent, Mkfs/FreeList build_free_list, Mkfs/Superblock
--               write_superblock, Mkfs/HostFiles the files of one host directory in build.
--   Mkfs/Build  build: the dictionaries dirs and entries (Dict), getdir, the loop over os.walk
--               (walk_dirs), the spec lines (Mkfs/Build/Spec) and the directories' contents
--               (write_dirs). Its state is the record Build. Mkfs/Finish is the three calls that
--               end it. Mkfs/Main is main: the options, the sizes and the disk header.
--   Mkfs/Blocks, Mkfs/Layout  the image as blocks, and the blocks and addresses that a file takes, as
--               an independent description of what store_data does. Mkfs/Needs counts them.
--   S5          s5fs.py: __init__ (open_image), inode, blk, ind, data (contents) and readdir; S5/Walk is
--               walk, with the letters of main's listing.
--   S5extract   s5extract.py: main as the list of its actions on the host, up to a fault.
--   Mkdisk      mkdisk.py: DRIVES (drives), layout, disktab, root_blocks.
--   Nm32        nm32.py: symbols, and the loop of main that looks an address up.
--   Trace       trace.py: name_of, and the loop that keeps the first address of each run; Trace/Report is
--               main, from the lines as the two regular expressions find them.
--   Coff2genix  coff2genix.py: main, from bytes to bytes; emit is its second half.
--   Genixterm   genixterm.py: type, pump_keys, note and saw of Machine, and the loop over the keys of
--               run_interactive (read_keys). Genixterm/Sessions is run_check and sync_and_stop,
--               Genixterm/Exec run_exec, and Genixterm/Interactive the rest of run_interactive; the
--               answers of the clock, the process, the socket and select in each round of their loops
--               are a list of rounds.
--   Tests       the theorems at concrete inputs.
--
-- Bounds and fuel: numbers are unbounded, as in Python, and each packed field is checked against its
-- range as struct does. The loop over the double indirect blocks runs on the length of what is left,
-- which drops each round; the loop over the symbols runs on the number of entries. The free list is
-- walked with one more round than there are free blocks. getdir has the 996 further calls that Python's
-- default limit of 1000 frames leaves to its first call in build, and ends in a RecursionError as
-- Python does when it needs more; walk runs on the 12 levels that the code allows. A session's loop
-- runs on its list of rounds and has no result when the list is too short.
--
-- Not modelled: what os.walk and the host's files may raise, which are read before the model starts;
-- which of the host's paths name one file, a parameter of what is stated of s5extract.py;
-- signs, underscores and prefixes of the numbers in a spec line; the regular expressions of trace.py;
-- all printing; and the processes, sockets, locks and terminal modes of genixterm.py. The time stamp of
-- mkfs.py is an argument, since it depends on the host's time zone.
pub mod Base
pub mod Mkfs
pub mod S5
pub mod S5extract
pub mod Mkdisk
pub mod Nm32
pub mod Trace
pub mod Genixterm
pub mod Coff2genix
pub mod Tests
