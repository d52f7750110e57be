-- ===== src/Lib.antt =====
-- SkyeFS: a distributed file system whose directories are split over servers by GIGA+ hashing.
--
-- A directory is a set of partitions, which form a binary tree: partition i has the children
-- i + 2 ^ k with 2 ^ k > i. A file is in the partition that the longest suffix of its name's digest
-- names. Partition i is on server (i + the directory's first server) modulo the number of servers.
-- Client and servers each keep a header table of a directory, the bitmap of the partitions that they
-- know. A client asks the server that its own table gives; a server that is not responsible replies
-- -EAGAIN with its table, which the client merges before it asks again.
--
-- Files and the code that they model:
--   Bits                 the bits of a number, shared
--   Giga/Bitmap          common/giga_index.c: the bitmap and the arithmetic on indices (get_bit_status,
--                        get_radix_from_index, get_highest_index, ...)
--   Giga/Mapping         common/giga_index.c: struct giga_mapping_t and what changes it
--                        (giga_init_mapping, giga_update_cache, giga_update_mapping, ...)
--   Giga/Hash            common/giga_index.c and common/sha.c: giga_hash_name, compute_index,
--                        binary2hex, hex2binary
--   Giga/Index           common/giga_index.c: giga_get_index_for_file, giga_index_for_splitting,
--                        giga_file_migration_status, giga_is_splittable
--   Giga/Tree            the specification: trees of partitions, and the longest suffix
--   Giga/Lookup, Child, Split, Update, Merge, Servers, Init, Remove
--                        the theorems on these operations
--   Rpc, Connection      common/skye_rpc.x and common/connection.c
--   Connection/Spec      common/connection.c: the specification in pvfs_connect; RoundTrip has the theorem
--   Connection/Servers   common/connection.c: the server list; Numbering has the theorem
--   Rpc/Encoding         common/skye_rpc_helper.c; RoundTrip has the theorem
--   Client/Cache         client/cache.c
--   Client/Retry         client/operations.c: the loop at the label `bitmap`
--   Client/Operations, Client/Modify
--                        client/operations.c: the operations on names
--   Client/Files         client/operations.c: files, attributes and listings; Attributes has the operations
--                        on a file, Listing those on a directory, with pvfs_readdir of
--                        common/connection.c, and Opening, Windows and Sizes the theorems
--   Client/Returns       an operation from the fetch of the directory to its return
--   Server/Directory, Server/Cache
--                        server/cache.h and server/cache.c; below Server/Cache, Filling and Fetching have
--                        the theorems on a directory that is not in memory, Balance those on one that is
--   Server/Bucket        server/handlers.c: get_partition_handle and enter_bucket
--   Server/Queue         server/split.c: perform_split, pvfs_mkdir_server, isdir_overflow
--   Server/Split         server/split.c: do_split and split_thread; below it Names, Moving, Places and Whole
--                        have the theorems
--   Server/Start         server/server.c: create_root_partition, and how main calls it
--   Server/Handlers      server/handlers.c: the frame of the procedures, bucket_add and bucket_remove;
--                        below it Procedures and Remove have the others, and Balance,
--                        BucketAdd, Removing and Clearing the theorems
--   Cluster              server/split.c, server/handlers.c and server/cache.c: the tables of all
--                        servers while they load a directory and split it. Loading has
--                        the load, Consistent and Steps what every table keeps, Family and Children
--                        which server knows the children of a partition, Routing where a table puts a
--                        name, and Asking a client that asks meanwhile
--   System               client/operations.c and server/handlers.c: clients, servers and PVFS as one
--                        state, in which a stub runs the procedure on its server. Handles has the
--                        array of handles, Resting a directory that is not being split, Serving a
--                        lookup at a server, Calls, LookupCalls and Lookup that of a client; Checking,
--                        Entering and Creating have a create at a server, CreateCalls and Create that
--                        of a client, Removing, RemoveCalls and Remove a removal
--   Tests                the operations at concrete inputs
--
-- How the code is modelled. A table is a record, whose bitmap is a list of 147 bytes. A byte holds
-- 7 partitions, as BITS_PER_MAP says. Code that may fail returns an Outcome: a failed assertion, an
-- access outside of an array, a division by zero and a read of an unset variable are faults, which
-- are no results, and so are a wait for a lock that is taken and a release of one that is not; but the
-- 0 that binary2hex writes past its callers' arrays is left out.
-- Unsigned sums wrap at 2 ^ 32 where the code adds a first server to an index. Client state is the
-- list of cached directories with the state of everything else, on which the stubs of the servers
-- act; the operations pass it on. A client's directory pointer is the directory's handle. A server
-- runs one procedure at a time; its pointers are places in a list of allocated directories, which
-- remembers what was freed, and its state has the semaphore, the queue of splits and PVFS. An inode
-- number is a handle, but for that of the root.
--
-- Bounds. The loop of giga_get_index_for_file and that of giga_index_for_splitting get 11 rounds, as
-- an index has at most 10 bits. The loops at `bitmap`, of do_split, and those that list directories
-- have their numbers of rounds as arguments: ten are enough at `bitmap`, and more than there are
-- entries in do_split and skye_ll_opendir. The tree has ten levels, and a client's lookup goes down
-- one with each table that it merges.
--
-- Parameters. The digest `shahash` (assumed to return 20 bytes), the stubs of the servers, PVFS, and
-- whether malloc succeeds are arguments.
--
-- Not modelled: the rounds of SHA-1, uthash and utlist (copies of libraries), tracing, printing,
-- sockets and threads, the parsing of options, and the benchmark programs.
pub mod Prelude
pub mod Bits
pub mod Giga
pub mod Rpc
pub mod Connection
pub mod Client
pub mod Server
pub mod System
pub mod Cluster
pub mod Tests
