-- ===== src/Lib.antt =====
-- Verification library of the repository, a collection of C programs for Linux: the parts that
-- have logic of their own, with the theorems that make them correct.
--
-- * chapter_59/kv_store.c, kv_store.h: the store of the key-value server. KvStore.antt has one
--   definition for each function, over the array `records`, its count, and an explicit heap; a
--   function returns `none` where the C code would use or free memory that is not allocated.
--   KvStore/Dict.antt is the map that the store promises; KvStore/Validity.antt the invariant.
-- * chapter_59/kv_server.c, kv_proto.h, and the request of kv_client.c: KvServer.antt, over the
--   events that read() meets (Stream.antt). Sockets, threads and the accept loop of main() are not
--   modelled; the mutex of the store makes each of its calls one step, so that a sequence of calls
--   (KvStore/Run.antt) is the order in which the threads get the mutex. The record of a get is read
--   in the same step; KvStore/Race is about a thread that gets the mutex in between. To
--   read more than a buffer of handle_client() has room for is a fault.
-- * chapter_61/rdwrn.c, rdwrn.h: RdWrN.antt has readn() and writen() over the events
--   of read() and write().
-- * chapter_48/dir_service/dir_service.c, dir_service.h: DirService.antt, the table of entries with
--   its fixed arrays of bytes, and the way in and out of the semaphore, where each call of the
--   kernel may fail. DirService/Strings.antt is about the C string functions that it uses.
--   dir_cleanup() and a dir_init() that finds the resources in place only call the kernel.
-- * chapter_30/threadsafe_tree.c, threadsafe_tree.h: ThreadsafeTree.antt, lookup(), add() and
--   delete() on a tree whose nodes carry their addresses, each with the list of the mutexes that it
--   locks and unlocks. What another thread does in between is not modelled.
-- * chapter_59/read_line.c, read_line.h: ReadLine.antt, readLine() over the events of read() of one
--   byte each.
-- * chapter_53/posix_sem.c, posix_sem.h: PosixSem.antt has the kernel's tables of System V sets and
--   segments, found by key and by id, and PosixSem/Open, Close, Operations and Timed have the
--   functions. `none` is a NULL pointer or SEM_FAILED; the ids of new objects are arguments, and so
--   is what the kernel refuses. A call is one step, but sem_open() says what other processes do
--   after its first look, and a blocked sem_wait() or sem_timedwait() goes through a list of the
--   signals and of the steps of other processes, the alarm among the signals; when it comes is not
--   modelled, nor are permissions. PosixSem/Validity has the invariant and PosixSem/Run any
--   sequence of calls.
-- * chapter_06/myenv.c, on the list of the entries: mysetenv() and myunsetenv() in Environment.antt,
--   with the length of an entry as an int.
-- * chapter_59/read_line_mod.c, read_line_mod.h: readLineBuf() in LineBuffer.antt, over what each
--   read() returns; its readLine() is the one of read_line.c.
-- * chapter_07/mymalloc.c, all but main(): Malloc.antt, on a heap whose words are found by their
--   addresses; sbrk() moves the break or does not. Its argument is an int of 64
--   bits, so that a great size moves it down; other addresses do not wrap around. What stands
--   behind the break can be read, as on the rest of a page. Fuel above the number of the free chunks
--   is enough for the search.
-- * chapter_61/pftp.h, pftp_common.c, pftp_server.c, pftp_client.c: Pftp.antt has the strings and
--   the names of files. Pftp/Server has the handlers of the server and a round of its main(), over
--   what select() and the calls behind it give, with what it asks of the kernel as a list of effects;
--   Pftp/Client has the loop of the client that receives the file. Pftp/Paths, Inside, Connected,
--   Files, Transfer, Receive, Pieces and Download are about them, the last about the two together. A
--   send() sends all of its bytes; the setup of sockets, the cookie that is drawn and the end by a
--   signal are not modelled.
-- * chapter_44/fifo_seqnum_server_mod3.c, fifo_seqnum.h: SeqNum.antt, the counter with the file that
--   keeps it, and servers that run one after another. SeqNum/Persist is about the file,
--   SeqNum/Counter about what clients are promised, SeqNum/Limits about a server's descriptors.
--   The FIFO is the list of what read() gives.
-- * chapter_31/threadsafe_dirname.c, threadsafe_basename.c: PathSplit.antt has both functions, on the
--   string in the buffer of the thread; PathSplit/Posix has what POSIX says of a path.
-- * chapter_47/npipe_sem.c, npipe_sem.h: NpipeSem.antt has the functions on the FIFO, and
--   NpipeSem/Holders the processes that share it, as a relation of steps.
-- * chapter_47/vms_flags.c, vms_flags.h: EventFlags.antt, the functions on the value of a semaphore;
--   chapter_48 has a copy of the file.
-- * chapter_18/myrealpath.c, normalize_path(): RealPath.antt, on the string in the buffer. The rest of
--   the file asks the file system.
--
-- Common has the helpers: lists and bytes over the native numbers, decimal numbers, and Boolean
-- tests. Bytes are numbers; lengths on the wire are four bytes each, and size_t wraps around at
-- 2 ^ 64. A number is printed with room for 20 digits, which is enough below 10 ^ 20. No other loop
-- of the models takes fuel: each is structural recursion, on the rounds left of an array or of a
-- count of attempts, on a tree, or on the list of events that is left, the end of which is the end of
-- the file.
--
-- The other programs of the repository are not modelled: most are demonstrations of a system call,
-- whose whole effect is in the kernel.
pub mod Common
pub mod KvStore
pub mod Stream
pub mod KvServer
pub mod RdWrN
pub mod DirService
pub mod ThreadsafeTree
pub mod ReadLine
pub mod PosixSem
pub mod Environment
pub mod LineBuffer
pub mod Malloc
pub mod Pftp
pub mod SeqNum
pub mod PathSplit
pub mod NpipeSem
pub mod EventFlags
pub mod RealPath
