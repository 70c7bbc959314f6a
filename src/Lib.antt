-- ===== src/Lib.antt =====
-- hermes-broadcast: files are broadcast over a radio modem as RaptorQ symbols in fixed-size frames. A
-- transmitter (transmitter.c) and a receiver (receiver.c) of one file speak to the modem through a ring
-- buffer in shared memory or over TCP; a daemon (daemon.c) sends the files of a directory and receives
-- files into another, over TCP.
--
-- Which file models what, with the paths of the repository:
-- - Kiss (kiss.c, kiss.h): kiss_read, one byte at a time, and kiss_write_frame. Below it: streams of
--   bytes (Stream), bounds (Bounds), writing and reading frames (Frames), cut frames (Resync).
-- - Crc (crc6.c): the table and the loop. Poly compares it with a division bit by bit, Detect has the
--   errors that it finds.
-- - Ring (ring_buffer_posix.c): the operations on the shared ring. A call is an attempt under the lock:
--   it waits, returns or faults (an access outside an array). Queue is the specification, a bounded queue
--   of bytes; Reads, Writes and Calls prove the refinement, Shared has the interleavings of processes.
-- - Shm (shm_posix.c, and the functions of ring_buffer_posix.c that create, connect to and remove a ring):
--   the names and objects of the system, with the descriptors and mappings of a process. Create and
--   Connect have the two ends, Client and Joined the ring that they then share, Remove what becomes of
--   it.
-- - Modes (mercury_modes.h): sizes and tables.
-- - Nanorq (raptorq/nanorq.h, raptorq/nanorq.c): the RaptorQ coders are a parameter, a record of
--   operations; Laws states what the programs rely on, and Sample is a library where that holds. The
--   functions that write the parameters and tags of packets are modelled; Header has their readers
--   (receiver.c, daemon.c).
-- - Tcp (tcp_interface.c): the connection, sending and receiving KISS frames. Scans and Stream have the
--   frames that arrive, Link the life of a connection.
-- - Daemon (daemon.c): Filename has the frame budgets of file names, Directory the choice of files and
--   paths, Transmit and Receive one turn of each thread's loop, Watch the transmitting thread as a whole
--   with its inotify watch, Setup the options of main, and Threads the whole daemon, where the steps of
--   the two threads and of main interleave (Sound and Interleaved have one step, Runs all, Ends the way
--   out). Transmit.Handed counts the frames that a session hands over, Receive.Added follows the symbol
--   of a frame to the library. Air joins two daemons over the stream of the modem.
-- - Net (net.c): tcp_connect, tcp_read and tcp_write, which no program calls yet.
-- - Transmitter (transmitter.c): the packets (Packets), the slices (Slices), the main loop (Turns), its two
--   outputs (Streams) and its end (Ends). Main has the rest of `main`, from the options to the connection;
--   Starts and Program are about the whole program.
-- - Receiver (receiver.c): the check of a frame, its reading (Frames), and the turn of the loop on it
--   (Blocks, Keeps). Run is the loop, Safe its runs; Main has the rest of `main`, and Program is about the
--   whole program.
-- - Pipe (transmitter.c and receiver.c): the two programs at the ends of one ring, turn by turn.
--
-- State goes in and comes out of each function as a record with the fields of the C struct. A C string or
-- array is a list of numbers; arithmetic of 8, 16, 32 and 64 bits keeps its wrap-around where the code can
-- reach it. What the system calls answer (recv, send, stat, readdir, calloc, ...) is an argument, so that
-- a theorem holds for every answer. Loops are recursion on a list or on the number of turns left, which
-- is the loop's own bound; only Tcp.Stream.deliver counts calls, and its theorems say how many are enough.
--
-- Not modelled: the coders of RaptorQ and the matrix library below them (raptorq/, oblas/, copies of
-- other projects), the memory of the ring's handles, the steps of another process while a ring is
-- being created, the daemon's threads at a finer grain than the turns of their loops, the build
-- without inotify, the length of pauses, and the logs. nanorq_decoder_add_symbol reads as many bytes
-- of a frame's array as the received header announces for a symbol, which neither program checks:
-- the model of the two receivers makes a fault of a symbol that does not fit its array, and theorems
-- without faults assume headers that announce no such symbol. Where a loop is given its turns as a
-- list, a signal is the end of the list. The mutex of the TCP interface guards one send; of the
-- ring's lock and condition variable the model keeps that each attempt is atomic.
pub mod Common
pub mod Kiss
pub mod Crc
pub mod Ring
pub mod Shm
pub mod Modes
pub mod Nanorq
pub mod Header
pub mod Tcp
pub mod Net
pub mod Daemon
pub mod Transmitter
pub mod Receiver
pub mod Pipe
