-- ===== src/Lib.antt =====
-- A verification of litestomp, a C client library for brokers that speak STOMP, built on the Apache
-- Portable Runtime (APR). All the C files of the library are modelled, function by function, and the
-- four example programs that use it.
--
-- The parts, from the bottom up:
--
--   Status      src/stomp_status.c: status codes, which are flags, and a status with its message.
--   Message     src/stomp_message.c: a message, and the copy of text into it.
--   Properties  src/stomp_ex_properties.c: the properties of an exchange, in a hash table.
--   Io          src/stomp_io.c: frames on a socket. Io.Write has stomp_write_buffer, Io.Frame
--               stomp_write, Io.Line stomp_read_line, Io.Body stomp_read_buffer, Io.Read
--               stomp_read; Io.Blocks has the list of blocks of 1024 bytes that the readers fill.
--   Engine      src/stomp_engine.c: opening and closing a connection.
--   Messenger   src/stomp_messenger.c: the client. It opens a connection by Engine, sends frames and
--               waits for receipts by Io, and keeps the properties of the exchange.
--   Example     example/: two programs on the engine and two on the messenger.
--
-- Two descriptions stand beside the code. Io.Line.Next says what the next line of an input is, by
-- recursion on the input and without blocks. Messenger.Session has a client's calls as data, the run
-- of one of them, and the states that calls lead to; Messenger.Session.Effect says, as a relation
-- without frames and sockets, what a call may do to the messenger, and Messenger.Answers the same of
-- the functions that calls are made of. Io.Read.Arrived describes the inputs that start with a frame,
-- and Io.Stream the sequences of frames.
--
-- Below them stand Prelude (shared names, C's integers and strings), Exec (computations that end with
-- a value, fault, or use up fuel), Platform (APR and the allocator as an interface with the laws that
-- APR documents) and Machine (the state of the process: the platform's, and the two static variables
-- named `error`). Tests has a platform's worth of runs and an instance of each theorem.
--
-- How the code is read:
--
--   * A function that changes state is a computation `M A` on the process state. Structs are records,
--     null pointers are `none`, and a dereference of null is a fault, as is a read or a write outside
--     an object. A pointer argument that is written through becomes part of the result.
--   * A string that the code only reads as a string is the list of its bytes without the terminator.
--     A buffer is the list of all its bytes.
--   * `int`, `int64_t` and `size_t` convert as on LP64 with two's complement.
--   * The calls of APR are fields of the record Apr. Sockets and memory are separate parts of the
--     state. What a theorem assumes of them is in Wire, Unsplit, Finished, Codes, Objects, Closing,
--     Accepting, HasMemory and HashLaws; Platform.Script is a platform that runs and meets all of
--     these but Accepting, which a variant of it in Tests.Roomy meets.
--   * The loops over a socket take fuel, one unit for a round: fuel above the number of bytes of the
--     frame is enough for each of them, and the theorems show it.
--   * The byte that stomp_read_buffer leaves uninitialised is a parameter, `garbage`, and so is the
--     memory that stomp_messenger_init gets from malloc.
--
-- Not modelled: the output to stdout and stderr, with the debug output that STOMP_DEBUG asks for; the
-- failure of vasprintf; what free() and pool destruction release, beyond the call. Of receives, Unsplit
-- says nothing where they ask for no byte: APR returns APR_EOF there, as Platform.Script does.
pub mod Prelude
pub mod Exec
pub mod Platform
pub mod Status
pub mod Machine
pub mod Io
pub mod Engine
pub mod Message
pub mod Properties
pub mod Messenger
pub mod Example
pub mod Tests
