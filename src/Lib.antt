-- ===== src/Lib.antt =====
-- streammux: framing, peers and pseudo-terminal sessions over one byte stream.
--
-- The root package frames messages (frame.go, codec.go), runs a connection on a transport (conn.go) and
-- adds correlation of requests, per-stream dispatch and weighted scheduling on top (peer.go). The
-- package pty runs terminal processes, keeps their output and their attachments (pty/manager.go), and
-- carries them over a Peer (pty/bridge.go, pty/protocol.go).
--
-- Base has what the parts share: lists, bits, big-endian bytes, Go's int, association maps and results.
-- Errors has the error values of the root package; an error wrapped by %w is the error it wraps.
--
-- Frame: Header, Frame and Config, Config.withDefaults, Header.validate, Frame.Validate, newFrame.
--   Frame.Accepts describes what they accept.
-- Codec: encodeHeader, decodeHeader, Decoder.ReadFrame (read_frame), writeFull (write_full),
--   Encoder.WriteFrame (write_frame). A reader is the bytes it still has and the error behind them; a
--   writer is any function from what it has been offered to a count and an error. The loop of writeFull
--   runs on fuel, a round for each byte, and every round that goes on takes one.
-- Conn: conn.go. What its goroutines share is one state, with the bytes its transport has been given; a
--   function is what a goroutine does between two waits, and Conn.Writes has the write loop over the
--   requests in the order in which it takes them.
-- Peer: the Peer of peer.go. Peer.Limits has PeerConfig.withDefaults; Peer.Outbound the queues that send
--   fills and takeLocked empties; Peer.Schedule the rounds of schedule; Peer.Calls reservePending,
--   abandonPending, resolve and the second lock hold of Call; Peer.Inbound dispatch and runInbound,
--   whose loop with its handlers is in Worker, on more fuel than frames are queued: a round takes one;
--   Peer.State the whole Peer and fail; Peer.Steps the interleavings. Every function is one hold of the
--   Peer's mutex, and a step relation lets them follow one another in any order. A channel is a ticket or
--   a correlation ID, what is sent to it is a value. The attempts of reservePending are the source's
--   2^64 - 1.
-- Pty: Pty.Values has the sizes, exit statuses and events; Pty.SizeCodec EncodeSize and DecodeSize;
--   Pty.Config MessageTypes.validate and ManagerConfig.validate; Pty.Bridge NewBridge, RunOutput on the
--   reads as they come, and HandleInput; Pty.Attachment the queue of an Attachment, one hold of its lock
--   at a time; Pty.History the output history with both of its eviction loops, the second on as much fuel
--   as there are chunks, since each round drops one; Pty.Observer the queue of a Subscription and
--   emitLocked.
-- Pty.Manager: the Manager and its sessions, pty/manager.go. Opening has Open, Ending Kill, run and Close,
--   Removal Remove and the eviction of retained sessions, Attaching Attach and publish, Serving the rest.
--   A function is one hold of Manager.mu; what the caller does between two holds (start a process, wait
--   for attachments) is an argument of the second. Steps lets the holds follow one another, with the IDs
--   of the starts and of the sessions between the two holds of run beside the Manager. The eviction loop
--   runs on as much fuel as there are retained sessions: each round takes one off the list, since what
--   the list names is retained and not yet leaving. Registry and Core have what is always true; Starting,
--   Touching, Leaving, Eviction and Closing that each function keeps it so; Reachable puts them together.
--   Keeping and Given are about the IDs that Open gives, all of which Steps lists for them.
--   Sequences, Recording and Recorded follow the numbers of the output that the history keeps; Replay is
--   about what Attach replays of it, Retention about the sessions that run evicts.
-- Pty.Protocol: pty/protocol.go. Its own file has the checks of RegisterProtocol and the error codes,
--   Cursor encodeCursor and decodeCursor, Listing the pages of handleList, Sink the output sink and what
--   handleAttach sends, Handlers what each handler checks and answers, Streams handleAttach whole. JSON,
--   encoding/base64 and strconv are records of functions, with what is documented of them as laws.
-- Pty.Backend: what pty/unixpty/factory_unix.go and pty/windowspty/factory_windows.go check before they
--   start a process, and, in Unix and Windows, the states of their managedProcess; what the system
--   answers to a call is an argument.
--
-- Byte counts and sequence lengths are natural numbers; counters of type uint64 wrap at 2^64, a Go int
-- that may be negative is an integer. Maps are association lists: what Go visits in no set order is
-- visited in the list's, and the theorems hold for every list.
--
-- Not modelled: the queue of requests in conn.go, the Stats of a Peer and of observers, the frames in which
-- pty/protocol.go wraps its responses, Session.Input and pumpOutput, which read and write the process, and
-- in the backends the calls of the operating system that create a process and its terminal. Waiting is not
-- modelled as time: a round that waits says so.
pub mod Base
pub mod Codec
pub mod Conn
pub mod Errors
pub mod Frame
pub mod Peer
pub mod Pty
