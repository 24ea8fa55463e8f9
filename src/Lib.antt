-- ===== src/Lib.antt =====
-- rtsp_server: an RTSP server that streams H.264 and AAC from files, modelled and verified.
--
-- A client sends RTSP requests over TCP. The reactor (src/server/Reactor.cpp) has three threads: the
-- dispatcher accepts connections, reads and writes them and parses the requests; the logic thread
-- hands each request to the session of its descriptor; the pacer gives each session a tick, which a
-- pool of workers runs. A tick answers the requests that wait and sends the next frame when it is
-- due. A session (src/server/RTSPSession.cpp) has the state of the protocol, its media source, its
-- RTP transport and the queue of what is to be written.
--
-- The files, and the code that they model:
--   Prelude        names, numbers and texts that all share: bytes and machine words (Bits),
--                  std::string (Text), std::stoi and std::stoul (Numbers), lists (Lists), tests (Tests)
--   Utils          src/utils/StringUtils.cpp; include/rtspserver/utils: BlockingQueue.hpp,
--                  ThreadPool.hpp (BlockingQueue), UniqueFd.hpp (UniqueFd)
--   Rtp            src/rtp: RTPPacket (Packet), H264Packetizer (Packetizer), RTPSender (Sender)
--   Media          include/rtspserver/media: AnnexBParser.hpp (AnnexB), IMediaSource.hpp (Packets);
--                  src/media/MediaSource.cpp: parseExtradata (Extradata), open (Source/Opening), all
--                  other methods (Source, with Reading and Seeking); what they call of FFmpeg (Ffmpeg)
--   Rtsp           src/rtsp: RTSPRequest (Request), RTSPResponse (Response)
--   Doubles, Sdp   the operations on double; src/sdp/SDPBuilder.cpp
--   Session        src/server/RTSPSession.cpp: the fields (State), onWritable and the outbox (Outbox),
--                  onReadable (Receive), handleRequest and the handlers (Handlers, with Media for
--                  DESCRIBE, Setup, and Play), pacerTick (Pacer, with the packets of
--                  a frame and of audio in Sending), a session over MediaSource (FileSource)
--   Reactor        src/server/Reactor.cpp: the steps of the threads (Reactor), the slot of a tick
--                  (Ticks), the way of a request (Routes, Service), dispatcherLoop as a whole (Dispatching),
--                  run with its descriptors, its signal mask and its end (Startup), maps (Tables)
--   Program        src/main.cpp: the arguments, the checks and the exit status
--   Tests          the theorems at concrete inputs
--
-- A method is a function from the state to the state and what it returns; the names are the code's, in
-- snake case. An exception is a value, `threw`, with the state that it leaves. A number is a natural
-- number with its wrap-around written out: `u16`, `u32` and `size_add` for the machine's words, and the
-- integers of Prelude.Numbers for `int`. What the code calls outside itself is an argument: the
-- operating system's answers are lists and the records `Sockets` and `Env`, floating-point numbers are
-- the record `Doubles`, FFmpeg the record `Ffmpeg`. A session is over any media source, a type `M` with
-- the operations in `Env`; `file_env` is the one that the server uses.
--
-- Loops that are not structural have fuel. The packetizer has one unit for each byte, which is enough
-- from a limit of three bytes on; the scan for start codes has its own bound inside and always
-- returns; the loops of onReadable are given their fuel by the caller, and more units than there are
-- bytes are enough unless a length wraps around; the audio loop of a tick is given
-- its own, and more units than there are packets of audio due are enough; a call of readPacket takes
-- two more rounds at most than there are frames left in the file.
--
-- Each method of a session or a queue is one step, since it runs under a lock or on the one thread
-- that owns the data; what the dispatcher and a worker see of each other while one writes and one
-- queues is modelled again in finer steps (Session/Outbox/Wakeup). In the reactor a step is what one
-- thread does between two points at which others can see it. Not modelled: FFmpeg itself with its
-- reference counts, the logger, the options of sockets, and the calls that add the reactor's own
-- descriptors to epoll, whose results the code does not read.
mod Prelude
pub mod Utils
pub mod Rtp
pub mod Media
pub mod Rtsp
pub mod Doubles
pub mod Sdp
pub mod Session
pub mod Reactor
pub mod Program
pub mod Tests
