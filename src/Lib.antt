-- ===== src/Lib.antt =====
-- Verification of the library's networking code, its media player and its serial-port window.
--
-- The networking code: `projects/Server` and `projects/Client` talk over TCP in packets, a header of
-- five 32-bit words and a body. `server::transmitMessage` and `client::send_to` cut a message into
-- packets, `Session` puts the bytes it reads back together and posts a job for each message.
--   Wire            the header S2C_agreement of projects/Server/src/Session/Session.h, its byte
--                   order (handle_htonl, handle_ntohl) and its place in memory
--   Transmit        transmitMessage (projects/Server/src/server/server.cpp) and send_to
--                   (projects/Client/src/client/client.cpp)
--   Session         do_read, process_data, trimAndGetHeader, merge_fragments and the posted job of
--                   projects/Server/src/Session/Session.cpp; `receive_all` is a run of do_read over
--                   the pieces that the socket hands out; Session.Sending has send and do_write, by
--                   interleaved steps of the threads, Session.Deliveries what the posted jobs do
--                   with the json text, and disconnect
--   Json            the json library that these programs use, as a record of operations with laws
--   Actions         handlers as functions of a state that return, throw or crash
--   Server          projects/Server/src/server/server.cpp: users, sessions, and the database, which
--                   is a record of operations; `id_increment` numbers sessions and messages
--   Server.Dispatcher   handle_data of projects/Server/src/Dispatcher/ServerDispatcher.cpp, by action
--   SqlConnectionPool   projects/Server/src/utility/SqlConnectionPool; a connection is a number
--   Client          projects/Client/src/client/client.cpp, with what is packed by
--                   projects/Client/src/utility/JsonInterpreter; callbacks are events
--   Client.Dispatcher   handle_data of projects/Client/src/Dispatcher/ClientDispatcher.cpp
-- Client and Server are models of one thread: a handler runs to its end before the next. Following a
-- null pointer is the result `crashed`. `Session::info` is taken to hold a value, as the code does.
--
-- The media player, `projects/龙卷风播放器/src`: `DecoderWorker` reads a file and hands frames to the
-- threads that draw and play, over pools and rings.
--   Player.MemoryPool   the class MemoryPool of utils/MemoryPool/MemoryPool.h; an address is a
--                       number, `World` adds the live objects to the pool
--   Player.SharedPool   the class MemoryPool_shared of the same file; what lies in new memory is a
--                       parameter
--   Player.RingBuffer   the template RingBuffer of utils/RingBuffer/RingBuffer.h; a call that has to
--                       wait answers `blocked`; Player.RingBuffer.Refines has the queue it is
--   Player.ByteRing     RingBuffer_size_t of utils/RingBuffer/RingBuffer.cpp
--   Player.Decoder      the state machine of ffmpeg/DecoderWorker.cpp; a `Tick` is what one turn of
--                       the loop reads from outside
--   Player.AudioThread  audio_call_back and add_audio_frame of AudioThread/AudioThread.cpp;
--                       Player.AudioThread.Playing has its loop, by turns
--   Player.RenderThread the loop of RenderThread/RenderThread.cpp by turns; a `Tick` is what one
--                       turn reads, and times are milliseconds taken as exact
--   Player.PauseElapsedTimer   the timer of utils/PauseElapsedTimer, each call given its time
--   Player.Window       app/MainWindow.cpp, the window: thread objects are numbers, the decoder's
--                       thread is what it sets and what it is sent
--
-- Two utilities, `utility`: ThreadPool is the pool of utility/ThreadPool by interleaved steps, Logger
-- is utility/Logger over files that are a function of their name.
--
-- The socket library, `socket/Socket`: an epoll server and its clients.
--   Socket.Packets      the packets from server to client: queueSend_new of Server_Socket.cpp, and
--                       receive, handle_packet and merge_packets of Client_Socket.cpp
--   Socket.Server       the tables of Server_Socket.cpp and handle_epoll_event, whose turns read a
--                       descriptor, a json header and a body; JSON is the record `Json`, the state
--                       of a connection that is written to is a `Peer`
--   Socket.Client       login, handle_data and the connection of Client_Socket.cpp, with Login of
--                       utility/JsonUtility
--
-- The window for a serial port, `projects/SerialPort`; Qt's texts are the record `Qt`.
--   SerialPort.Hex      toHex and toAscii of src/utils.cpp, and the hex view of widget.cpp
--   SerialPort.Rows     the prepared texts, saved, loaded and reset
--   SerialPort.Sending  what is sent and received; SerialPort.Periodic has the timed rounds
--   SerialPort.Switch   opening and closing the port, and what is enabled when
--
-- Integers: a 32-bit word is a natural number reduced modulo 2 ^ 32 where the code reduces it.
-- Fuel: `drain` has one unit for each byte of the buffer and one more, since a round takes off at
-- least a header, and the client's `drain` one for each byte, which is enough for the same reason;
-- `handle_turns` has two units for each byte and three more, which Socket.Server.Ends is about; the
-- loop of queueSend_new has one for each byte of the message, and each packet takes one at least.
-- The callback of the player has one for each byte of the stream and each buffer in the ring.
-- The loops of transmitMessage and send_to run as often as their count of fragments says, and those
-- of the decoder over the list of their ticks.
--
-- Not modelled: JSON, MySQL, FFmpeg, Qt, SDL and Boost.Asio, which are outside the repository; the
-- times of waiting; the windows of projects/Client and projects/Server; the console; load_user_table
-- of the server and the query of its constructor; waiting on epoll; the threads of tcp_service.
pub mod Base
pub mod Wire
pub mod Session
pub mod Transmit
pub mod Player
pub mod Socket
pub mod Json
pub mod Actions
pub mod Server
pub mod Client
pub mod ThreadPool
pub mod Logger
pub mod SqlConnectionPool
pub mod SerialPort
pub mod Tests
