-- ===== src/Lib.antt =====
-- Verification of SimpleServer, the game server of this repository: a network core on Windows I/O
-- completion ports (ServerCore) and a game room with tile physics (SimpleServer).
--
-- A worker thread takes a completion from the port and calls the session it belongs to. The session
-- cuts its bytes into packets and hands them to the packet handler, which buffers a player's input or
-- posts a task to the room. The room's thread runs the tasks, moves the players twenty times a
-- second, and sends messages through the sessions, which queue them and have one in flight.
--
-- Prelude: lists, Boolean tests and integers over the native numbers.
-- Opcodes, Packet: ServerCore/Opcodes.h, Packet.h, Packet.cpp and ProtoUtil.cpp. Bytes are numbers,
--   a header is four of them with the low byte first; 16-bit casts are `% 2 ^ 16`, written `u16`. A
--   `memcpy` out of bounds is `none`. `SerializeToString` is an argument.
-- SendBuffer: ServerCore/SendBuffer.h.
-- Session: ServerCore/Session.h, Session.cpp and a round of `NetService::WorkerLoop`
--   (ServerCore/NetService.cpp). A method is a function of the outside world and the session; `Env`
--   names the calls of WinSock, of the packet handler and of the service's callbacks. The receive
--   loop runs on fuel one above the number of bytes, since a round takes at least four bytes.
--   `Session.Reach` has the interleavings, as steps.
--   `Session.Ends` has the rounds that end a closed session. `Session.Wire` goes from the messages of
--   a sender to the packets of the handler at the other end, over any cut of the bytes.
--   `Session.Threads` has the same methods as lists of actions that any number of threads interleave:
--   the tests and changes of `_closing` and `_refCount`, the calls, and the parts under `_sendLock`.
--   It leaves the bytes of the receive stream to the other model, and `Session.Threads.Methods`
--   relates `Close`, `PostRecv`, `EnqueueSend` and the two sides of a completed send with it. A thread
--   may run on after the object has been deleted, as in the code, where `Start` and the callers of
--   `EnqueueSend` hold no reference; the fields then stay readable, which C++ does not promise.
--   `IsTimely` says of a run that no thread from outside has done so, and stands as a hypothesis where
--   it is needed.
-- IoContext: ServerCore/IoContext.h, the buffers that WinSock is given.
-- Keys: a list of keys as a set.
-- Service: ServerCore/NetService.h and NetService.cpp, for a server and for a client: the set of
--   sessions, starting, connecting, accepting, broadcasting, stopping, and a round of the worker loop.
--   Sessions are numbers, and `objects` is the heap of sessions. `Service.Reach` has the reachable
--   states: each operation runs to its end before another starts, in any order.
-- Player, Map: SimpleServer/Player.h, Player.cpp, Map.h and Map.cpp. The JSON library and the file
--   are an interface, `JsonOps`.
-- Float: the operations on `float` that the game uses, as an interface; no law is built in.
-- Physics: the collision tests, `GetLadderExtent`, `HandleLadderState` and `SimulatePlayer` of
--   SimpleServer/GameRoom.cpp. The two loops over ladder tiles have the size of the ladder set as
--   fuel, since every round passes another tile of it.
-- World, Room: what the room, the callbacks of SimpleServer/ServerMain.cpp and the players share;
--   the rest of GameRoom.cpp, with the tasks as data; `Room.game_round` is a round of its loop, and
--   `Room.Loop` the loop against the clock.
-- Game: the room with the handler and the callbacks, in every state that it can reach; and, in
--   `Game.Served`, the whole server. There the world of the service is a `Site`: the game, and the
--   state of the system, which the system's calls may change. `Game.Main` is `main` on its own thread,
--   with the number of rounds of the accept loop as fuel: `accepting` says that it has not got out of
--   the loop in so many.
-- Handler: SimpleServer/ServerPacketHandler.cpp; protobuf's parsers are an interface, `Parsers`.
--   `Handler.Server.server_callbacks` are this handler and the callbacks of `main`, for a service.
-- Logs: `TeeBuf` and the log files of SimpleServer/ServerMain.cpp.
-- Client: DummyClient/ClientPacketHandler.cpp and `RunDummyBot` of DummyClient/DummyClientMain.cpp.
-- Tests: concrete runs.
--
-- Not modelled: what is printed, the ten threads of the `main` of DummyClient, threads that interleave
-- inside a method of the service or of the room, weak memory orders, and the generated messages
-- (ServerCore/game.pb.h, game.pb.cc).
pub mod Client
pub mod Float
pub mod Game
pub mod Handler
pub mod IoContext
pub mod Keys
pub mod Logs
pub mod Map
pub mod Opcodes
pub mod Packet
pub mod Physics
pub mod Player
pub mod Prelude
pub mod Room
pub mod SendBuffer
pub mod Service
pub mod Session
pub mod Tests
pub mod World
