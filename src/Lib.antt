-- ===== src/Lib.antt =====
-- The servers of the Ancestral Property game (src/): a center server that knows the other servers,
-- gate servers that clients connect to, and logic servers that hold the rooms in which a game is
-- played frame by frame, and a database server for the accounts.
--
-- A client's bytes arrive at a server base (src/Source/ServerBase.cpp), which stores them in a ring
-- buffer (src/Tool/RingBuffer.cpp) and cuts them into packages of a 12-byte head and a protobuf
-- body (src/Tool/Message.cpp, src/Header/Message/MessageUtils.h). The gate server
-- (src/Source/GateServer.cpp) checks who a package is from and passes it to the logic server
-- (src/Source/LogicServer.cpp), which finds the user's room and calls it (src/Logic/Room.cpp).
-- Rooms answer through the logic server's SendToClient, which goes back through the gate. Logins
-- and registrations go from the gate to the database server (src/Source/DBServer.cpp). Every server
-- reports its count of connections to the center server (src/Source/CenterServer.cpp).
--
-- Which file models what, with the functions under the source's names in snake_case:
--   Enums, Config   src/Header/EnumHome.h; the settings of src/ini
--   Buffer          src/Tool/RingBuffer.cpp: RingBuffer is the record of its members
--   Wire            src/Tool/Message.cpp, MessageUtils.h, and HandleReceivedMsg and HandleConnEvent of
--                   src/Source/ServerBase.cpp (Wire/Receive)
--   Room            src/Logic/Room.h and Room.cpp: Room/State has the fields, Room/Game the methods
--                   that move a room in and out of a game, Room/Members the others, Room/History the
--                   calls of a room, one after another, and Room/Messages what it sends
--   Logic           src/Source/LogicServer.cpp: its rooms, and in Logic/Handlers its messages and
--                   Update; Logic/History has messages and frames in any order, Logic/Whereabouts the
--                   rooms of the users in them
--   Gate            src/Source/GateServer.cpp: its sockets; in Gate/Routing its messages, with
--                   HandleUserInfo of src/Source/FuncServer.cpp; in Gate/Heartbeat CheckAllClientConn
--   Relay           the way of a message from src/Logic/Room.cpp through src/Source/LogicServer.cpp to
--                   a client's socket in src/Source/GateServer.cpp
--   Center          src/Source/CenterServer.cpp: the register, and in Center/Handlers the messages
--   Database        src/Source/DBServer.cpp: its queries, and in Database/Handlers its messages
--   Encryption      src/Header/Tool/Encryption.hpp
--   Network         src/Source/ServerBase.cpp: sockets accepted, closed and sent to, and their count;
--                   in Network/Links the connections that src/Source/FuncServer.cpp opens, in
--                   Network/Servers that of src/Source/LogicServer.cpp to the database server, in
--                   Network/Boot the start of a server with its event loop (BootServer) and
--                   CloseServer, in Network/Address src/Tool/WIP.cpp
--   Pool            src/Tool/ObjectPool.cpp and src/Tool/FrameMgr.cpp; in Pool/Events
--                   src/Tool/Event.cpp
--   Timer           src/Tool/Timer.cpp
--   SafeQueue       src/Tool/ThreadSafetyQueue.cpp
--
-- How the code is modelled. A std::map or std::set is a list in the order of its keys, and a read
-- m[k] of a missing key leaves the default behind where the source does. Each method is a function
-- of the state; what it sends is appended to the field `outbox`. A 32-bit int is its pattern, and
-- uint32_t sums wrap at 2 ^ 32. Ids, roles and counts of rooms are natural numbers. `none` stands
-- for undefined behaviour in Logic, and the field `undefined` of a gate says whether a null or
-- freed pointer was used; a room's message without its list of users is one whose list was written
-- to beyond its end. The number of a frame has no bound here; the source's int overflows after 2 ^
-- 31 - 1 frames of one game. What the source draws at random or leaves unset is an argument.
--
-- Threads. A method of the thread-safe queue holds its mutex throughout, so it is one step, and a
-- run is any sequence of steps of any threads.
--
-- Fuel. EndGame and LeaveFromGame call one another: end_game_fuel is on the depth of that
-- recursion, and end_game uses 2: the inner EndGame finds the game stopped (Room/Termination). The
-- receiving loop is on the number of rounds, and handle_received_msg uses more than there are
-- bytes, which is enough as each round but the last takes a head (Wire/Framing). CloseClientSocket
-- and SendMsg call one another over a failed report to the center server, and close_client_socket
-- uses the depth 2: the second close has no connection to report to (Network/Closing, and
-- Network/Reconnecting for the logic server). The loop of CheckAllClientConn is on the number of
-- rounds, and check_all_client_conn uses two more than there are clients (Gate/Rounds).
-- SendSelfInfoToCenter calls itself after each connection that it makes, and is a recursion over
-- what connecting gives each time.
--
-- Parameters. Protobuf is the record Wire.Body.Protobuf: what is serialized is parsed back by its
-- own class. MySQL, with its escaping of a text, and Redis are the records Database.Mysql and
-- Database.Redis, and what is relied on of them is in Database/Assumptions: a SELECT gives the rows
-- of the table or fails, an INSERT adds its row or fails, HGET does not reply with an integer. In
-- Relay what protobuf makes of a body is an argument. In Logic, Gate and Center sockets take what
-- is sent to them; in Network an argument says whether they do.
--
-- Heap. Two files follow pointers: Gate/Heartbeat those to ClientInfo, and Pool those from a
-- message to its head and body. A message is the number of its allocation and is not used again
-- after it is deleted. The event loop of Network/Boot is a recursion over the rounds that
-- epoll_wait gives, and works on any state with the handlers that it calls.
--
-- Not modelled: the system calls of sockets and epoll, whose results are arguments, and the main
-- functions; SendMsg with MULTI_THREAD, which nothing defines; the helpers for SQL and JSON, and
-- the reading of the settings; a callback of src/Tool/Event.cpp that registers or removes events
-- while it is called; the copy of jsoncpp and the generated protobuf code.
pub mod Prelude
pub mod Enums
pub mod Config
pub mod Buffer
pub mod Wire
pub mod Room
pub mod Center
pub mod Logic
pub mod Gate
pub mod Relay
pub mod Encryption
pub mod Database
pub mod Timer
pub mod SafeQueue
pub mod Network
pub mod Pool
