-- ===== src/Lib.antt =====
-- A model of cppNetworkObj, a C++ network library with a server and a client, and of the
-- theorems that make it correct.
--
-- The program. A server (depends/include/EasyTcpServer.hpp) accepts connections and gives each
-- to one of its workers (CELLServer.hpp). A worker waits for its sockets with select
-- (CELLSelectServer.hpp, CELLFDSet.hpp) or epoll (CELLEpollServer.hpp, CELLEpoll.hpp), closes
-- the clients that have been silent for too long, and moves bytes between the sockets and the
-- two buffers (CELLBuffer.hpp) of each client (CELLClient.hpp). A message (MessageHeader.hpp)
-- begins with its length and its command; while the receive buffer begins with a whole message,
-- the worker hands it to its owner (INetEvent.hpp) and removes it. The server application
-- (server/server.cpp) answers the messages; the fields of a message are read and written with
-- CELLStream.hpp and CELLMsgStream.hpp. On the client's side (EasyTcpClient.hpp) a call of OnRun
-- waits for one socket with select (EasySelectClient.hpp) or epoll (EasyEpollClient.hpp); the
-- client application (client/client.cpp) runs many such clients, which send logins and check the
-- answers. Threads (CELLThread.hpp) are closed over a semaphore, and the options of both
-- applications come from the command line (CELLConfig.hpp).
--
-- The files, with the sources under depends/include/ unless a path is given.
--   Base          numbers, lists, memory as a list of bytes, int and time_t, little-endian bytes
--   Message       MessageHeader.hpp: enum CMD, the structs, their bytes and the header's fields
--   Buffer        CELLBuffer.hpp: push, pop, write2socket, read4socket, hasMsg, needWrite
--   Client        CELLClient.hpp: RecvData, SendData, SendDataReal, checkHeart, checkSend, ...
--   Client.Drain  the loop that dispatches the messages of a client, in CELLServer::DoMsg
--   Stream        CELLStream.hpp: Read, ReadArray, ReadString, Write, WriteArray, ...
--   MsgStream     CELLMsgStream.hpp: CELLReadStream and CELLWriteStream
--   FdSet         CELLFDSet.hpp: add, del, zero, has, copy
--   Epoll         CELLEpoll.hpp: create, destory, ctl, wait
--   NetEvent      INetEvent.hpp: the owner of a worker as a record of functions
--   Server        CELLServer.hpp: one round of OnRun, CheckTime, DoMsg, addClient, ClearClients
--   Server.Select CELLSelectServer.hpp: DoNetEvents, ReadData, WriteData
--   Server.Epoll  CELLEpollServer.hpp: DoNetEvents, rmClient, OnClientJoin
--   TcpServer     EasyTcpServer.hpp: Accept, addClientToCELLServer, Start, Close, the counters
--   Server.Turn   a whole round of a worker, over the interfaces PollerLaws (kept by select and
--                 epoll, Server.Select.Waits and Server.Epoll.Waits) and OwnerLaws (kept by
--                 server/server.cpp, MyServer.Answers)
--   TcpServer.Lifetime  the workers of a server, their rounds and new clients in any order
--   TcpServer.Waiting  EasySelectServer.hpp, EasyEpollServer.hpp: a round of the accepting thread
--   MyServer      server/server.cpp: MyServer::OnNetMsg
--   TcpClient     EasyTcpClient.hpp: InitSocket, Connect, Close, RecvData, SendData
--   TcpClient.Select   EasySelectClient.hpp: OnRun
--   TcpClient.Epoll    EasyEpollClient.hpp: OnInitSocket, Close, OnRun, and InitSocket with them
--   MyClient      client/client.cpp: MyClient::OnNetMsg, SendTest, checkSend
--   MyClient.Setup     client/client.cpp: WorkThread before and after its loop
--   MyClient.Work      client/client.cpp: a round of the loop of WorkThread
--   Config        CELLConfig.hpp: Init, madeCmd, getStr, getInt, hasKey
--   Thread        CELLThread.hpp: Start, Close, Exit and OnWork, as steps in any order
--   Semaphore     CELLSemaphore.hpp: wait and wakeup, and their steps in any order
--   Task          CELLTask.hpp: addTask, the loop of OnRun and the one behind it, in any order of steps
--   OldServer     server/bak/TcpServer.h: ClientSocket::SendData, CellServer::RecvData
--   OldTcpServer  server/bak/TcpServer.cpp: InitSocket, Accept, Start, OnRun, Close, the counters
--   EchoServer    epoll/epoll-base-main.cpp: the loop over the events and its functions
--   OldClient     client/bak/TcpClient.cpp: InitSocket, Connect, Close, OnRun, RecvData, SendData
--   Heap          memory by addresses, and linked lists in it, for the two pools
--   MemoryMgr     server/bak/MemoryMgr.hpp: the pools of blocks behind operator new and delete
--   ObjectPool    server/bak/CELLObjectPool.hpp: a pool of objects of one type
--
-- How it is modelled. Objects are records and a method returns the new state; a block of memory
-- is a list of bytes, and the bytes that `new char[n]` leaves unset are an argument. The result
-- `none` is undefined behaviour: an access outside a block, a null owner, or an int counter of
-- bytes that would fall below zero. The Linux branches of the preprocessor are taken, on a
-- little-endian machine. The replies of the kernel (recv, send, select, epoll, the clock) are
-- arguments: SendReply, RecvReply, Round, ClientRound and EpollRound. Lengths that the code
-- converts to an int go through `to_int`, with the wrap at 2 ^ 32 written out; message and byte
-- counters stay below 2 ^ 31. memcpy of overlapping regions (CELLBuffer::pop) is taken to move
-- the bytes. The dispatch loop runs on fuel, one above the size of the buffer: each round but
-- the last removes a message of at least one byte. SendData of the old server runs on fuel above
-- the length of the message, of which each round but the last takes at least a byte.
--
-- What is not modelled: sleeping and the memory order of the threads (a call of `on_run_step` is
-- one round of a worker, and a part of the code under a lock is one step, as is each turn of the last
-- loop of CELLTask, which takes no lock), logging, the clock, socket options, the main() functions and the statistics of the client application, which only
-- call the system; the loop of the old workers, whose Linux branch does not compile; the oldest
-- versions and the programs under client/bak and server/bak, and the experiment under IOCP/, which
-- is for Windows.
pub mod Base
pub mod Message
pub mod Buffer
pub mod Client
pub mod Stream
pub mod MsgStream
pub mod FdSet
pub mod Epoll
pub mod NetEvent
pub mod Server
pub mod TcpServer
pub mod MyServer
pub mod Heap
pub mod MemoryMgr
pub mod ObjectPool
pub mod TcpClient
pub mod Config
pub mod MyClient
pub mod Semaphore
pub mod Thread
pub mod Task
pub mod OldServer
pub mod OldClient
pub mod OldTcpServer
pub mod EchoServer
mod Tests
