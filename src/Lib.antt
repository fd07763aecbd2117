-- ===== src/Lib.antt =====
-- A chat server on Windows I/O completion ports, modelled from the sources in ConsoleApplication2/.
--
-- The parts. IOCPServer accepts connections and reads from each socket into a ring of bytes
-- (CRingBuffer). Its receive loop cuts the bytes into frames, opens each (CPacket::SetDecodingCode)
-- and hands the payload to ChatServer::OnRecv. ChatServer keeps the players, the sectors that they are
-- in and the accounts; a request changes them and is answered with packets that are sealed
-- (CPacket::SetEncodingCode) and sent. Packets and players come from object pools (CLFFreeList).
--
-- The files.
--   Base         Boolean tests, lists over the native numbers, arrays of bytes, exclusive or, maps and
--                sets as lists, and `Outcome`, what a piece of C++ comes to.
--   RingBuffer   CRingBuffer.h and CRingBuffer.cpp. A ring is a record with the class's positions and
--                its cells; each method is a function of the same name. `Contents` reads the queue
--                of bytes that a ring holds, which is what Transfer, Receive and Resize speak of.
--   Packet       CPacket.h and CPacket.cpp. A packet is a record with the class's members and its
--                block of memory. Cipher has the two passes over the payload, Coding the header,
--                SetEncodingCode and SetDecodingCode.
--   IocpServer   IOCPServer.h and IOCPServer.cpp. Frames has the loop of RecvComplete; Sessions has the
--                session array with CreateSession, ReleaseSession, SessionLock, SessionUnLock and
--                Disconnect; Sending has PostSend, SendComplete and SendPacket; Worker has PostRecv,
--                RecvComplete and one round of WorkerThread and of AcceptThread; Lifetime has Start,
--                Stop and a round of MonitorThread.
--   FreeList     CLFFreeList.h, with a call of Alloc or Free as one step. Threads has the same two
--                functions as a step relation: each access to the shared memory is a step, and the
--                calls of many threads interleave.
--   ChatServer   ChatServer.h and ChatServer.cpp. `Server` has the members of the class. Sector has
--                IsValidSector, MakeAround and the locks; Lifecycle has AcquirePlayer, ReleasePlayer,
--                JoinProc and LeaveProc; Respond has the packets that are sent; Requests has RecvProc
--                with Req_Login_Redis, Req_SectorMove and Req_Chat, and CheckTimeOut; Login has
--                RedisThread and CompleteLogin, with the store of redis as an interface; the
--                destructor is in Lifecycle/Ending.
--   Service      The two together: ChatServer's OnClientJoin, OnClientLeave and OnRecv as IOCPServer
--                calls them, and the rounds of all threads as steps (Reachable).
--   CpuMonitor   GetBigNumberStr, GetExeBaseNameFromHandle, ResolvePdhProcessInstanceByPid and the
--                processor times of Update in CpuMonitor.cpp.
--   Profiler     ProfileBegin, ProfileEnd and GetSample of monitor.cpp.
--   Tests, below each part, has concrete inputs.
--
-- Numbers. Sizes and positions are natural numbers, where the source's ints do not get negative. A
-- byte is a number below 256; WORD, BYTE and LONG wrap where the source lets them. Undefined behaviour
-- that the model can reach is the outcome `overrun`: an access outside the memory of a packet, a read
-- through a null pointer, the top of an empty stack, and a text that does not fit into the buffer
-- of swprintf_s or wcscpy_s, which ends the program.
--
-- Fuel. Two loops run on fuel. That of CPacket::IncreaseBufferSize does not end if it is entered,
-- so it is `timed_out` for any fuel. The receive loop takes one round for each frame, and a round
-- takes at least the five bytes of a header out of the ring, so one round more than there are bytes
-- is enough, and so is the size of the ring. A number is printed with at most twenty digits, enough
-- for one of 64 bits.
--
-- Steps. A handler of ChatServer, a call of IOCPServer, and a call of the pool in FreeList, is one
-- step that nothing interrupts. The source holds locks for parts of a handler only; what other
-- threads do between them is not modelled. What a handler asks of the network layer happens when
-- the handler is done, and a session that ends in such a call leaves the chat server at once. In
-- FreeList/Threads a step is one access to the shared memory, all threads see the accesses in one
-- order, malloc succeeds, the counters are not bounded, the pool starts with no block and constructs
-- no objects, as the server's pools do, and callers free only blocks that they have.
--
-- The receive loop of RecvComplete is recv_rounds of Worker, with OnRecv in it; recv_loop of Frames is
-- its cutting of frames, for a handler that only notes the packets.
--
-- The ids that a server gives to its sessions have an index in the array, and
-- other ids do not come to it, so the array is a function and has no end.
--
-- What comes from outside is an argument: what rand() gives, the clock, what WSASend and WSARecv
-- come to, what htons and InetPton give, the arithmetic of doubles, the calls of Pdh, whether malloc
-- and the queue of login jobs have room, the packet that the pool hands out, and what uninitialised locals hold.
--
-- Not modelled: the sockets and the completion port, which the results of the overlapped calls
-- stand for; the thread handles of Start and Stop; what MonitorThread of
-- ChatServer.cpp prints; SaveProfile and ProfileInit; the performance counters of CpuMonitor;
-- CrashDumpClass. They are mostly calls of Windows.
pub mod Base
pub mod RingBuffer
pub mod Packet
pub mod IocpServer
pub mod FreeList
pub mod ChatServer
pub mod Service
pub mod CpuMonitor
pub mod Profiler
