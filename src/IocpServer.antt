-- ===== src/IocpServer.antt =====
-- The network layer, ConsoleApplication2/IOCPServer.h and IOCPServer.cpp.
pub mod Frames
pub mod Sessions
pub mod Sending
pub mod Worker
pub mod Lifetime
pub mod Sample
