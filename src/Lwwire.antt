-- ===== src/Lwwire.antt =====
-- lwwire/lwwire.c, a server of disk sectors over a serial line: the line, the drives, the state of the
-- server, the handlers of the protocol, and the loop of `main`.
pub mod Channel
pub mod Drives
pub mod Server
pub mod Handlers
pub mod Serve
pub mod Tests
