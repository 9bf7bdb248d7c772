-- ===== src/Reactor.antt =====
-- The reactor library: buffers, connections, event loop, servers and clients.
pub mod Memory
pub mod Text
pub mod ConfigFile
pub mod IoBuf
pub mod BufPool
pub mod ReactorBuf
pub mod EventLoop
pub mod Message
pub mod Callback
pub mod ConnTable
pub mod TcpConn
pub mod TcpClient
pub mod Udp
pub mod ThreadQueue
pub mod ThreadPool
pub mod TcpServer
mod ConfigTests
mod ClientTests
mod ServerTests
mod Tests
mod EndpointTests
mod LifeTests
