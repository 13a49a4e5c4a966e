-- ===== src/Reactor.antt =====
-- The network library under reactor/: buffers, frames, the message router and the event loop.
pub mod IoBuf
pub mod BufPool
pub mod Message
pub mod ReactorBuf
pub mod TcpConn
pub mod TcpClient
pub mod EventLoop
pub mod TcpServer
pub mod ThreadPool
pub mod Serving
pub mod Udp
pub mod ConfigFile
