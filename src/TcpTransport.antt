-- ===== src/TcpTransport.antt =====
-- Application/TcpTransport/TcpTransport.c: a server that saves what it receives in a file. The
-- TCP protocol, the shell and the boot services are parameters.
pub mod Pool
pub mod Receive
pub mod Save
pub mod StartUp
