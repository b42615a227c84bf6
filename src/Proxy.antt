-- ===== src/Proxy.antt =====
-- nhop/src/proxy/: the front ends and the values that they share.
pub mod Upstreams
pub mod Failure
pub mod Forwards
pub mod Guard
pub mod Events
pub mod Routed
pub mod Forward
pub mod Socks5
pub mod Http
