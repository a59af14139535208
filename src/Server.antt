-- ===== src/Server.antt =====
-- app/server: the syslog server and what it feeds.
pub mod Forwarder
pub mod FileLogger
pub mod Syslog
pub mod Mongo
pub mod Rest
pub mod Examples
