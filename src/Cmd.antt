-- ===== src/Cmd.antt =====
-- app/cmd: how the parts are put together from the options of the command line.
pub mod Agent
pub mod Server
pub mod Client
pub mod Examples
