-- ===== src/Agent.antt =====
-- app/agent: the events of the containers, their log streams, and the writers of the logs.
pub mod Notifier
pub mod Streamer
pub mod EventLoop
pub mod MultiWriter
pub mod Watched
pub mod Listening
pub mod Demo
pub mod Examples
use dkll.Base.{Bool, Bytes}
use dkll.Core.{Time}

-- `Event`; a container has started, or gone.
pub record Event : Type 0 where
  pub container_id : Bytes
  pub container_name : Bytes
  pub group : Bytes
  pub ts : Time
  pub status : Bool
