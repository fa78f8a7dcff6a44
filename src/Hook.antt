-- ===== src/Hook.antt =====
-- What the hook of src/app/system keeps and decides, in portable files of their own.
pub mod Mailbox
pub mod Wakeups
pub mod Liveness
pub mod Hijack
pub mod Ghosts
pub mod Commit
pub mod Burst
