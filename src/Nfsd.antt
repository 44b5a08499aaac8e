-- ===== src/Nfsd.antt =====
-- The network file server, tek/daemons/nfsd.c.
pub mod Message
pub mod Modes
pub mod Validate
pub mod Mounts
pub mod Pool
pub mod Programs
pub mod Tftp
pub mod Runs
pub mod Credentials
pub mod Attributes
pub mod Sattr
pub mod Sattr3
pub mod FileRuns
