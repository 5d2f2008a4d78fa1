-- ===== src/Daemon.antt =====
-- internal/daemon: nsboxd, which puts the container together and runs it.
pub mod Mkdir
pub mod Private
pub mod Direct
pub mod Transient
