-- ===== src/Userdata.antt =====
-- internal/userdata: the calling user, the environment that is passed on, the rights under sudo.
pub mod Environ
pub mod Username
pub mod Sudo
pub mod Account
