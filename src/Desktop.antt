-- ===== src/Desktop.antt =====
-- internal/integration/xdgdesktop.go: the desktop files of a container, exported to the host.
pub mod Entry
pub mod Gather
pub mod ExportIcons
pub mod Update
pub mod Placed
pub mod Frame
pub mod IconFrame
pub mod Parts
pub mod Built
pub mod Names
pub mod Turned
pub mod Switched
pub mod Exchanged
pub mod Stuck
pub mod Lines
pub mod Held
