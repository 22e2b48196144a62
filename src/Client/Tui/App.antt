-- ===== src/Client/Tui/App.antt =====
-- internal/client/tui/app.go: `Model.Update` and the keys of each mode.
pub mod Cmd
pub mod ListKeys
pub mod Keys
pub mod Update
pub mod Offline
