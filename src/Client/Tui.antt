-- ===== src/Client/Tui.antt =====
-- The terminal interface (internal/client/tui).
pub mod Panic
pub mod Text
pub mod Auth
pub mod Items
pub mod Sorting
pub mod Model
pub mod Sidebar
pub mod PassGen
pub mod Payloads
pub mod Json
pub mod Requests
pub mod ItemForms
pub mod App
pub mod Load
