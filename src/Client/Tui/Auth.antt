-- ===== src/Client/Tui/Auth.antt =====
-- internal/client/tui/auth.go: the sign-in forms.
pub mod Model
pub mod Calls
pub mod Update
pub mod Forms
pub mod Keys
pub mod Refused
