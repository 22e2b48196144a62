-- ===== src/Client/Config.antt =====
-- internal/client/config/config.go: the settings that the client keeps.
use go_yandex_gophkeeper.Base.{String}

-- `Config`
pub record Config : Type 0 where
  pub server_addr : String
  pub tls_cert_path : String
  pub access_token : String
  pub refresh_token : String
  pub vault_path : String
  pub keyfile_path : String
  pub username : String
