-- ===== src/Client.antt =====
-- provisioner/client.go: the set-up of the generated client. `api.NewClient` itself is the parameter
-- `dial`, which is given the address and the credentials.
use apprun_dedicated_provisi.Base.{String, ◌==◌, string_eq, if◌then◌else◌}
use apprun_dedicated_provisi.Result.{Reply}

abbrev default_base_url : String
default_base_url = "https://secure.sakura.ad.jp/cloud/api/apprun-dedicated/1.0"

pub record SecuritySource : Type 0 where
  pub username : String
  pub password : String

pub record ClientConfig : Type 0 where
  pub access_token : String
  pub access_token_secret : String
  pub base_url : String

-- NewClient
unfoldable pub new_client :
    (String → SecuritySource → Reply (Unit {0})) → ClientConfig → Reply (Unit {0})
new_client dial cfg =
    let base_url = if cfg.base_url == "" then default_base_url else cfg.base_url in
    dial base_url (record { username = cfg.access_token; password = cfg.access_token_secret })
