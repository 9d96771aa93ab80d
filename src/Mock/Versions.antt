-- ===== src/Mock/Versions.antt =====
-- A version of testutil/mock_server.go, beside the request that it was made of.
use apprun_dedicated_provisi.Base.{ℤ, refl, arith, nat_eq}
use apprun_dedicated_provisi.Api.{CreateApplicationVersion}
use apprun_dedicated_provisi.Version.Env.{ShowsEnv}
use apprun_dedicated_provisi.Version.Converge.{IsMadeFrom}
use apprun_dedicated_provisi.Mock.{key_eq}
use apprun_dedicated_provisi.Mock.Applications.{shown_env, version_detail}

pub shown_env-ShowsEnv : ShowsEnv shown_env
shown_env-ShowsEnv = record { key = λ e. refl; secret = λ e. refl; text = λ e plain. ground arith }

pub version_detail-IsMadeFrom :
    (version seconds : ℤ) (req : CreateApplicationVersion)
    → IsMadeFrom shown_env req (version_detail version seconds req)
unfolding version_detail
version_detail-IsMadeFrom version seconds req = record {
  settings = record {
    cpu = refl;
    memory = refl;
    scaling_mode = refl;
    fixed_scale = refl;
    min_scale = refl;
    max_scale = refl;
    scale_in_threshold = refl;
    scale_out_threshold = refl;
    image = refl;
    cmd = refl;
    registry_username = refl;
    exposed_ports = refl;
  };
  env = refl;
}
