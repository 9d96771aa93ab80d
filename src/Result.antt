-- ===== src/Result.antt =====
-- Errors as values. An error of the service's client is one of three kinds, of which the program
-- tells two apart by `errors.As`; the other constructors are the program's own messages, each with
-- what it prints. `%w` keeps the wrapped error.
use apprun_dedicated_provisi.Base.{
  ℕ, String, Bool, true, false, Option, none, some, ◌!=◌, string_eq, if◌then◌else◌,
}
use apprun_dedicated_provisi.Config.Validate.{ConfigError}

pub data Error : Type 0 where
  -- from the client: ogenerrors.SecurityError, ogenerrors.DecodeBodyError with its body, any other
  security_error : String → Error
  decode_body_error : String → String → Error
  client_error : String → Error
  -- fmt.Errorf with %w
  wrapped : String → Error → Error
  wrapped_body : String → Error → String → Error
  -- fmt.Errorf
  cluster_not_found application_not_found no_active_version no_versions : String → Error
  lb_missing_id asg_missing_id asg_config_not_found lb_config_not_found : String → Error
  lb_asg_not_found : String → String → Error
  lb_timeout asg_timeout : String → ℕ → Error
  -- the command line and the configuration file
  config_required credentials_required : Error
  invalid_config : ConfigError → Error
  -- `existing.ApplicationID` of a nil pointer panics
  nil_application : Error

-- What a call of a library or of the service returns.
pub data Reply {ℓ} (A : Type ℓ) : Type ℓ where
  value : A → Reply A
  failure : Error → Reply A

-- errors.As for *ogenerrors.SecurityError
unfoldable pub is_security_error : Error → Bool
is_security_error (security_error text) = true
is_security_error (wrapped text e) = is_security_error e
is_security_error (wrapped_body text e body) = is_security_error e
is_security_error _ = false

-- errors.As for *ogenerrors.DecodeBodyError: the body
unfoldable pub decode_body : Error → Option String
decode_body (decode_body_error text body) = some body
decode_body (wrapped text e) = decode_body e
decode_body (wrapped_body text e body) = decode_body e
decode_body _ = none

-- wrapAPIError, on an error that is not nil
unfoldable pub wrap_api_error : String → Error → Error
unfolding decode_body
wrap_api_error text e = elim (decode_body e) [
  | none ↦ wrapped text e
  | some body ↦ if body != "" then wrapped_body text e body else wrapped text e
]
