-- ===== src/Auth.antt =====
-- The control-plane credential, packages/control-plane-auth/src/lib.rs.
--
-- The url crate, serde_json, the data protection of the operating system, the file system and the
-- HTTP request are parameters: `Urls` and `Machine`. The file is written as on Unix, with its
-- permissions.
pub mod Laws
pub mod Roots
pub mod Store
pub mod Tests
use Prim.Native.Char.{Char, code}
use mundusx.Prelude.{
  String, Option, none, some, Bool, true, false, not, ◌&&◌, ◌||◌, Result, ok, err, is_empty,
  is_some, trim, push_str, str_eq, starts_with, all_chars, leb, ◌==◌, if◌then◌else◌,
  trim_end_matches,
}
use mundusx.Agent.Effect.{M, pure, throw, bound, ◌>>=◌}

pub data TokenHeader : Type 0 where
  bearer : TokenHeader
  coder_session_token : TokenHeader

pub record Credential : Type 0 where
  pub base_url : String
  pub header : TokenHeader
  pub token : String

pub data IoError : Type 0 where
  not_found : IoError
  invalid_data : (message : String) → IoError
  other : (message : String) → IoError

-- What the code uses of the url crate.
pub record Urls (Url : Type 0) : Type 0 where
  pub parse : String → Option Url
  pub to_string : Url → String
  pub scheme : Url → String
  pub host_str : Url → Option String
  pub username : Url → String
  pub password : Url → Option String
  pub query : Url → Option String
  pub fragment : Url → Option String
  pub path : Url → String
  pub same_origin : Url → Url → Bool

-- The encodings, and the file system `W` with the credential's file.
pub record Machine (W Bytes : Type 0) : Type 0 where
  pub credential_path : String
  pub encode : Credential → Option Bytes
  pub decode : Bytes → Option Credential
  pub protect : Bytes → Result IoError Bytes
  pub unprotect : Bytes → Result IoError Bytes
  pub read : W → Result IoError Bytes
  pub create_dir_all : M W IoError (Unit {0})
  pub open_file : M W IoError (Unit {0})
  pub set_permissions : M W IoError (Unit {0})
  pub write_all : Bytes → M W IoError (Unit {0})
  pub remove_file : M W IoError (Unit {0})

abbrev pub from_option : {A : Type 0} → IoError → Option A → Result IoError A
from_option e none = err e
from_option e (some a) = ok a

-- `?` on a result that needs no world.
abbrev pub lift : {W A : Type 0} → Result IoError A → M W IoError A
lift (ok a) w = (ok a, w)
lift (err e) w = (err e, w)

-- The bytes of a token are in the range exactly when its characters are.
abbrev pub is_token_byte : Char → Bool
is_token_byte c = leb 33 (code c) && leb (code c) 126

abbrev pub bad_token : String → Bool
bad_token token = is_empty token || not (all_chars is_token_byte token)

module _ {Url : Type 0} (urls : Urls Url) where
  abbrev is_http : String → Bool
  is_http scheme = str_eq scheme "http" || str_eq scheme "https"

  abbrev pub bad_base : Url → Bool
  bad_base url =
      not (is_http (urls.scheme url))
      || not (is_some (urls.host_str url))
      || not (is_empty (urls.username url))
      || is_some (urls.password url)
      || is_some (urls.query url)
      || is_some (urls.fragment url)

  abbrev base_of : Option Url → Result IoError Url
  base_of none = err (invalid_data "invalid control-plane URL")
  base_of (some url) =
      if bad_base url
      then err (
          invalid_data
            "control-plane URL must be an HTTP(S) base URL without credentials, query, or fragment")
      else ok url

  unfoldable pub parse_base : String → Result IoError Url
  parse_base value = base_of (urls.parse (trim value))

  -- The path of the base without its last slashes.
  unfoldable pub stem : Url → String
  stem base = trim_end_matches (λ c. code c == 47) (urls.path base)

  abbrev within : Result IoError Url → Option Url → Bool
  within (err e) target = false
  within (ok base) none = false
  within (ok base) (some target) =
      urls.same_origin base target
      && is_empty (urls.username target)
      && not (is_some (urls.password target))
      && (str_eq (urls.path target) (stem base)
          || starts_with (urls.path target) (push_str (stem base) "/"))

  unfoldable pub matches : Credential → String → Bool
  matches credential target = within (parse_base credential.base_url) (urls.parse target)

  module _ {Request : Type 0} (url_of : Request → String)
      (set : Request → String → String → Request) where
    abbrev authorized : Credential → TokenHeader → Request → Request
    authorized credential bearer request =
        set request "Authorization" (push_str "Bearer " credential.token)
    authorized credential coder_session_token request =
        set request "Coder-Session-Token" credential.token

    -- `Credential::apply`
    unfoldable pub apply_credential : Credential → Request → Request
    apply_credential credential request =
        if not (matches credential (url_of request))
        then request
        else authorized credential credential.header request

  module _ {W Bytes : Type 0} (machine : Machine W Bytes) where
    abbrev pub write_credential : Credential → M W IoError String
    write_credential credential =
        lift (from_option (invalid_data "could not encode credential") (machine.encode credential))
        >>= λ plain. lift (machine.protect plain) >>= λ bytes. machine.create_dir_all >>= λ made.
            machine.open_file >>= λ opened. machine.set_permissions >>= λ private.
            machine.write_all bytes >>= λ written. pure machine.credential_path

    abbrev store_base : String → TokenHeader → Url → M W IoError String
    store_base token header base =
        if bad_token token
        then throw (invalid_data "token must contain only non-space printable ASCII characters")
        else write_credential
            (record { base_url = urls.to_string base; header = header; token = token })

    unfoldable pub store_in : String → String → TokenHeader → M W IoError String
    store_in base_url token header = lift (parse_base base_url) >>= store_base (trim token) header

    abbrev checked_token : Credential → Result IoError Url → Result IoError (Option Credential)
    checked_token credential (err e) = err e
    checked_token credential (ok base) =
        if bad_token credential.token
        then err (invalid_data "invalid saved control-plane token; log in again")
        else ok (some credential)

    abbrev checked : Option Credential → Result IoError (Option Credential)
    checked none = err (invalid_data "invalid saved control-plane credential; log in again")
    checked (some credential) = checked_token credential (parse_base credential.base_url)

    abbrev unprotected : Result IoError Bytes → Result IoError (Option Credential)
    unprotected (err e) = err e
    unprotected (ok bytes) = checked (machine.decode bytes)

    abbrev loaded : Result IoError Bytes → Result IoError (Option Credential)
    loaded (err not_found) = ok none
    loaded (err (invalid_data message)) = err (invalid_data message)
    loaded (err (other message)) = err (other message)
    loaded (ok bytes) = unprotected (machine.unprotect bytes)

    unfoldable pub load_from : W → Result IoError (Option Credential)
    load_from w = loaded (machine.read w)

    abbrev present : String → Result IoError (Option Credential) → Bool
    present base_url (err e) = false
    present base_url (ok none) = false
    present base_url (ok (some credential)) = matches credential base_url

    unfoldable pub present_for : String → W → Bool
    present_for base_url w = present base_url (load_from w)

    abbrev applied :
        {Request : Type 0}
        → (Request → String)
        → (Request → String → String → Request)
        → Request
        → Result IoError (Option Credential)
        → Result String Request
    applied url_of set request (err e) =
        err "could not read control-plane credential; run opengpu login again"
    applied url_of set request (ok none) = ok request
    applied url_of set request (ok (some credential)) =
        ok (apply_credential url_of set credential request)

    unfoldable pub apply :
        {Request : Type 0}
        → (Request → String)
        → (Request → String → String → Request)
        → Request
        → W
        → Result String Request
    apply url_of set request w = applied url_of set request (load_from w)

    abbrev cleared : Result IoError (Unit {0}) × W → Result IoError (Unit {0}) × W
    cleared (ok u, w) = (ok u, w)
    cleared (err not_found, w) = (ok tt, w)
    cleared (err (invalid_data message), w) = (err (invalid_data message), w)
    cleared (err (other message), w) = (err (other message), w)

    unfoldable pub clear : M W IoError (Unit {0})
    clear w = cleared (machine.remove_file w)
