-- ===== src/Auth/Tests.antt =====
-- Evaluations of packages/control-plane-auth/src/lib.rs and the theorems at concrete inputs.
use mundusx.Prelude.{
  ◌≡◌, ◌↔◌, refl, sym, String, Option, none, some, Bool, true, false, Result, ok, err, str_eq,
  if◌then◌else◌, trim, trim_start_matches, trim_end_matches, all_chars,
}
use mundusx.Agent.Effect.{bound}
use mundusx.Auth.{
  Urls, Machine, Credential, bearer, IoError, not_found, matches, store_in, load_from, parse_base,
  stem,
}
use mundusx.Auth.Laws.{InScope, matches-InScope_iff}
use mundusx.Auth.Store.{Documented, store_in-load_from}

data Site : Type 0 where
  hub : Site
  hub_api : Site
  hub_jobs : Site
  hub_apix : Site
  elsewhere : Site

abbrev text_of : Site → String
text_of hub = "https://control.mundusx.ai/"
text_of hub_api = "https://control.mundusx.ai/api/"
text_of hub_jobs = "https://control.mundusx.ai/api/jobs"
text_of hub_apix = "https://control.mundusx.ai/apix"
text_of elsewhere = "https://example.invalid/api/jobs"

abbrev path_of : Site → String
path_of hub = "/"
path_of hub_api = "/api/"
path_of hub_jobs = "/api/jobs"
path_of hub_apix = "/apix"
path_of elsewhere = "/api/jobs"

abbrev is_elsewhere : Site → Bool
is_elsewhere elsewhere = true
is_elsewhere hub = false
is_elsewhere hub_api = false
is_elsewhere hub_jobs = false
is_elsewhere hub_apix = false

abbrev same : Bool → Bool → Bool
same true b = b
same false true = false
same false false = true

abbrev parse_site : String → Option Site
parse_site s =
    if str_eq s "https://control.mundusx.ai/"
    then some hub
    else if str_eq s "https://control.mundusx.ai/api/"
    then some hub_api
    else if str_eq s "https://control.mundusx.ai/api/jobs"
    then some hub_jobs
    else if str_eq s "https://control.mundusx.ai/apix"
    then some hub_apix
    else if str_eq s "https://example.invalid/api/jobs"
    then some elsewhere
    else none

abbrev sites : Urls Site
sites = record {
  parse = parse_site;
  to_string = text_of;
  scheme = λ s. "https";
  host_str = λ s. some "control.mundusx.ai";
  username = λ s. "";
  password = λ s. none;
  query = λ s. none;
  fragment = λ s. none;
  path = path_of;
  same_origin = λ a b. same (is_elsewhere a) (is_elsewhere b);
}

abbrev File : Type 0
File = Result IoError Credential

abbrev disk : Machine File Credential
disk = record {
  credential_path = "/home/user/.opengpu/control-plane-auth.json";
  encode = λ c. some c;
  decode = λ b. some b;
  protect = λ b. ok b;
  unprotect = λ b. ok b;
  read = λ w. w;
  create_dir_all = λ w. (ok tt, w);
  open_file = λ w. (ok tt, w);
  set_permissions = λ w. (ok tt, w);
  write_all = λ b w. (ok tt, ok b);
  remove_file = λ w. (ok tt, err not_found);
}

parse_text_of : (s : Site) → parse_site (trim (text_of s)) ≡ some s
unfolding trim trim_start_matches trim_end_matches
parse_text_of hub = refl
parse_text_of hub_api = refl
parse_text_of hub_jobs = refl
parse_text_of hub_apix = refl
parse_text_of elsewhere = refl

written :
    (b : Credential) (w w1 w2 w3 : File)
    → disk.open_file w ≡ (ok tt, w1)
    → disk.set_permissions w1 ≡ (ok tt, w2)
    → disk.write_all b w2 ≡ (ok tt, w3)
    → disk.read w3 ≡ ok b
written b w w1 w2 w3 h1 h2 h3 = cc

abbrev documented : Documented sites disk
documented = record {
  parse_text = parse_text_of;
  decode_encoded = λ c b h. sym h;
  unprotect_protected = λ b p h. sym h;
  read_written = written;
}

abbrev saved : Credential
saved = record { base_url = "https://control.mundusx.ai/api/"; header = bearer; token = "secret" }

stores_a_trimmed_token :
    store_in sites disk "https://control.mundusx.ai/api/" " secret " bearer (err not_found)
    ≡ (ok "/home/user/.opengpu/control-plane-auth.json", ok saved)
unfolding store_in bound parse_base trim trim_start_matches trim_end_matches all_chars
stores_a_trimmed_token = refl

keeps_to_its_path :
    (matches sites saved "https://control.mundusx.ai/api/jobs" ≡ true)
    × (matches sites saved "https://control.mundusx.ai/apix" ≡ false)
    × (matches sites saved "https://example.invalid/api/jobs" ≡ false)
unfolding matches parse_base stem trim trim_start_matches trim_end_matches
keeps_to_its_path = (refl, refl, refl)

matches-InScope_iff_example :
    (matches sites saved "https://control.mundusx.ai/api/jobs" ≡ true)
    ↔ InScope sites saved "https://control.mundusx.ai/api/jobs"
matches-InScope_iff_example = matches-InScope_iff sites saved "https://control.mundusx.ai/api/jobs"

store_in-load_from_example :
    (base : Site) × (parse_site (trim "https://control.mundusx.ai/api/") ≡ some base)
    × (load_from sites disk (ok saved)
        ≡ ok (some (record { base_url = text_of base; header = bearer; token = trim " secret " })))
store_in-load_from_example =
    store_in-load_from sites disk documented "https://control.mundusx.ai/api/" " secret "
      "/home/user/.opengpu/control-plane-auth.json" bearer (err not_found) (ok saved)
      stores_a_trimmed_token
