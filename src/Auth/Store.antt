-- ===== src/Auth/Store.antt =====
-- Storing the credential of packages/control-plane-auth/src/lib.rs and reading it back.
use mundusx.Prelude.{◌≡◌, refl, subst, inl, inr, String, some, false, ok, Bool-cases, trim}
use mundusx.Auth.{
  Urls, Machine, Credential, TokenHeader, bad_token, parse_base, store_in, store_base,
  write_credential, load_from,
}
use mundusx.Auth.Laws.{bound-ok, lift-ok, from_option-ok, parse_base-ok, parse_base-accepts}

-- What the documentation of the libraries and the system says.
pub record Documented {Url W Bytes : Type 0} (urls : Urls Url) (machine : Machine W Bytes)
    : Type 0 where
  pub parse_text : (u : Url) → urls.parse (trim (urls.to_string u)) ≡ some u
  pub decode_encoded :
      (c : Credential) (b : Bytes) → machine.encode c ≡ some b → machine.decode b ≡ some c
  pub unprotect_protected : (b p : Bytes) → machine.protect b ≡ ok p → machine.unprotect p ≡ ok b
  pub read_written :
      (b : Bytes) (w w1 w2 w3 : W)
      → machine.open_file w ≡ (ok tt, w1)
      → machine.set_permissions w1 ≡ (ok tt, w2)
      → machine.write_all b w2 ≡ (ok tt, w3)
      → machine.read w3 ≡ ok b

module _ {Url W Bytes : Type 0} (urls : Urls Url) (machine : Machine W Bytes)
    (d : Documented urls machine) where
  -- The bytes that are read after a write are those of the credential.
  write_credential-read :
      (c : Credential) (w w' : W) (path : String)
      → write_credential urls machine c w ≡ (ok path, w')
      → (plain : Bytes) × (bytes : Bytes) × (machine.encode c ≡ some plain)
        × (machine.protect plain ≡ ok bytes)
        × (machine.read w' ≡ ok bytes)
  write_credential-read c w w' path h =
      let (plain, w1, e1, h1) = bound-ok _ _ path w' h in
      let (bytes, w2, e2, h2) = bound-ok _ _ path w' h1 in
      let (made, w3, e3, h3) = bound-ok _ _ path w' h2 in
      let (opened, w4, e4, h4) = bound-ok _ _ path w' h3 in
      let (private, w5, e5, h5) = bound-ok _ _ path w' h4 in
      let (written, w6, e6, h6) = bound-ok _ _ path w' h5 in
      let same : w6 ≡ w' = cc in
      (
        plain,
        bytes,
        from_option-ok _ _ plain (lift-ok _ w w1 plain e1),
        lift-ok _ w1 w2 bytes e2,
        subst (λ v. machine.read v ≡ ok bytes) same (d.read_written bytes w3 w4 w5 w6 e4 e5 e6),
      )

  store_base-token :
      (token : String) (header : TokenHeader) (base : Url) (w w' : W) (path : String)
      → store_base urls machine token header base w ≡ (ok path, w')
      → (bad_token token ≡ false)
        × (write_credential urls machine
              (record { base_url = urls.to_string base; header = header; token = token })
              w
            ≡ (ok path, w'))
  store_base-token token kind base w w' path h = elim (Bool-cases (bad_token token)) [
    | inl bad ↦ cc
    | inr good ↦ (good, cc)
  ]

  load_from-written :
      (c : Credential) (base : Url) (w : W) (plain bytes : Bytes)
      → machine.encode c ≡ some plain
      → machine.protect plain ≡ ok bytes
      → machine.read w ≡ ok bytes
      → parse_base urls c.base_url ≡ ok base
      → bad_token c.token ≡ false
      → load_from urls machine w ≡ ok (some c)
  unfolding load_from
  load_from-written c base w plain bytes e p r b t =
      rw (r, d.unprotect_protected plain bytes p, d.decode_encoded c plain e, b, t) refl

  -- When a credential is stored, the next load finds it: its base is the text of the URL that was
  -- parsed, its header is the one given, and its token is the one given without surrounding spaces.
  -- The URL library parses its own texts back, the JSON library and the data protection undo
  -- themselves, and a file that was opened, restricted and written is read back.
  pub store_in-load_from :
      (base_url token path : String) (header : TokenHeader) (w w' : W)
      → store_in urls machine base_url token header w ≡ (ok path, w')
      → (base : Url) × (urls.parse (trim base_url) ≡ some base)
        × (load_from urls machine w'
            ≡ ok (
                some
                  (record { base_url = urls.to_string base; header = header; token = trim token })))
  unfolding store_in
  store_in-load_from base_url token path kind w w' h =
      let (base, w1, e, h1) = bound-ok _ _ path w' h in
      let parsed = parse_base-ok urls base_url base (lift-ok _ w w1 base e) in
      let good = store_base-token (trim token) kind base w1 w' path h1 in
      let (plain, bytes, e1, e2, r) = write_credential-read _ w1 w' path good.1 in
      (
        base,
        parsed.0,
        load_from-written _ base w' plain bytes e1 e2 r
            (parse_base-accepts urls (urls.to_string base) base (d.parse_text base) parsed.1)
            good.0,
      )
