-- ===== src/Auth/Laws.antt =====
-- What the credential of packages/control-plane-auth/src/lib.rs is sent to, and that it is read back.
use mundusx.Prelude.{
  ◌≡◌, ◌↔◌, refl, ap, subst, ◌∙◌, ◌⊎◌, inl, inr, String, Option, none, some, Bool, true, false,
  ◌||◌, ◌==◌, Char, code, arith, Result, ok, err, Result-cases, Bool-cases, Option-cases, is_empty,
  is_some, trim, push_str, str_eq, eq_iff, starts_with,
}
use text.Mathlib.TextBridge.{IsPrefix}
use text.Mathlib.TextEquality.{starts_with_iff}
use mundusx.Agent.Effect.{M, bound}
use mundusx.Auth.Roots.{Root, trim_end_matches-Root, Root-trim_end_matches}
use mundusx.Auth.{Urls, Credential, IoError, bad_base, stem, matches, parse_base, lift, from_option}

pub bound-ok :
    {W E A B : Type 0} (x : Result E A × W) (f : A → M W E B) (b : B) (w' : W)
    → bound x f ≡ (ok b, w')
    → (a : A) × (w1 : W) × (x ≡ (ok a, w1)) × (f a w1 ≡ (ok b, w'))
unfolding bound
bound-ok (ok a, w1) f b w' h = (a, w1, refl, h)
bound-ok (err e, w1) f b w' h = cc

pub lift-ok :
    {W A : Type 0} (r : Result IoError A) (w w' : W) (a : A) → lift r w ≡ (ok a, w') → r ≡ ok a
lift-ok (ok x) w w' a h = cc
lift-ok (err e) w w' a h = cc

pub from_option-ok :
    {A : Type 0} (e : IoError) (o : Option A) (a : A) → from_option e o ≡ ok a → o ≡ some a
from_option-ok e none a h = cc
from_option-ok e (some x) a h = cc

abbrev pub is_slash : Char → Bool
is_slash c = code c == 47

module _ {Url : Type 0} (urls : Urls Url) where
  -- An HTTP base without a user, a password, a query or a fragment.
  pub record IsBase (base : Url) : Type 0 where
    pub scheme : (urls.scheme base ≡ "http") ⊎ (urls.scheme base ≡ "https")
    pub host : is_some (urls.host_str base) ≡ true
    pub username : is_empty (urls.username base) ≡ true
    pub password : is_some (urls.password base) ≡ false
    pub query : is_some (urls.query base) ≡ false
    pub fragment : is_some (urls.fragment base) ≡ false

  -- The target has the origin of the base and carries no user. Its path is the base's without the
  -- slashes at its end, or continues it after a slash.
  pub record InScope (credential : Credential) (target : String) : Type 0 where
    pub base : Url
    pub base_parsed : urls.parse (trim credential.base_url) ≡ some base
    pub base_good : IsBase base
    pub url : Url
    pub parsed : urls.parse target ≡ some url
    pub origin : urls.same_origin base url ≡ true
    pub no_username : is_empty (urls.username url) ≡ true
    pub no_password : is_some (urls.password url) ≡ false
    pub root : String
    pub is_root : Root is_slash (urls.path base) root
    pub at_or_below : (urls.path url ≡ root) ⊎ IsPrefix (push_str root "/") (urls.path url)

  IsBase-good : (base : Url) → IsBase base → bad_base urls base ≡ false
  IsBase-good base good = elim good.scheme [
    | inl http ↦
        let e = (eq_iff (urls.scheme base) "http").1 http in
        ground (arith, good.host, good.username, good.password, good.query, good.fragment)
    | inr https ↦
        let e = (eq_iff (urls.scheme base) "https").1 https in
        ground (arith, good.host, good.username, good.password, good.query, good.fragment)
  ]

  good-IsBase : (base : Url) → bad_base urls base ≡ false → IsBase base
  good-IsBase base good = record {
    scheme = elim (Bool-cases (str_eq (urls.scheme base) "http")) [
      | inl http ↦ inl ((eq_iff (urls.scheme base) "http").0 http)
      | inr other ↦ inr ((eq_iff (urls.scheme base) "https").0 (ground arith))
    ];
    host = ground arith;
    username = ground arith;
    password = ground arith;
    query = ground arith;
    fragment = ground arith;
  }

  pub parse_base-ok :
      (value : String) (base : Url)
      → parse_base urls value ≡ ok base
      → (urls.parse (trim value) ≡ some base) × (bad_base urls base ≡ false)
  unfolding parse_base
  parse_base-ok value base h = elim (Option-cases (urls.parse (trim value))) [
    | inl p ↦ cc
    | inr (url, p) ↦ elim (Bool-cases (bad_base urls url)) [
      | inl bad ↦ cc
      | inr good ↦
          let same : url ≡ base = cc in
          (p ∙ ap some same, subst (λ u. bad_base urls u ≡ false) same good)
    ]
  ]

  pub parse_base-accepts :
      (value : String) (base : Url)
      → urls.parse (trim value) ≡ some base
      → bad_base urls base ≡ false
      → parse_base urls value ≡ ok base
  unfolding parse_base
  parse_base-accepts value base p good = rw (p, good) refl

  at_or_below_iff :
      (path stem : String)
      → ((str_eq path stem || starts_with path (push_str stem "/")) ≡ true)
        ↔ ((path ≡ stem) ⊎ IsPrefix (push_str stem "/") path)
  at_or_below_iff path stem = (
    (λ h. elim (Bool-cases (str_eq path stem)) [
      | inl same ↦ inl ((eq_iff path stem).0 same)
      | inr different ↦ inr ((starts_with_iff path (push_str stem "/")).0 (ground arith))
    ]),
    (λ s. elim s [
      | inl same ↦ let e = (eq_iff path stem).1 same in ground arith
      | inr below ↦ let e = (starts_with_iff path (push_str stem "/")).1 below in ground arith
    ]),
  )

  matches-InScope :
      (credential : Credential) (target : String)
      → matches urls credential target ≡ true
      → InScope credential target
  unfolding matches stem
  matches-InScope credential target h = elim (Result-cases (parse_base urls credential.base_url)) [
    | inl (e, p) ↦ cc
    | inr (base, p) ↦ elim (Option-cases (urls.parse target)) [
      | inl q ↦ cc
      | inr (url, q) ↦ record {
        base = base;
        base_parsed = (parse_base-ok credential.base_url base p).0;
        base_good = good-IsBase base (parse_base-ok credential.base_url base p).1;
        url = url;
        parsed = q;
        origin = ground arith;
        no_username = ground arith;
        no_password = ground arith;
        root = stem urls base;
        is_root = trim_end_matches-Root is_slash (urls.path base);
        at_or_below = (at_or_below_iff (urls.path url) (stem urls base)).0 (ground arith);
      }
    ]
  ]

  InScope-matches :
      (credential : Credential) (target : String)
      → InScope credential target
      → matches urls credential target ≡ true
  unfolding matches stem
  InScope-matches credential target s =
      rw
        (
          parse_base-accepts credential.base_url s.base s.base_parsed
              (IsBase-good s.base s.base_good),
          s.parsed,
          s.origin,
          s.no_username,
          s.no_password,
          Root-trim_end_matches is_slash (urls.path s.base) s.root s.is_root,
          (at_or_below_iff (urls.path s.url) s.root).1 s.at_or_below,
        )
        refl

  -- A credential matches exactly the targets with the origin of its base, no user or password of
  -- their own, and the base's path without the slashes at its end, or a path that continues this one
  -- after a slash. Its base is one of HTTP or HTTPS with a host and without a user, a password, a
  -- query or a fragment.
  pub matches-InScope_iff :
      (credential : Credential) (target : String)
      → (matches urls credential target ≡ true) ↔ InScope credential target
  matches-InScope_iff credential target =
      (matches-InScope credential target, InScope-matches credential target)
