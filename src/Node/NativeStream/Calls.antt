-- ===== src/Node/NativeStream/Calls.antt =====
-- Looking up a tool call after another was put, and cutting a text that begins another,
-- agents/node/src/native_stream.rs.
use Prim.Native.String.append
use text.Mathlib.TextEquality.{Char-path}
use mundusx.Prelude.{
  ℕ, ◌<◌, ◌≡◌, refl, sym, ap, ◌∙◌, subst, String, push_str, Option, none, some, [], ◌∷◌, Bool,
  false, ok, leb, ◌==◌, if◌then◌else◌, any, strip_prefix, some-injective, none_not-some, arith,
  ok-injective, err_not-ok, Bool-cases, inl, inr, code,
}
use mundusx.Node.NativeStream.{Call, Calls, get_call, set_call, found_suffix, suffix}

pub get-set :
    (index : ℕ) (call : Call) (calls : Calls)
    → get_call (set_call index call calls) index ≡ some call
unfolding get_call set_call
get-set index call [] = ground arith
get-set index call ((i, old) ∷ calls) = ground (arith, get-set index call calls)

pub get-set_other :
    (index j : ℕ) (call : Call) (calls : Calls)
    → (index == j) ≡ false
    → get_call (set_call index call calls) j ≡ get_call calls j
unfolding get_call set_call
get-set_other index j call [] d = ground (arith, d)
get-set_other index j call ((i, old) ∷ calls) d =
    ground (arith, d, get-set_other index j call calls d)

-- No key reaches the bound.
abbrev pub reaches : ℕ → Calls → Bool
reaches bound calls = any (λ entry. leb bound entry.0) calls

pub reaches-set :
    (bound index : ℕ) (call : Call) (calls : Calls)
    → index < bound
    → reaches bound calls ≡ false
    → reaches bound (set_call index call calls) ≡ false
unfolding any set_call
reaches-set bound index call [] lt r = ground arith
reaches-set bound index call ((i, old) ∷ calls) lt r =
    ground (arith, r, reaches-set bound index call calls lt)

strip_prefix-some :
    (prefix s rest : String) → strip_prefix prefix s ≡ some rest → s ≡ push_str prefix rest
unfolding strip_prefix
strip_prefix-some String.[] s rest e = some-injective s rest e ∙ sym (append.nil rest)
strip_prefix-some (String.◌∷◌ p prefix) String.[] rest e = absurd (none_not-some rest e)
strip_prefix-some (String.◌∷◌ p prefix) (String.◌∷◌ c s) rest e =
    elim (Bool-cases (code p == code c)) [
      | inl same ↦
          let cut = subst (λ b. (if b then strip_prefix prefix s else none) ≡ some rest) same e in
          let letter = Char-path c p (ground (arith, same)) in
          (λ i. String.◌∷◌ (letter i) (strip_prefix-some prefix s rest cut i))
          ∙ sym (append.cons p prefix rest)
      | inr different ↦ absurd (
          none_not-some rest
            (subst (λ b. (if b then strip_prefix prefix s else none) ≡ some rest) different e))
    ]

strip_prefix_self : (s : String) → strip_prefix s s ≡ some String.[]
unfolding strip_prefix
strip_prefix_self String.[] = refl
strip_prefix_self (String.◌∷◌ c s) = ground (arith, strip_prefix_self s)

found_suffix-ok :
    (found : Option String) (rest : String) → found_suffix found ≡ ok rest → found ≡ some rest
found_suffix-ok none rest e = absurd (err_not-ok e)
found_suffix-ok (some r) rest e = ap some (ok-injective r rest e)

pub suffix-ok :
    (full prefix rest : String) → suffix full prefix ≡ ok rest → full ≡ push_str prefix rest
suffix-ok full prefix rest e =
    strip_prefix-some prefix full rest (found_suffix-ok (strip_prefix prefix full) rest e)

pub suffix_self : (full prefix : String) → prefix ≡ full → suffix full prefix ≡ ok ""
suffix_self full prefix e = ap (suffix full) e ∙ ap found_suffix (strip_prefix_self full)
