-- ===== src/Auth/Roots.antt =====
-- A path without the slashes at its end, apart from `trim_end_matches`, for the bases of
-- packages/control-plane-auth/src/lib.rs.
use Prim.Native.String.append
use Prim.Native.Char.{Char}
use mundusx.Prelude.{
  ◌≡◌, ◌∙◌, refl, sym, ap, String, Bool, true, false, push_str, all_chars, arith, keep_before,
  trim_end_matches,
}

module _ (p : Char → Bool) where
  -- Whether the last character is one of the predicate's.
  abbrev pub ends_in : String → Bool
  ends_in String.[] = false
  ends_in (String.◌∷◌ c String.[]) = p c
  ends_in (String.◌∷◌ c (String.◌∷◌ d s)) = ends_in (String.◌∷◌ d s)

  -- The text is the root with characters of the predicate after it, and the root ends in none.
  abbrev pub Root : String → String → Type 0
  Root s root =
      (tail : String) × (push_str root tail ≡ s)
      × (all_chars p tail ≡ true)
      × (ends_in root ≡ false)

  keep_before-Root :
      (matches : Bool) (c : Char) (s root : String)
      → p c ≡ matches
      → Root s root
      → Root (String.◌∷◌ c s) (keep_before matches c root)
  unfolding all_chars
  keep_before-Root true c s String.[] hit (tail, e, all, ends) = (
    String.◌∷◌ c tail,
    append.nil (String.◌∷◌ c tail) ∙ ap (λ t. String.◌∷◌ c t) (sym (append.nil tail) ∙ e),
    rw (hit, all) refl,
    refl,
  )
  keep_before-Root false c s String.[] miss (tail, e, all, ends) =
      (tail, append.cons c String.[] tail ∙ ap (λ t. String.◌∷◌ c t) e, all, miss)
  keep_before-Root matches c s (String.◌∷◌ d root) h (tail, e, all, ends) =
      (tail, append.cons c (String.◌∷◌ d root) tail ∙ ap (λ t. String.◌∷◌ c t) e, all, ends)

  pub trim_end_matches-Root : (s : String) → Root s (trim_end_matches p s)
  unfolding trim_end_matches all_chars
  trim_end_matches-Root String.[] = (String.[], append.nil String.[], refl, refl)
  trim_end_matches-Root (String.◌∷◌ c s) =
      keep_before-Root (p c) c s (trim_end_matches p s) refl (trim_end_matches-Root s)

  trim_end_matches-all : (s : String) → all_chars p s ≡ true → trim_end_matches p s ≡ String.[]
  unfolding trim_end_matches all_chars
  trim_end_matches-all String.[] all = refl
  trim_end_matches-all (String.◌∷◌ c s) all =
      let hit : p c ≡ true = ground (arith, all) in
      let rest : all_chars p s ≡ true = ground (arith, all) in
      rw (trim_end_matches-all s rest, hit) refl

  trim_end_matches-append :
      (root tail : String)
      → all_chars p tail ≡ true
      → ends_in root ≡ false
      → trim_end_matches p (push_str root tail) ≡ root
  unfolding trim_end_matches
  trim_end_matches-append String.[] tail all ends =
      ap (trim_end_matches p) (append.nil tail) ∙ trim_end_matches-all tail all
  trim_end_matches-append (String.◌∷◌ c String.[]) tail all miss =
      ap (trim_end_matches p) (append.cons c String.[] tail)
      ∙ rw (trim_end_matches-append String.[] tail all refl, miss) refl
  trim_end_matches-append (String.◌∷◌ c (String.◌∷◌ d root)) tail all ends =
      ap (trim_end_matches p) (append.cons c (String.◌∷◌ d root) tail)
      ∙ rw (trim_end_matches-append (String.◌∷◌ d root) tail all ends) refl

  -- A text has one root.
  pub Root-trim_end_matches : (s root : String) → Root s root → trim_end_matches p s ≡ root
  Root-trim_end_matches s root (tail, e, all, ends) =
      ap (trim_end_matches p) (sym e) ∙ trim_end_matches-append root tail all ends
