-- ===== src/Prelude/TextOrder.antt =====
-- The order of texts: `compare` turned round.
use Prim.Native.Nat.compare as compare_ℕ
use Prim.Native.Nat.{ℕ, zero, suc, Ordering, compare as compare_ℕ}
use Prim.Native.Char.{code}
use Prim.Native.String.compare
use Prim.Native.String.{String, [], ◌∷◌, compare, then as chain}
use mathlib.Core.Path.{◌≡◌, refl, sym, ap, ◌∙◌}
use mathlib.Core.Bool.{Bool, true, false, false≢true}

-- Whether the text `a` does not come after `b`, and whether it comes before.
abbrev pub not_gt : Ordering → Bool
not_gt Ordering.lt = true
not_gt Ordering.eq = true
not_gt Ordering.gt = false

abbrev pub str_leb : String → String → Bool
str_leb a b = not_gt (compare a b)

abbrev flip : Ordering → Ordering
flip Ordering.lt = Ordering.gt
flip Ordering.eq = Ordering.eq
flip Ordering.gt = Ordering.lt

compare_ℕ-flip : (m n : ℕ) → compare_ℕ n m ≡ flip (compare_ℕ m n)
compare_ℕ-flip zero zero = refl
compare_ℕ-flip zero (suc n) = compare_ℕ.suc-zero n ∙ ap flip (sym (compare_ℕ.zero-suc n))
compare_ℕ-flip (suc m) zero = compare_ℕ.zero-suc m ∙ ap flip (sym (compare_ℕ.suc-zero m))
compare_ℕ-flip (suc m) (suc n) =
    compare_ℕ.suc-suc n m ∙ compare_ℕ-flip m n ∙ ap flip (sym (compare_ℕ.suc-suc m n))

flip-chain : (o r : Ordering) → chain (flip o) (flip r) ≡ flip (chain o r)
flip-chain Ordering.lt r = refl
flip-chain Ordering.eq r = refl
flip-chain Ordering.gt r = refl

compare-flip : (s t : String) → compare t s ≡ flip (compare s t)
compare-flip [] [] = refl
compare-flip [] (d ∷ t) = compare.cons-nil d t ∙ ap flip (sym (compare.nil-cons d t))
compare-flip (c ∷ s) [] = compare.nil-cons c s ∙ ap flip (sym (compare.cons-nil c s))
compare-flip (c ∷ s) (d ∷ t) =
    compare.cons-cons d c t s
    ∙ ap (λ o. chain o (compare t s)) (compare_ℕ-flip (code c) (code d))
    ∙ ap (chain (flip (compare_ℕ (code c) (code d)))) (compare-flip s t)
    ∙ flip-chain (compare_ℕ (code c) (code d)) (compare s t)
    ∙ ap flip (sym (compare.cons-cons c d s t))

not_gt-flip : (o : Ordering) → not_gt o ≡ false → not_gt (flip o) ≡ true
not_gt-flip Ordering.lt h = absurd (false≢true (sym h))
not_gt-flip Ordering.eq h = refl
not_gt-flip Ordering.gt h = refl

pub str_leb_total : (a b : String) → str_leb a b ≡ false → str_leb b a ≡ true
str_leb_total a b h = ap not_gt (compare-flip a b) ∙ not_gt-flip (compare a b) h
