-- ===== src/Agent/Effect.antt =====
-- A call that may fail and that acts on a world `W`: what the methods of the agent return. The world
-- comes back beside an error too, since what was appended or executed stays.
use mundusx.Prelude.{Result, ok, err}

abbrev pub M : Type 0 → Type 0 → Type 0 → Type 0
M W E A = W → Result E A × W

module _ {W E A : Type 0} where
  abbrev pub pure : A → M W E A
  pure a w = (ok a, w)

  abbrev pub throw : E → M W E A
  throw e w = (err e, w)

  -- `.map_err(f)?`
  unfoldable pub map_err : {E' : Type 0} → (E' → E) → Result E' A × W → Result E A × W
  map_err f (ok a, w) = (ok a, w)
  map_err f (err e, w) = (err (f e), w)

module _ {W E A B : Type 0} where
  unfoldable pub bound : Result E A × W → (A → M W E B) → Result E B × W
  bound (ok a, w) f = f a w
  bound (err e, w) f = (err e, w)

  infixl 5 ◌>>=◌
  abbrev pub ◌>>=◌ : M W E A → (A → M W E B) → M W E B
  ◌>>=◌ m f w = bound (m w) f

-- A call ends with a value and a world that satisfy `Q`, or with an error and a world that satisfy `S`.
pub data Ends {W E A : Type 0} (S : E → W → Type 0) (Q : A → W → Type 0)
    : Result E A × W → Type 0 where
  returns : {a : A} {w : W} → Q a w → Ends S Q (ok a, w)
  stops : {e : E} {w : W} → S e w → Ends S Q (err e, w)

module _ {W E A B : Type 0} {S : E → W → Type 0} {Q : A → W → Type 0} {R : B → W → Type 0}
    {f : A → M W E B} where
  pub and_then :
      {x : Result E A × W}
      → Ends S Q x
      → ((a : A) (w : W) → Q a w → Ends S R (f a w))
      → Ends S R (bound x f)
  unfolding bound
  and_then (returns q) k = k _ _ q
  and_then (stops s) k = stops s
