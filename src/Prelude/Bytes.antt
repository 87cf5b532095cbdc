-- ===== src/Prelude/Bytes.antt =====
-- Byte positions in a text: `str::is_char_boundary`, `&s[i..]`, and their laws.
use Prim.Native.Nat.{ℕ, zero, suc, ◌+◌, ◌-◌, ◌≤◌, Ordering}
use Prim.Native.Char.{Char, len_utf8, width, len_utf8_def}
use Prim.Native.String.{String, len}
use Prim.Native.String.len
use Prim.Native.String.append
use mathlib.Core.Path.{◌≡◌, refl, ap, ◌∙◌}
use mathlib.Core.Logic.{inl, inr}
use mathlib.Core.Bool.{Bool, true, false}
use native.Mathlib.Omega.{arith}
use mundusx.Prelude.Tests.{ltb, leb, ◌==◌, if◌then◌else◌, Bool-cases}
use mundusx.Prelude.Text.{push_str}

unfoldable pub is_char_boundary : String → ℕ → Bool
is_char_boundary String.[] i = i == 0
is_char_boundary (String.◌∷◌ c s) i =
    let rest = is_char_boundary s (i - len_utf8 c) in
    if i == 0 then true else if leb (len_utf8 c) i then rest else false

-- `&s[i..]` at a boundary; Rust panics elsewhere.
unfoldable pub slice_from : String → ℕ → String
slice_from String.[] i = String.[]
slice_from (String.◌∷◌ c s) i = if i == 0 then String.◌∷◌ c s else slice_from s (i - len_utf8 c)

width_bounds : (a b c : Ordering) → (1 ≤ width a b c) × (width a b c ≤ 4)
width_bounds a b c = ground arith

len_utf8_bounds : (c : Char) → (1 ≤ len_utf8 c) × (len_utf8 c ≤ 4)
len_utf8_bounds c = rw len_utf8_def (width_bounds _ _ _)

-- A boundary splits the text.
pub slice_from-suffix :
    (s : String) (i : ℕ)
    → is_char_boundary s i ≡ true
    → (p : String) × (push_str p (slice_from s i) ≡ s) × (len p ≡ i)
unfolding is_char_boundary slice_from
slice_from-suffix String.[] i b = (String.[], refl, ground arith)
slice_from-suffix (String.◌∷◌ c s) i b = elim (Bool-cases (i == 0)) [
  | inl start ↦ (String.[], rw start (append.nil _), ground arith)
  | inr inside ↦
      let (p, e, n) = slice_from-suffix s (i - len_utf8 c) (ground arith) in
      (
        String.◌∷◌ c p,
        rw inside (append.cons c p _ ∙ ap (String.◌∷◌ c) e),
        len.cons c p ∙ ground arith,
      )
]

boundary_zero : (s : String) → is_char_boundary s 0 ≡ true
unfolding is_char_boundary
boundary_zero String.[] = refl
boundary_zero (String.◌∷◌ c s) = refl

-- A position behind the first character is one of the rest.
boundary_past :
    (c : Char) (s : String) (i j : ℕ)
    → i ≡ len_utf8 c + j
    → is_char_boundary s j ≡ true
    → is_char_boundary (String.◌∷◌ c s) i ≡ true
unfolding is_char_boundary
boundary_past c s i j e b =
    let back : i - len_utf8 c ≡ j = omega arith in
    let there : is_char_boundary s (i - len_utf8 c) ≡ true = rw back b in ground (arith, there)

-- From any position up to the end, the next boundary is at most three bytes away.
pub boundary_near :
    (s : String) (i : ℕ) → i ≤ len s → (k : ℕ) × (k ≤ 3) × (is_char_boundary s (i + k) ≡ true)
unfolding is_char_boundary
boundary_near String.[] i h = (0, omega arith, ground arith)
boundary_near (String.◌∷◌ c s) i h = elim (Bool-cases (i == 0)) [
  | inl start ↦ (0, omega arith, ground arith)
  | inr inside ↦ elim (Bool-cases (ltb i (len_utf8 c))) [
    | inl cut ↦ (
      len_utf8 c - i,
      ground (arith, len_utf8_bounds c),
      boundary_past c s _ 0 (ground arith) (boundary_zero s),
    )
    | inr past ↦
        let length : len (String.◌∷◌ c s) ≡ len_utf8 c + len s = len.cons c s in
        let (k, small, b) = boundary_near s (i - len_utf8 c) (ground arith) in
        (k, small, boundary_past c s _ _ (ground arith) b)
  ]
]

-- `while !s.is_char_boundary(i) { i += 1 }`, which ends at the text's end at the latest.
unfoldable pub next_boundary : ℕ → String → ℕ → ℕ
next_boundary zero s i = i
next_boundary (suc fuel) s i =
    let rest = next_boundary fuel s (i + 1) in if is_char_boundary s i then i else rest

-- With fuel for the bytes that are left, the loop stops at a boundary.
pub next_boundary-boundary :
    (fuel : ℕ) (s : String) (i k : ℕ)
    → k ≤ fuel
    → is_char_boundary s (i + k) ≡ true
    → (is_char_boundary s (next_boundary fuel s i) ≡ true)
      × (i ≤ next_boundary fuel s i)
      × (next_boundary fuel s i ≤ i + k)
unfolding next_boundary
next_boundary-boundary zero s i k h b =
    let e : i + k ≡ i = omega arith in (rw e at b, omega arith, omega arith)
next_boundary-boundary (suc fuel) s i zero h b =
    let e : i + 0 ≡ i = omega arith in
    let here : is_char_boundary s i ≡ true = rw e at b in
    (rw (here) here, rw here (omega arith), rw here (omega arith))
next_boundary-boundary (suc fuel) s i (suc k) h b = elim (Bool-cases (is_char_boundary s i)) [
  | inl here ↦ (rw here here, rw here (omega arith), rw here (omega arith))
  | inr inside ↦
      let e : i + suc k ≡ i + 1 + k = omega arith in
      let (at, above, below) = next_boundary-boundary fuel s (i + 1) k (omega arith) (rw e at b) in
      (rw inside at, rw inside (omega arith), rw inside (omega arith))
]
