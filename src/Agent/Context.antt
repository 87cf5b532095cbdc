-- ===== src/Agent/Context.antt =====
-- The context window, packages/agent-core/src/context.rs.
use text.Mathlib.TextPositions.{len-append}
use mundusx.Prelude.{
  ℕ, ◌+◌, ◌-◌, ◌≤◌, ◌<◌, ◌≡◌, refl, ◌⊎◌, inl, inr, Bool, true, false, String, len, push_str, leb,
  max, if◌then◌else◌, next_boundary, slice_from, is_char_boundary, arith, Bool-cases, boundary_near,
  next_boundary-boundary, slice_from-suffix, ap,
}

pub record ContextWindow : Type 0 where
  pub text : String
  pub original_chars : ℕ
  pub compacted : Bool

abbrev pub marker : String
marker = "[Earlier conversation compacted]\n\n"

-- Where the `while` loop of `compact_transcript` stops.
unfoldable pub compaction_start : String → ℕ → ℕ
compaction_start transcript keep = next_boundary (len transcript) transcript (len transcript - keep)

unfoldable pub compact_transcript : String → ℕ → ContextWindow
compact_transcript transcript limit =
    let max_chars = max limit 1024 in
    let start = compaction_start transcript (max_chars - len marker) in
    if leb (len transcript) max_chars
    then record { text = transcript; original_chars = len transcript; compacted = false }
    else record {
      text = push_str marker (slice_from transcript start);
      original_chars = len transcript;
      compacted = true;
    }

-- A window over the transcript `t` that may hold `cap` bytes.
abbrev pub IsWindow : String → ℕ → ContextWindow → Type 0
IsWindow t cap w =
    (w.original_chars ≡ len t)
    × (len w.text ≤ cap)
    × (((w.compacted ≡ false) × (w.text ≡ t))
        ⊎ ((w.compacted ≡ true)
            × (cap < len t)
            × (dropped : String) × (kept : String) × (push_str dropped kept ≡ t)
            × (w.text ≡ push_str marker kept)
            × (cap ≤ len w.text + 3)))

module _ (t : String) (keep : ℕ) (fits : keep ≤ len t) (long : 3 ≤ len t) where
  start-boundary :
      (is_char_boundary t (compaction_start t keep) ≡ true)
      × (len t - keep ≤ compaction_start t keep)
      × (compaction_start t keep ≤ len t - keep + 3)
  unfolding compaction_start
  start-boundary =
      let (k, small, b) = boundary_near t (len t - keep) (omega arith) in
      let (at, above, below) = next_boundary-boundary (len t) t (len t - keep) k (omega arith) b in
      (at, above, omega arith)

  kept-bytes :
      (p : String) × (push_str p (slice_from t (compaction_start t keep)) ≡ t)
      × (len (slice_from t (compaction_start t keep)) ≤ keep)
      × (keep ≤ len (slice_from t (compaction_start t keep)) + 3)
  kept-bytes =
      let (p, e, n) = slice_from-suffix t (compaction_start t keep) start-boundary.0 in
      let total = ap len e in
      (
        p,
        e,
        omega (
          arith,
          total,
          n,
          start-boundary,
          len-append p (slice_from t (compaction_start t keep)),
        ),
        omega (
          arith,
          total,
          n,
          start-boundary,
          len-append p (slice_from t (compaction_start t keep)),
        ),
      )

-- The window counts the transcript's bytes and holds at most the limit, or 1024 bytes if the limit is
-- less. Either it is the whole transcript and is not marked as compacted; or the transcript is longer
-- than that bound, and the window is the marker and an end of the transcript, marked as compacted
-- and at most three bytes short of the bound.
pub compact_transcript-IsWindow :
    (t : String) (limit : ℕ) → IsWindow t (max limit 1024) (compact_transcript t limit)
unfolding compact_transcript
compact_transcript-IsWindow t limit = elim (Bool-cases (leb (len t) (max limit 1024))) [
  | inl whole ↦ rw whole (refl, ground arith, inl (refl, refl))
  | inr long ↦
      let keep : ℕ = max limit 1024 - 34 in
      let (dropped, e, small, large) = kept-bytes t keep (ground arith) (ground arith) in
      let kept = slice_from t (compaction_start t keep) in
      let joined = len-append marker kept in
      rw long (
        refl,
        omega (arith, joined, small),
        inr (refl, ground arith, dropped, kept, e, refl, omega (arith, joined, large)),
      )
]
