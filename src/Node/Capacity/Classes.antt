-- ===== src/Node/Capacity/Classes.antt =====
-- The capacity classes of agents/node/src/main.rs grow with the memory.
use mundusx.Prelude.{
  ℕ, ◌≤◌, ◌≡◌, refl, arith, String, Option, none, some, Bool, true, false, ◌||◌, leb, if◌then◌else◌,
  to_ascii_lowercase, map_chars, trim, trim_start_matches, trim_end_matches,
}
use mundusx.Node.Capacity.{Backend, is_vllm, value_or, capacity_rank, classify_capacity}
use mundusx.Node.Capacity.Bounds.{AtMost}

capacity_rank-server : capacity_rank "server" ≡ 6
unfolding capacity_rank to_ascii_lowercase map_chars trim trim_start_matches trim_end_matches
capacity_rank-server = refl

capacity_rank-synthesis : capacity_rank "synthesis" ≡ 5
unfolding capacity_rank to_ascii_lowercase map_chars trim trim_start_matches trim_end_matches
capacity_rank-synthesis = refl

pub capacity_rank-heavy : capacity_rank "heavy" ≡ 4
unfolding capacity_rank to_ascii_lowercase map_chars trim trim_start_matches trim_end_matches
capacity_rank-heavy = refl

pub capacity_rank-performance : capacity_rank "performance" ≡ 3
unfolding capacity_rank to_ascii_lowercase map_chars trim trim_start_matches trim_end_matches
capacity_rank-performance = refl

capacity_rank-standard : capacity_rank "standard" ≡ 2
unfolding capacity_rank to_ascii_lowercase map_chars trim trim_start_matches trim_end_matches
capacity_rank-standard = refl

capacity_rank-micro : capacity_rank "micro" ≡ 1
unfolding capacity_rank to_ascii_lowercase map_chars trim trim_start_matches trim_end_matches
capacity_rank-micro = refl

-- The rank of the class, as a number of the memory.
abbrev rank_of : Backend → ℕ → ℕ → ℕ
rank_of backend memory vram =
    if is_vllm backend
    then 6
    else if leb 65536 memory || leb 49152 vram
    then 5
    else if leb 32768 memory || leb 24576 vram
    then 4
    else if leb 16384 memory || leb 12288 vram
    then 3
    else if leb 8192 memory || leb 6144 vram
    then 2
    else 1

capacity_rank-if :
    (b : Bool) (c d : String) (n k : ℕ)
    → capacity_rank c ≡ n
    → capacity_rank d ≡ k
    → capacity_rank (if b then c else d) ≡ (if b then n else k)
capacity_rank-if true c d n k p q = p
capacity_rank-if false c d n k p q = q

capacity_rank-classify :
    (backend : Backend) (memory : ℕ) (vram : Option ℕ)
    → capacity_rank (classify_capacity backend memory vram)
      ≡ rank_of backend memory (value_or vram 0)
unfolding classify_capacity
capacity_rank-classify backend memory vram = capacity_rank-if _ _ _ _ _ capacity_rank-server (
    capacity_rank-if _ _ _ _ _ capacity_rank-synthesis (
      capacity_rank-if _ _ _ _ _ capacity_rank-heavy (
        capacity_rank-if _ _ _ _ _ capacity_rank-performance
          (capacity_rank-if _ _ _ _ _ capacity_rank-standard capacity_rank-micro))))

value_mono : (a b : Option ℕ) → AtMost a b → value_or a 0 ≤ value_or b 0
value_mono none none h = omega arith
value_mono none (some k) h = absurd h
value_mono (some n) none h = absurd h
value_mono (some n) (some k) h = h

-- The class that a node advertises is one of the ranks one to six, and for the same
-- backend its rank does not fall when the usable memory and video memory grow.
pub classify_capacity-grow :
    (backend : Backend) (memory more : ℕ) (vram vram' : Option ℕ)
    → memory ≤ more
    → AtMost vram vram'
    → (1 ≤ capacity_rank (classify_capacity backend memory vram))
      × (capacity_rank (classify_capacity backend memory vram)
          ≤ capacity_rank (classify_capacity backend more vram'))
      × (capacity_rank (classify_capacity backend more vram') ≤ 6)
classify_capacity-grow backend memory more vram vram' a b =
    rw (capacity_rank-classify backend memory vram, capacity_rank-classify backend more vram')
      (let v = value_mono vram vram' b in (ground arith, ground arith, ground arith))
