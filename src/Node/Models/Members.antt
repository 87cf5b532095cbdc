-- ===== src/Node/Models/Members.antt =====
-- Which tasks and which roles are in the sorted lists of an enriched model,
-- agents/node/src/main.rs.
use mundusx.Prelude.{
  ℕ, ◌≡◌, refl, ap, ◌∙◌, String, List, [], ◌∷◌, ◌++◌, Bool, true, false, not, ◌&&◌, ◌||◌, any,
  str_eq, leb, arith, eq_iff,
}
use mundusx.Prelude.Sorting.{sort_by_key, dedup, any-sort_by_key, any-dedup}
use mundusx.Node.Capacity.Classes.{capacity_rank-performance, capacity_rank-heavy}
use mundusx.Node.Models.{
  NodeRole, as_str, role_eq, coding, vision, embedding, tool_use, reducer, synthesizer, when,
  tasks_of, roles_of,
}

module _ {A : Type 0} (p : A → Bool) where
  pub any-append : (xs ys : List A) → any p (xs ++ ys) ≡ (any p xs || any p ys)
  unfolding any
  any-append [] ys = refl
  any-append (x ∷ xs) ys = ground (arith, any-append xs ys)

  pub any-when : (b : Bool) (xs : List A) → any p (when b xs) ≡ (b && any p xs)
  unfolding any when
  any-when true xs = refl
  any-when false xs = refl

str_eq-agrees : (t x y : String) → str_eq x y ≡ true → str_eq t x ≡ str_eq t y
str_eq-agrees t x y same = ap (str_eq t) ((eq_iff x y).0 same)

role_eq-agrees : (r x y : NodeRole) → role_eq x y ≡ true → role_eq r x ≡ role_eq r y
role_eq-agrees r x y same = ground arith

task_kept :
    (t : String) (tasks : List String)
    → any (str_eq t) (dedup str_eq (sort_by_key (λ s. s) tasks)) ≡ any (str_eq t) tasks
task_kept t tasks =
    any-dedup (str_eq t) str_eq (str_eq-agrees t) (sort_by_key (λ s. s) tasks)
    ∙ any-sort_by_key (str_eq t) (λ s. s) tasks

pub role_kept :
    (r : NodeRole) (roles : List NodeRole)
    → any (role_eq r) (dedup role_eq (sort_by_key as_str roles)) ≡ any (role_eq r) roles
role_kept r roles =
    any-dedup (role_eq r) role_eq (role_eq-agrees r) (sort_by_key as_str roles)
    ∙ any-sort_by_key (role_eq r) as_str roles

module _ (rank : ℕ) (codes embed_name tools visual embeds structured : Bool) where
  abbrev pub in_tasks : String → Bool
  in_tasks t = any (str_eq t) (
      dedup str_eq
        (sort_by_key (λ s. s) (tasks_of rank codes embed_name tools visual embeds structured)))

  pub in_tasks-tool_use : in_tasks "tool_use" ≡ (tools)
  unfolding any tasks_of
  in_tasks-tool_use =
      task_kept "tool_use" _
      ∙ simp (any-append (str_eq "tool_use"), any-when (str_eq "tool_use")) (ground arith)

  pub in_tasks-structured_output : in_tasks "structured_output" ≡ (structured)
  unfolding any tasks_of
  in_tasks-structured_output =
      task_kept "structured_output" _
      ∙ simp (any-append (str_eq "structured_output"), any-when (str_eq "structured_output"))
          (ground arith)

  pub in_tasks-small_coding : in_tasks "small_coding" ≡ (not embed_name || codes)
  unfolding any tasks_of
  in_tasks-small_coding =
      task_kept "small_coding" _
      ∙ simp (any-append (str_eq "small_coding"), any-when (str_eq "small_coding")) (ground arith)

  pub in_tasks-research : in_tasks "research" ≡ leb 3 rank
  unfolding any tasks_of
  in_tasks-research =
      task_kept "research" _
      ∙ simp (any-append (str_eq "research"), any-when (str_eq "research"))
          (ground (arith, capacity_rank-performance))

  pub in_tasks-synthesizer : in_tasks "synthesizer" ≡ leb 4 rank
  unfolding any tasks_of
  in_tasks-synthesizer =
      task_kept "synthesizer" _
      ∙ simp (any-append (str_eq "synthesizer"), any-when (str_eq "synthesizer"))
          (ground (arith, capacity_rank-heavy))

  pub in_tasks-large_coding : in_tasks "large_coding" ≡ leb 4 rank
  unfolding any tasks_of
  in_tasks-large_coding =
      task_kept "large_coding" _
      ∙ simp (any-append (str_eq "large_coding"), any-when (str_eq "large_coding"))
          (ground (arith, capacity_rank-heavy))

  pub in_tasks-vision : in_tasks "vision" ≡ (visual)
  unfolding any tasks_of
  in_tasks-vision =
      task_kept "vision" _
      ∙ simp (any-append (str_eq "vision"), any-when (str_eq "vision")) (ground arith)

  pub in_tasks-embedding : in_tasks "embedding" ≡ (embeds)
  unfolding any tasks_of
  in_tasks-embedding =
      task_kept "embedding" _
      ∙ simp (any-append (str_eq "embedding"), any-when (str_eq "embedding")) (ground arith)

module _ (rank : ℕ) (codes embed_name tools visual embeds : Bool) where
  abbrev pub in_roles : NodeRole → Bool
  in_roles r =
      any (role_eq r)
        (dedup role_eq (sort_by_key as_str (roles_of rank codes embed_name tools visual embeds)))

  pub in_roles-tool_use : in_roles tool_use ≡ (tools)
  unfolding any roles_of
  in_roles-tool_use =
      role_kept tool_use _
      ∙ simp (any-append (role_eq tool_use), any-when (role_eq tool_use)) (ground arith)

  pub in_roles-coding : in_roles coding ≡ (not embed_name || codes)
  unfolding any roles_of
  in_roles-coding =
      role_kept coding _
      ∙ simp (any-append (role_eq coding), any-when (role_eq coding)) (ground arith)

  pub in_roles-reducer : in_roles reducer ≡ leb 3 rank
  unfolding any roles_of
  in_roles-reducer =
      role_kept reducer _
      ∙ simp (any-append (role_eq reducer), any-when (role_eq reducer))
          (ground (arith, capacity_rank-performance))

  pub in_roles-synthesizer : in_roles synthesizer ≡ leb 4 rank
  unfolding any roles_of
  in_roles-synthesizer =
      role_kept synthesizer _
      ∙ simp (any-append (role_eq synthesizer), any-when (role_eq synthesizer))
          (ground (arith, capacity_rank-heavy))

  pub in_roles-vision : in_roles vision ≡ (visual)
  unfolding any roles_of
  in_roles-vision =
      role_kept vision _
      ∙ simp (any-append (role_eq vision), any-when (role_eq vision)) (ground arith)

  pub in_roles-embedding : in_roles embedding ≡ (embeds)
  unfolding any roles_of
  in_roles-embedding =
      role_kept embedding _
      ∙ simp (any-append (role_eq embedding), any-when (role_eq embedding)) (ground arith)
