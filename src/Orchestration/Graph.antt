-- ===== src/Orchestration/Graph.antt =====
-- `validate_graph`, packages/agent-orchestration/src/lib.rs: which graphs it accepts.
use mundusx.Prelude.{
  Unique, length-distinct-Unique, length-Unique, contains-distinct, any-not, all-map, ◌≡◌, ◌↔◌,
  refl, sym, ◌∙◌, inl, inr, String, List, [], ◌∷◌, Bool, true, false, not, ◌||◌, arith, ok, length,
  All, All-map, Bool-cases, is_nil, all, contains, distinct, ◌==◌,
}
use mundusx.Orchestration.{AgentTask, ids_of, check_dependencies, validate_graph}
use mundusx.Orchestration.Cycles.{Known}

abbrev Within : List String → List AgentTask → Type 0
Within ids tasks = All (λ t. all (contains ids) t.dependencies ≡ true) tasks

check_dependencies-ok_iff :
    (ids : List String) (tasks : List AgentTask)
    → (check_dependencies ids tasks ≡ ok tt) ↔ Within ids tasks
unfolding check_dependencies
check_dependencies-ok_iff ids [] = ((λ h. tt), (λ h. refl))
check_dependencies-ok_iff ids (t ∷ tasks) = elim (Bool-cases (all (contains ids) t.dependencies)) [
  | inl t_ok ↦
      rw (any-not (contains ids) t.dependencies, t_ok)
        (
          (λ h. (refl, (check_dependencies-ok_iff ids tasks).0 h)),
          (λ h. (check_dependencies-ok_iff ids tasks).1 h.1),
        )
  | inr bad ↦ rw (any-not (contains ids) t.dependencies, bad) ((λ h. cc), (λ h. cc (h.0)))
]

Within-distinct :
    (ids : List String) (tasks : List AgentTask) → Within (distinct ids) tasks ↔ Within ids tasks
Within-distinct ids tasks = (
  All-map _ _ tasks (λ t. all-map _ _ t.dependencies (λ id h. sym (contains-distinct ids id) ∙ h)),
  All-map _ _ tasks (λ t. all-map _ _ t.dependencies (λ id h. contains-distinct ids id ∙ h)),
)

-- A graph with tasks, whose ids are not empty and differ, and whose dependencies are ids of tasks.
pub record IsGraph (tasks : List AgentTask) : Type 0 where
  pub some_task : is_nil tasks ≡ false
  pub unique : Unique (ids_of tasks)
  pub non_empty : contains (ids_of tasks) "" ≡ false
  pub known : Known tasks

length-ids : (ts : List AgentTask) → length (ids_of ts) ≡ length ts
length-ids [] = refl
length-ids (u ∷ ts) = omega (arith, length-ids ts)

abbrev ids_refused : List AgentTask → Bool
ids_refused ts =
    not (length (distinct (ids_of ts)) == length ts) || contains (distinct (ids_of ts)) ""

ids_refused-length :
    (ts : List AgentTask)
    → ids_refused ts ≡ false
    → length (distinct (ids_of ts)) ≡ length (ids_of ts)
ids_refused-length ts good = ground (arith, length-ids ts)

graph_accepted : (ts : List AgentTask) → IsGraph ts → ids_refused ts ≡ true → ⊥
graph_accepted ts g bad = ground (
  arith,
  length-ids ts,
  length-Unique (ids_of ts) g.unique,
  contains-distinct (ids_of ts) "",
  g.non_empty,
)

-- `validate_graph` accepts exactly the tasks of which there is at least one, whose ids are unique and
-- not empty, and whose dependencies are all ids of tasks.
pub validate_graph-ok_iff :
    (tasks : List AgentTask) → (validate_graph tasks ≡ ok tt) ↔ IsGraph tasks
unfolding validate_graph
validate_graph-ok_iff [] = ((λ h. cc), (λ g. cc (g.some_task)))
validate_graph-ok_iff (t ∷ tasks) = elim (Bool-cases (ids_refused (t ∷ tasks))) [
  | inl bad ↦ rw bad ((λ h. cc), (λ g. absurd (graph_accepted (t ∷ tasks) g bad)))
  | inr good ↦ rw good (
    (λ h. record {
      some_task = refl;
      unique = length-distinct-Unique (ids_of (t ∷ tasks)) (ids_refused-length (t ∷ tasks) good);
      non_empty = ground (arith, contains-distinct (ids_of (t ∷ tasks)) "");
      known =
          (Within-distinct (ids_of (t ∷ tasks)) (t ∷ tasks)).0
            ((check_dependencies-ok_iff (distinct (ids_of (t ∷ tasks))) (t ∷ tasks)).0 h);
    }),
    (λ g.
        (check_dependencies-ok_iff (distinct (ids_of (t ∷ tasks))) (t ∷ tasks)).1
          ((Within-distinct (ids_of (t ∷ tasks)) (t ∷ tasks)).1 g.known)),
  )
]
