-- ===== src/TestSwarm/Names.antt =====
-- Names of tasks: what `parse_task` accepts, and what `safe_name` leaves, apps/cli/src/swarm.rs.
use Prim.Native.String.count
use Prim.Native.String.append
use Prim.Native.String.{count}
use mundusx.Prelude.{
  ℕ, zero, suc, ◌≤◌, ◌≡◌, refl, String, push_str, Option, none, some, Bool, true, false, ◌&&◌, ◌||◌,
  not, Result, ok, err, ◌==◌, if◌then◌else◌, str_eq, is_empty, trim, contains_char, arith,
  Bool-cases, inl, inr, Char, code, all_chars, map_chars, keep_before, trim_start_matches,
  trim_end_matches,
}
use mundusx.TestSwarm.{
  TestTask, split_once, task_of_parts, task_of_split, parse_task, is_safe_char, is_dash, take_chars,
  safe_name,
}
use mundusx.TestSwarm.Plans.{assignment_of}

module _ (p : Char → Bool) where
  all_chars-map_chars :
      (f : Char → Char)
      → ((c : Char) → p (f c) ≡ true)
      → (s : String) → all_chars p (map_chars f s) ≡ true
  unfolding all_chars map_chars
  all_chars-map_chars f h String.[] = refl
  all_chars-map_chars f h (String.◌∷◌ c s) = ground (arith, h c, all_chars-map_chars f h s)

  all_chars-take_chars :
      (n : ℕ) (s : String) → all_chars p s ≡ true → all_chars p (take_chars n s) ≡ true
  unfolding all_chars take_chars
  all_chars-take_chars zero s h = refl
  all_chars-take_chars (suc n) String.[] h = refl
  all_chars-take_chars (suc n) (String.◌∷◌ c s) h = ground (arith, h, all_chars-take_chars n s)

  all_chars-trim_start :
      (q : Char → Bool) (s : String)
      → all_chars p s ≡ true
      → all_chars p (trim_start_matches q s) ≡ true
  unfolding all_chars trim_start_matches
  all_chars-trim_start q String.[] h = refl
  all_chars-trim_start q (String.◌∷◌ c s) h = ground (arith, h, all_chars-trim_start q s)

  all_chars-keep_before :
      (matches : Bool) (c : Char) (s : String)
      → p c ≡ true
      → all_chars p s ≡ true
      → all_chars p (keep_before matches c s) ≡ true
  unfolding all_chars
  all_chars-keep_before true c String.[] h t = refl
  all_chars-keep_before false c String.[] h t = ground (arith, h)
  all_chars-keep_before matches c (String.◌∷◌ d s) h t = ground (arith, h, t)

  all_chars-trim_end :
      (q : Char → Bool) (s : String)
      → all_chars p s ≡ true
      → all_chars p (trim_end_matches q s) ≡ true
  unfolding all_chars trim_end_matches
  all_chars-trim_end q String.[] h = refl
  all_chars-trim_end q (String.◌∷◌ c s) h =
      all_chars-keep_before (q c) c (trim_end_matches q s) (ground (arith, h))
        (all_chars-trim_end q s (ground (arith, h)))

count-take_chars : (n : ℕ) (s : String) → count (take_chars n s) ≤ n
unfolding take_chars
count-take_chars zero s = omega arith
count-take_chars (suc n) String.[] = omega arith
count-take_chars (suc n) (String.◌∷◌ c s) =
    omega (arith, count.cons c (take_chars n s), count-take_chars n s)

safe_char : (c : Char) → is_safe_char (if is_safe_char c then c else "-") ≡ true
safe_char c = elim (Bool-cases (is_safe_char c)) [ inl hit ↦ rw hit hit | inr miss ↦ rw miss refl ]

-- What `safe_name` makes of a task's name, for its place in the name of the log file, has at most 80
-- characters, all of them ASCII letters, digits, dashes and underscores.
pub safe_name-IsSafe :
    (name : String)
    → (all_chars is_safe_char (safe_name name) ≡ true) × (count (safe_name name) ≤ 80)
unfolding safe_name
safe_name-IsSafe name = (
  all_chars-take_chars is_safe_char 80 _ (
      all_chars-trim_end is_safe_char is_dash _ (
        all_chars-trim_start is_safe_char is_dash _
          (all_chars-map_chars is_safe_char _ safe_char name))),
  count-take_chars 80 _,
)

-- What the code asks of a task.
abbrev pub is_valid : TestTask → Bool
is_valid task =
    not (is_empty task.name || is_empty task.command)
    && not (
        contains_char task.name "/"
        || contains_char task.name "\\"
        || str_eq task.name "."
        || str_eq task.name "..")

abbrev pub Checked : Result String TestTask → Type 0
Checked (err e) = Unit
Checked (ok task) = is_valid task ≡ true

task_of_parts-Checked : (value name command : String) → Checked (task_of_parts value name command)
task_of_parts-Checked value name command = elim (Bool-cases (is_empty name || is_empty command)) [
  | inl blank ↦ rw blank tt
  | inr filled ↦
      elim (Bool-cases (
        contains_char name "/" || contains_char name "\\" || str_eq name "." || str_eq name "..")) [
          | inl path ↦ rw (filled, path) tt
          | inr plain ↦ rw (filled, plain) (ground (arith, filled, plain))
        ]
]

task_of_split-Checked :
    (value : String) (parts : Option (String × String)) → Checked (task_of_split value parts)
task_of_split-Checked value none = tt
task_of_split-Checked value (some (name, command)) =
    task_of_parts-Checked value (trim name) (trim command)

split_once-push_str :
    (separator : Char) (a b : String)
    → all_chars (λ c. not (code c == code separator)) a ≡ true
    → split_once separator (push_str a (push_str (String.◌∷◌ separator String.[]) b)) ≡ some (a, b)
unfolding split_once all_chars
split_once-push_str separator String.[] b h = simp (append.cons, append.nil) (ground arith)
split_once-push_str separator (String.◌∷◌ c a) b h =
    let other : (code c == code separator) ≡ false = ground (arith, h) in
    rw
      (
        append.cons c a (push_str (String.◌∷◌ separator String.[]) b),
        other,
        split_once-push_str separator a b (ground (arith, h)),
      )
      refl

valid-task_of_parts :
    (value : String) (task : TestTask)
    → is_valid task ≡ true
    → task_of_parts value task.name task.command ≡ ok task
valid-task_of_parts value task v =
    let filled : (is_empty task.name || is_empty task.command) ≡ false = ground (arith, v) in
    let plain : (contains_char task.name "/"
          || contains_char task.name "\\"
          || str_eq task.name "."
          || str_eq task.name "..")
        ≡ false =
      ground (arith, filled, v) in
    simp (filled, plain)

-- Everything that `parse_task` accepts has a name and a command; the name holds no slash or
-- backslash and is not "." or "..".
pub parse_task-Checked : (value : String) → Checked (parse_task value)
unfolding parse_task
parse_task-Checked value = task_of_split-Checked value (split_once "=" value)

-- A task of a manifest is written as NAME=COMMAND and parsed again. It comes back as it was if
-- it is one that `parse_task` accepts, its texts have no blanks at their ends and there is no "=" in its name.
pub parse_task-assignment_of :
    (task : TestTask)
    → is_valid task ≡ true
    → all_chars (λ c. not (code c == 61)) task.name ≡ true
    → trim task.name ≡ task.name
    → trim task.command ≡ task.command
    → parse_task (assignment_of (record { name = task.name; command = task.command })) ≡ ok task
unfolding parse_task
parse_task-assignment_of task v plain name command =
    rw (split_once-push_str "=" task.name task.command plain, name, command)
      (valid-task_of_parts _ task v)
