-- ===== src/Swarm/Requests.antt =====
-- Which prompts Project Swarm coordinates, apps/cli/src/project_swarm.rs.
use mundusx.Prelude.{
  String, List, [], ◌∷◌, Bool, true, false, ◌&&◌, any, filter, length, leb, if◌then◌else◌,
  contains_text, to_ascii_lowercase,
}

abbrev request_markers : List String
request_markers =
    "project swarm" ∷ "parallel coding" ∷ "parallel code" ∷ "code in parallel" ∷ "work in parallel"
    ∷ "separate functions at the same time" ∷ []

abbrev refusal_markers : List String
refusal_markers =
    "do not use project swarm" ∷ "don't use project swarm" ∷ "without project swarm"
    ∷ "use one worker" ∷ "single worker" ∷ "work sequentially" ∷ []

abbrev scope_markers : List String
scope_markers =
    "complete api" ∷ "entire api" ∷ "crud api" ∷ "full api" ∷ "build an api" ∷ "create an api"
    ∷ "build a frontend" ∷ "create a frontend" ∷ "build a backend" ∷ "create a backend"
    ∷ "build an app" ∷ "create an app" ∷ "build an application" ∷ "create an application"
    ∷ "build a website" ∷ "create a website" ∷ "build a dashboard" ∷ "create a dashboard"
    ∷ "react ui" ∷ "ui ux" ∷ "ui/ux" ∷ "complete ui" ∷ "full ui" ∷ "full stack" ∷ "full-stack"
    ∷ "end-to-end" ∷ "end to end" ∷ "from scratch" ∷ "multiple modules" ∷ "several modules" ∷ []

abbrev build_actions : List String
build_actions =
    "add " ∷ "build " ∷ "create " ∷ "develop " ∷ "implement " ∷ "migrate " ∷ "refactor "
    ∷ "rewrite " ∷ []

abbrev domains : List String
domains =
    " api" ∷ "frontend" ∷ "front end" ∷ "backend" ∷ "back end" ∷ "database" ∷ "authentication"
    ∷ " test" ∷ "documentation" ∷ []

abbrev browser_markers : List String
browser_markers =
    "frontend" ∷ "front-end" ∷ "website" ∷ "web app" ∷ "user interface" ∷ "react" ∷ "vue" ∷ "svelte"
    ∷ "angular" ∷ []

abbrev mentions : String → List String → Bool
mentions value markers = any (contains_text value) markers

unfoldable pub requested : String → Bool
requested prompt = mentions (to_ascii_lowercase prompt) request_markers

unfoldable pub should_coordinate : String → Bool
should_coordinate prompt =
    let value = to_ascii_lowercase prompt in
    if mentions value refusal_markers
    then false
    else if requested prompt
    then true
    else if mentions value scope_markers
    then true
    else mentions value build_actions && leb 2 (length (filter (contains_text value) domains))

unfoldable pub requires_browser_acceptance : String → Bool
requires_browser_acceptance objective = mentions (to_ascii_lowercase objective) browser_markers
