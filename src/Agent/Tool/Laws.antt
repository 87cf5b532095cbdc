-- ===== src/Agent/Tool/Laws.antt =====
-- The registry of tool.rs: what registration leaves behind on every branch.
use mundusx.Prelude.{
  ◌≡◌, ◌≢◌, String, none, some, false, ok, is_blank, if◌then◌else◌, str_eq, arith, ◌↔◌,
}
use text.Mathlib.TextPositions.{eq_refl}
use mundusx.Prelude.Maps.{get, get-insert}
use mundusx.Agent.Tool.{Tool, ToolRegistry, register, execute}

module _ {V C W : Type 0} (tools : ToolRegistry V C W) (tool : Tool V C W) where
  -- After a registration, refused or not, a name finds what it found before, but for the name of the
  -- tool if that is not blank: it finds the tool. So a duplicate that is refused has replaced the tool
  -- that was registered under its name.
  pub register-get :
      (j : String)
      → get (register tools tool).1 j ≡ (
          if is_blank tool.definition.name
          then get tools j
          else if str_eq tool.definition.name j
          then some tool
          else get tools j)
  unfolding register
  register-get j = ground (arith, get-insert tools tool.definition.name j tool)

  -- A registration succeeds exactly when the tool's name is not blank and is not registered yet.
  pub register-ok_iff :
      ((register tools tool).0 ≡ ok tt)
      ↔ ((is_blank tool.definition.name ≡ false) × (get tools tool.definition.name ≡ none))
  unfolding register
  register-ok_iff = (λ h. (ground arith, ground arith), λ h. ground arith)

  -- If a tool of that name, which is not blank, is registered already, the registration reports an
  -- error, and a later call by that name runs the new tool all the same.
  pub register_duplicate :
      (old : Tool V C W) (arguments : V) (context : C) (w : W)
      → is_blank tool.definition.name ≡ false
      → get tools tool.definition.name ≡ some old
      → ((register tools tool).0 ≢ ok tt)
        × (execute (register tools tool).1 tool.definition.name arguments context w
            ≡ tool.execute arguments context w)
  unfolding register execute
  register_duplicate old arguments context w named found = (
    ground arith,
    ground (
      arith,
      get-insert tools tool.definition.name tool.definition.name tool,
      eq_refl tool.definition.name,
    ),
  )
