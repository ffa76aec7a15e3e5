-- ===== src/Executor/Clients.antt =====
-- executor.go, the interfaces `LLMClient`, `FileClient` and `GraphClient`, and the state of a run.
-- The outside world is a type `W` that the calls pass along. Beside the interfaces the record holds
-- what the run takes from other packages (notify.Send, textextract.Extract) and from the platform:
-- the order in which `range` yields a map, fresh ids, the time, `%q` and `%d`.
use ocis_workflows.Base.{ℕ, Text, Option, Result, ok}
use ocis_workflows.Base.Actions.{Act, checked}
use ocis_workflows.Executor.Template.{Vars, set_var}

pub record Clients (W : Type 0) : Type 0 where
  pub complete : Text → Text → W → Result Text × W  -- prompt, model
  pub get_content : Text → Text → W → Result (Text × Text) × W  -- content and name
  pub move : Text → Text → Text → W → Option Text × W
  pub copy : Text → Text → Text → W → Option Text × W
  pub comment : Text → Text → Text → W → Option Text × W
  pub resolve_item_id : Text → Text → W → Result Text × W
  pub assign_tag : Text → Text → Text → W → Option Text × W
  pub notify : Text → Text → Text → W → Option Text × W  -- target, title, body
  pub extract : Text → Text → Result Text  -- file name, content
  pub iterate : Vars → W → Vars × W
  pub new_id : W → Text × W
  pub timestamp : W → Text × W
  pub quote : Text → Text
  pub decimal : ℕ → Text

-- The variables of a run, the path that its file has now, and the world.
pub record Frame (W : Type 0) : Type 0 where
  pub vars : Vars
  pub path : Text
  pub world : W

abbrev pub Exec : Type 0 → Type 0 → Type 0
Exec W A = Act (Frame W) A

module _ {W A : Type 0} where
  -- A call of a client that returns a value, and one that returns an error only.
  abbrev pub call : (W → Result A × W) → Exec W A
  call m f = let (r, w) = m f.world in (r, record f { world = w })

module _ {W : Type 0} where
  abbrev pub perform : (W → Option Text × W) → Exec W (Unit {0})
  perform m f = let (r, w) = m f.world in (checked r, record f { world = w })

  abbrev pub remember : Text → Text → Exec W (Unit {0})
  remember key value f = (ok tt, record f { vars = set_var key value f.vars })

  abbrev pub go_to : Text → Exec W (Unit {0})
  go_to path f = (ok tt, record f { path = path })

  abbrev pub current_path : Exec W Text
  current_path f = (ok f.path, f)

  abbrev pub get_vars : Exec W Vars
  get_vars f = (ok f.vars, f)
