-- ===== src/Worker.antt =====
-- internal/worker/worker.go: the tasks in the background, each as the body of its loop, which is run
-- at a tick. What the container engine and the disk say is the parameter `Engine`.
pub mod Reconcile
pub mod Quotas
use gocontrolpanel.Base.{ℕ, Option, none, some}
use gocontrolpanel.Go.Strings.{Text, codes}

-- `ContainerInspect`: an error, an error that says there is no such container, or a state.
pub data Inspect : Type 0 where
  unreachable absent : Inspect
  present : (status : Text) → Inspect

-- The traffic since the container was started, in bytes: the source's megabytes are these divided by
-- 2 ^ 20, which a float64 holds without loss.
pub record Traffic : Type 0 where
  pub net_rx : ℕ
  pub net_tx : ℕ

pub record Engine : Type 0 where
  pub inspect : Text → Inspect
  pub stats : Text → Option Traffic
  pub disk_bytes : Text → Option ℕ

unfoldable pub state_of_inspect : Inspect → Option Text
state_of_inspect unreachable = none
state_of_inspect absent = some (codes "missing")
state_of_inspect (present status) = some status

-- `Manager.State` of internal/dockerx/manager.go.
unfoldable pub state : Engine → Text → Option Text
unfolding state_of_inspect
state engine name = state_of_inspect (engine.inspect name)
