-- ===== src/Orchestrator/Run/Rules.antt =====
-- The proof rule for a call of a port in a run: it changes the world and nothing else.
use ai_agent_hub_project_ome.Base.Exn.{
  Outcome, ok, raised, stopped, Exn, Stop, Exec, continue, ◌>>=◌,
}
use ai_agent_hub_project_ome.Base.Rules.{Ends}
use ai_agent_hub_project_ome.Orchestrator.Run.{Session, on_world}

module _ {W A B : Type 0} (Q : Outcome B → Session W → Type 0) (m : Exec W A)
    (f : A → Exec (Session W) B) (s : Session W)
    (good : (a : A) (w : W) → Ends Q (f a (record s { world = w })))
    (bad : (e : Exn) (w : W) → Q (raised e) (record s { world = w }))
    (cut : (x : Stop) (w : W) → Q (stopped x) (record s { world = w })) where
  continue-world : (r : Outcome A) (w : W) → Ends Q (continue r f (record s { world = w }))
  continue-world (ok a) w = good a w
  continue-world (raised e) w = bad e w
  continue-world (stopped x) w = cut x w

  -- A port is called, and the block goes on with its answer.
  pub world-bind : Ends Q ((on_world m >>= f) s)
  world-bind = let (r, w) = m s.world in continue-world r w
