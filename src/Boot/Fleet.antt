-- ===== src/Boot/Fleet.antt =====
-- Which projects run a deployment after the start.
use cicd.Prelude.{Bool, List, ◌∷◌}
use cicd.Config.{Config}
use cicd.Settings.{Settings}
use cicd.Queue.{Lane}
use cicd.Projects.{Project}

pub data Holds (p : Project) : List Project → Type 0 where
  first : {ps : List Project} → Holds p (p ∷ ps)
  later : {q : Project} {ps : List Project} → Holds p ps → Holds p (q ∷ ps)

abbrev runs : Lane → Bool
runs l = l.queue.is_running
