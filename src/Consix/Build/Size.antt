-- ===== src/Consix/Build/Size.antt =====
-- How many steps `ConstructStepForNoThreat` returns at most.
use chess_set.Base.{◌≤◌, Bool, true, false, if◌then◌else◌, length, arith}
use chess_set.Consix.State.{Line, Search}
use chess_set.Consix.Run.Returns.{Returns, pure-Returns, bind-Returns}
use chess_set.Consix.Defend.Size.{AtMost, narrow-AtMost, best_steps-AtMost}
use chess_set.Consix.Build.{deep_steps, quiet_steps, construct_step_for_no_threat}

-- `ConstructStepForNoThreat` returns at most 25 steps, and at most 6 in a search for two threats.
pub construct_step_for_no_threat-AtMost :
    (si1 si2 : Line) (con_search1 : Bool) (g : Search)
    → length (construct_step_for_no_threat si1 si2 con_search1 g).0
      ≤ (if con_search1 then 6 else 25)
unfolding construct_step_for_no_threat deep_steps quiet_steps
construct_step_for_no_threat-AtMost si1 si2 con_search1 g = (sizes con_search1).result g
  where
    sizes :
        (c : Bool) → Returns (AtMost (if c then 6 else 25)) (construct_step_for_no_threat si1 si2 c)
    sizes true = bind-Returns _ (λ one.
        bind-Returns _ (λ two. bind-Returns _ (λ three. pure-Returns _ (narrow-AtMost 5 _))))
    sizes false = bind-Returns _ (λ one. bind-Returns _ (λ two. bind-Returns _ (λ r.
        bind-Returns _ (λ all.
          best_steps-AtMost 50 100 40 25 si1.side _ (omega arith) (omega arith) (omega arith)))))
