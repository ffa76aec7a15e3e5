-- ===== src/Tests/Running.antt =====
-- The executor on concrete inputs.
use ocis_workflows.Base.{text, teq, some, [], ◌∷◌, ◌≡◌, refl}
use ocis_workflows.Executor.Order.{ordered_nodes, walk, enough, start_id}
use ocis_workflows.Executor.Order.Reach.{IsWalk, ordered_nodes-IsWalk}
use ocis_workflows.Executor.Nodes.{dispatch_action}
use ocis_workflows.Executor.Nodes.Effects.{Tracks, dispatch_action-Tracks}
use ocis_workflows.Executor.Run.Shape.{Shape}
use ocis_workflows.Tests.Data.{circle, clients, frame, move_params}

ordered_nodes-IsWalk_example :
    (walk circle (enough circle) (start_id circle.nodes ∷ []) [] [] ≡ some (ordered_nodes circle))
    × IsWalk circle (start_id circle.nodes) (ordered_nodes circle)
unfolding start_id teq
ordered_nodes-IsWalk_example = ordered_nodes-IsWalk circle refl

dispatch_action-Tracks_example :
    Tracks
      (text "move")
      frame.path
      (dispatch_action clients (text "auth") (text "move") (some move_params) frame)
dispatch_action-Tracks_example =
    dispatch_action-Tracks clients (text "auth") (text "move") (some move_params) frame
