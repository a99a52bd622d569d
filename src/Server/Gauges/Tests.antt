-- ===== src/Server/Gauges/Tests.antt =====
-- The server's metrics all have names of their own, so that starting it does not panic.
use ws_chat.Base.{ℕ, ◌≡◌, refl, true, [], ◌++◌, same_text}
use ws_chat.Metrics.{Memory, new_cell, new_vec, gauge_func}
use ws_chat.Metrics.Names.{all_new}
use ws_chat.Server.State.{Ring, App}
use ws_chat.Server.Limiters.{Limiters}
use ws_chat.Server.Gauges.{app_metrics, new_metric, new_metrics, state_metrics}

all_named_apart :
    (drops : Ring → ℕ) (a : App) (l : Limiters) (m : Memory)
    → all_new [] ((new_metrics app_metrics m).0 ++ state_metrics drops a l) ≡ true
unfolding new_metrics new_metric new_cell new_vec gauge_func state_metrics same_text
all_named_apart drops a l m = refl
