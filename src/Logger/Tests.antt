-- ===== src/Logger/Tests.antt =====
-- Lines of the log, and the theorem at them.
use debug_learning.Prelude.{codes, ◌≡◌, refl, [], ◌∷◌}
use debug_learning.Logger.{log, log_iteratorable, log_key_values}
use debug_learning.Logger.Joining.{log-join}

log-line : log (codes "7") (codes "[INFO]" ∷ codes "pid" ∷ []) ≡ codes "[7][INFO] pid \n"
unfolding log
log-line = refl

log-join_example :
    (log_iteratorable (codes "1" ∷ codes "22" ∷ []) ≡ codes "[1,22]")
    × (log_key_values ((codes "a", codes "1") ∷ []) ≡ codes "{a:1}")
log-join_example = log-join (codes "1" ∷ codes "22" ∷ []) ((codes "a", codes "1") ∷ [])
