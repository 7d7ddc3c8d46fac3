-- ===== src/Iscp/Resume/Tests.antt =====
-- The resume loops at a concrete run.
use iscp_rs.Base.{refl, true, false, List, [], ◌∷◌}
use iscp_rs.Errors.{ok, err, timeout}
use iscp_rs.Iscp.Resume.{Turn, renewed, up, upstream_turn, downstream_turn, turns, start}
use iscp_rs.Iscp.Resume.Tokens.{Kept, turns-start}

-- The first answer is late, the second comes with a token, and the connection is lost again.
abbrev lossy : List Turn
lossy =
    up (err (timeout "")) false
    ∷ up (ok (2, "b")) false
    ∷ renewed
    ∷ up (ok (3, "c")) false
    ∷ up (ok (3, "c")) true
    ∷ []

turns-start_example :
    Kept "a" (turns (upstream_turn false) (start true "a" 1) lossy)
    × Kept "a" (turns (downstream_turn false) (start true "a" 1) lossy)
turns-start_example = turns-start "a" 1 true false lossy refl
