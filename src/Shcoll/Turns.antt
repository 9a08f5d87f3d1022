-- ===== src/Shcoll/Turns.antt =====
-- osss-ucx/src/shcoll/src: runs given by the list of their turns.
use paw.Prelude.{List, [], ◌∷◌}
use paw.Shcoll.{System, Turn, Reach, next, step}

abbrev pub run : List Turn → System → System
run [] s = s
run (turn ∷ turns) s = run turns (step turn s)

pub run-Reach : {s : System} (turns : List Turn) (t : System) → Reach s t → Reach s (run turns t)
run-Reach [] t r = r
run-Reach (turn ∷ turns) t r = run-Reach turns (step turn t) (next turn r)
