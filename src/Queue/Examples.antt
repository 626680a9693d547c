-- ===== src/Queue/Examples.antt =====
-- A queue made twice, released and made again.
use esp32aging.Base.{true, none, some, List, [], ◌∷◌}
use esp32aging.Queue.{Use, creates, deletes, run_uses, empty_world}
use esp32aging.Queue.Laws.{IsOwned, run_uses-empty_IsOwned}

abbrev uses : List Use
uses =
    creates true 8 16 (some 3) none
    ∷ creates true 8 16 (some 3) (some 5)
    ∷ creates true 9 16 (some 4) (some 6)
    ∷ deletes true
    ∷ creates true 9 16 (some 4) (some 6)
    ∷ []

run_uses-empty_IsOwned_example : IsOwned (run_uses empty_world uses)
run_uses-empty_IsOwned_example = run_uses-empty_IsOwned uses
