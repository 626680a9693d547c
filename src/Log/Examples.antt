-- ===== src/Log/Examples.antt =====
-- Two lines at the end of the circle.
use esp32aging.Base.{◌≡◌, refl, true, none, some, [], ◌∷◌, arith}
use esp32aging.Log.{
  Log, ok, storage_read_record, cyclic_line, storage_reset_cyclic_position, get_index_from_flash,
}
use esp32aging.Log.Laws.{
  Line, write_lines, read-write_lines, write_line, restart-overwrites, NoNul, line_of,
}

abbrev start : Log
start = record { current_index = 2999; file = record { size = 0; at = λ _. 255 }; log_index = 0 }

abbrev first : Line
first = record { stamp = 49 ∷ 50 ∷ []; pn = some (80 ∷ []); str = 111 ∷ 107 ∷ [] }

abbrev second : Line
second = record { stamp = 49 ∷ 51 ∷ []; pn = none; str = 101 ∷ 114 ∷ 114 ∷ [] }

second-NoNul : NoNul (line_of second)
unfolding cyclic_line
second-NoNul = (
  omega arith,
  (omega arith, (omega arith, (omega arith, (omega arith, (omega arith, (omega arith, tt)))))),
)

-- "13,,err" lies at the first place.
read-write_lines_example :
    storage_read_record true 0 (some 200) (write_lines (first ∷ second ∷ []) start)
    ≡ (ok, 49 ∷ 51 ∷ 44 ∷ 44 ∷ 101 ∷ 114 ∷ 114 ∷ [])
unfolding cyclic_line
read-write_lines_example =
    read-write_lines (first ∷ second ∷ []) start 1 200 second (omega arith) refl (omega arith)
      (
        omega arith,
        (
          omega arith,
          (omega arith, (omega arith, (omega arith, (omega arith, (omega arith, tt))))),
        ),
      )
      (omega arith)

get_index_from_flash_test :
    ((get_index_from_flash 3000 start).current_index ≡ 0)
    × ((storage_reset_cyclic_position start).current_index ≡ 0)
unfolding get_index_from_flash storage_reset_cyclic_position
get_index_from_flash_test = (refl, refl)

restart-overwrites_example :
    storage_read_record true 2999 (some 200) (
      write_line second
        (get_index_from_flash (write_line first start).log_index (write_line first start)))
    ≡ (ok, 49 ∷ 51 ∷ 44 ∷ 44 ∷ 101 ∷ 114 ∷ 114 ∷ [])
unfolding cyclic_line
restart-overwrites_example =
    restart-overwrites first second start 200 (omega arith) second-NoNul (omega arith)
