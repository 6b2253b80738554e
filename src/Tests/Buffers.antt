-- ===== src/Tests/Buffers.antt =====
-- The theorems on the receive buffer, at concrete inputs.
use smpp.Common.{◌≡◌, ◌+◌, ◌≤◌, ◌<◌, ◌⊎◌, List, [], ◌∷◌, arith}
use smpp.Exceptions.{ok, throws, length_error}
use smpp.Net.FlatBuffer.{FlatBuffer, capacity, size, contents, prepare}
use smpp.Net.FlatBuffer.Invariant.{IsBuffer, Prepared, prepare-cases}
use smpp.Net.FlatBuffer.Queue.{Use, received, consumed, cleared, run, run-run_list}

-- Six bytes of room; two bytes are to be read, and one is free behind them.
abbrev shifted : FlatBuffer
shifted = record { buf = 9 ∷ 9 ∷ 9 ∷ 1 ∷ 2 ∷ 0 ∷ []; in_pos = 3; out_pos = 5; last_pos = 5 }

shifted-IsBuffer : IsBuffer shifted
shifted-IsBuffer = omega arith

prepare-cases_example :
    ((size shifted + 4 ≤ capacity shifted)
      × ((b' : FlatBuffer) × (prepare 4 shifted ≡ ok b') × Prepared 4 shifted b'))
    ⊎ ((capacity shifted < size shifted + 4)
        × (prepare 4 shifted ≡ throws (length_error "static_flat_buffer::prepare buffer overflow")))
prepare-cases_example = prepare-cases shifted shifted-IsBuffer 4

abbrev history : List Use
history = received (3 ∷ 4 ∷ 5 ∷ []) ∷ consumed 2 ∷ received (6 ∷ []) ∷ consumed 9 ∷ cleared ∷ []

run-run_list_example :
    (b' : FlatBuffer) × (run history shifted ≡ ok b')
    × IsBuffer b'
    × (contents b' ≡ [])
    × (capacity b' ≡ capacity shifted)
unfolding contents capacity size
run-run_list_example = run-run_list history shifted shifted-IsBuffer (omega arith)
