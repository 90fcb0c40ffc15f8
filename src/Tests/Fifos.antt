-- ===== src/Tests/Fifos.antt =====
-- Packets through the FIFO's test bench at concrete inputs.
use misc_verilog_cores.Base.{
  ◌≡◌, refl, false, pos, List, [], ◌∷◌, take, Option, none, some, ok, arith,
}
use misc_verilog_cores.Ulpi.{sig0, sig1}
use misc_verilog_cores.Fifo.{Tb}
use misc_verilog_cores.Fifo.Beats.{Beat, beats}
use misc_verilog_cores.Fifo.Stored.{store_run, ready_count, packet_stored}
use misc_verilog_cores.Fifo.Fetched.{fetch_run, presented, packet_fetched}
use misc_verilog_cores.Tests.{quiet, three_bytes}

enough : ready_count (0 ∷ 1 ∷ 1 ∷ 0 ∷ 1 ∷ []) ≡ 3
unfolding ready_count
enough = refl

-- Ready, not ready, ready twice, not ready, ready.
packet_stored_example :
    (s : Tb) × (store_run (1 ∷ 0 ∷ 1 ∷ 1 ∷ 0 ∷ 1 ∷ []) quiet three_bytes []
      ≡ ok (s, beats (7 ∷ 8 ∷ 9 ∷ [])))
    × (s.code ≡ pos 1)
    × (s.error ≡ false)
    × (s.sigs.w_vld ≡ sig0)
packet_stored_example =
    packet_stored 1 (0 ∷ 1 ∷ 1 ∷ 0 ∷ 1 ∷ []) quiet three_bytes refl refl (omega arith) (omega arith)
      (omega (arith, enough))

-- A wait state, and a wrong second byte.
abbrev wrong_packet : List (Option Beat)
wrong_packet = some (7, sig0) ∷ none ∷ some (0, sig1) ∷ []

is_packet : presented wrong_packet ≡ beats (7 ∷ 0 ∷ [])
unfolding presented beats
is_packet = refl

packet_fetched_example :
    (s : Tb) × (fetch_run wrong_packet quiet three_bytes false ≡ ok s)
    × (s.code ≡ pos 1)
    × (s.st.tail ≡ 2)
    × (s.error ≡ false → take 2 three_bytes.buf ≡ 7 ∷ 0 ∷ [])
    × (take 2 three_bytes.buf ≡ 7 ∷ 0 ∷ [] → s.error ≡ false)
packet_fetched_example =
    packet_fetched wrong_packet 7 (0 ∷ []) quiet three_bytes refl refl (omega arith) is_packet
