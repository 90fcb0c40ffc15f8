-- ===== src/Tests/Descriptors.antt =====
-- Tests of the reception of descriptors.
use misc_verilog_cores.Base.{ℕ, ◌≡◌, ◌⊎◌, refl, pos, negsuc, ok, take, List, [], ◌∷◌, ◌++◌, arith}
use misc_verilog_cores.Ulpi.{Transfer, sig0, sig1, datax_stop}
use misc_verilog_cores.Ulpi.Step.Recv.{less_two}
use misc_verilog_cores.Descriptor.{desc_recv}
use misc_verilog_cores.Descriptor.Laws.{desc_run, descriptor_received, desc_recv_stuck}
use misc_verilog_cores.Tests.{received, good_cycles, link_bus}

descriptor_received_example :
    let w : List ℕ = 0x12 ∷ 0x34 ∷ 0xF3 ∷ 0x38 ∷ 0x99 ∷ [] in
    (y : Transfer) × (desc_run (good_cycles ++ link_bus sig1 sig1 0x99 ∷ []) received
      ≡ ok (pos 1, y))
    × (y.stage ≡ datax_stop)
    × (y.rx_len ≡ less_two 5)
    × (take 5 y.rx ≡ w)
descriptor_received_example =
    descriptor_received good_cycles (link_bus sig1 sig1 0x99) received refl refl refl (ground arith)
      refl refl refl (omega arith)

abbrev stopped : Transfer
stopped = record received { stage = datax_stop }

desc_recv_stuck_example :
    (desc_recv stopped (link_bus sig1 sig0 0x00) ≡ ok (negsuc 0, stopped))
    ⊎ (desc_recv stopped (link_bus sig1 sig0 0x00) ≡ ok (pos 0, stopped))
desc_recv_stuck_example = desc_recv_stuck stopped (link_bus sig1 sig0 0x00) refl
