-- ===== src/Tests/Device.antt =====
-- Tests of the device.
use misc_verilog_cores.Base.{◌≡◌, refl, pos, inr, ok, some, List, [], ◌∷◌, arith}
use misc_verilog_cores.Ulpi.{Bus, eop, datax_body, sig0, sig1, out_token, stepped}
use misc_verilog_cores.Ulpi.Step.Token.{token_send_step}
use misc_verilog_cores.Ulpi.Run.{Finished, ulpi_step_with}
use misc_verilog_cores.Ulpi.Listen.{phy_bus}
use misc_verilog_cores.Func.{Func, func_busy}
use misc_verilog_cores.Func.Step.{usbf_step}
use misc_verilog_cores.Func.Token.{token_delivery, with_token}
use misc_verilog_cores.Func.Deaf.{func_run, data_never_received}
use misc_verilog_cores.Tests.{out_transfer, idle_device}

token_delivery_example :
    ulpi_step_with token_send_step usbf_step 7 out_transfer idle_device
    ≡ ok (
        some (record {
          code = pos 1;
          xfer = record out_transfer { stage = eop };
          user = with_token out_token out_transfer idle_device;
          bus = phy_bus 1 0 0x4D 0x00;
        }))
token_delivery_example = token_delivery 7 out_transfer idle_device (omega arith) refl refl

-- The start of a DATA0 packet as the host sends it.
abbrev data0_cycles : List Bus
data0_cycles =
    phy_bus sig1 sig1 0x00 0xFF
    ∷ phy_bus sig1 sig0 0x5D 0x00
    ∷ phy_bus sig1 sig1 0xC3 0x00
    ∷ phy_bus sig1 sig1 0x12 0x00
    ∷ []

data_never_received_example :
    (d : Finished Func) × (g : Func) × (o : Bus) × (ulpi_step_with token_send_step usbf_step 7
        out_transfer idle_device
      ≡ ok (some d))
    × (d.code ≡ pos 1)
    × (func_run data0_cycles d.user d.bus ≡ stepped (pos 0) g o)
    × (g.xfer.rx ≡ idle_device.xfer.rx)
    × (g.xfer.rx_ptr ≡ idle_device.xfer.rx_ptr)
    × (g.state ≡ func_busy)
    × (g.step ≡ 1)
    × (g.xfer.stage ≡ eop)
data_never_received_example =
    data_never_received 7 out_transfer idle_device data0_cycles (omega arith) (inr refl) refl
      (ground arith)

abbrev receiving_device : Func
receiving_device = record idle_device { xfer = record (idle_device.xfer) { stage = datax_body } }
