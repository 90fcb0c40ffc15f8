-- ===== src/Tests/Packets.antt =====
-- Packets of the test cases at concrete inputs.
use misc_verilog_cores.Base.{
  ◌+◌, ◌*◌, ◌%◌, ◌≡◌, ◌<◌, refl, true, false, [], ◌∷◌, ◌++◌, take, drop, ok, ◌>>=◌, arith,
}
use misc_verilog_cores.Crc.{crc5_check, crc16_check}
use misc_verilog_cores.Ulpi.{out_token}
use misc_verilog_cores.Host.{Host, host_bulk_out}
use misc_verilog_cores.Cases.{bulk_in_ep, bulk_out_ep, start_bulk_out}
use misc_verilog_cores.Cases.Ddr.{DdrOut, ddr_cmd, tc_ddr3out_cmd}
use misc_verilog_cores.Cases.Parity.{adjust_crc, adjusted_host, tc_parity_xfer}
use misc_verilog_cores.Cases.Prepared.{drawn, ValidToken, bulk_out_prepared}
use misc_verilog_cores.Cases.Commands.{
  drawn_words, command_of, words_of, address_of, id_of, ddr3_store_sent,
}
use misc_verilog_cores.Cases.Corrupt.{corrupted_refused}
use misc_verilog_cores.Tests.{idle_host, calls}

bulk_out_prepared_example :
    (h : Host) × (start_bulk_out calls.rand 0 16 bulk_out_ep idle_host ≡ ok h)
    × (h.op ≡ host_bulk_out)
    × (h.xfer.type ≡ out_token)
    × (h.xfer.tx_len ≡ 16)
    × (h.xfer.tx_ptr ≡ 0)
    × (h.xfer.endpoint ≡ bulk_out_ep)
    × (h.xfer.crc1 < 256)
    × ValidToken idle_host bulk_out_ep h.xfer
    × (take 16 h.xfer.tx ≡ drawn calls.rand 0 16)
    × (drop 16 h.xfer.tx ≡ drop 16 idle_host.xfer.tx)
    × (crc16_check (take 16 h.xfer.tx ++ h.xfer.crc1 ∷ h.xfer.crc2 ∷ []) ≡ true)
bulk_out_prepared_example = bulk_out_prepared calls.rand 0 16 bulk_out_ep idle_host (omega arith)

-- `test_ddr3out(0x02A8F0)`.
abbrev store_test : DdrOut
store_test = record {
  addr = 0x02A8F0;
  step = ddr_cmd;
  iter = 0;
  beat = 4;
  out = 5;
  inp = 3;
  id = 1;
}

ddr3_store_sent_example :
    (h : Host) × (tc_ddr3out_cmd calls.rand 1 4 store_test idle_host ≡ ok h)
    × (h.op ≡ host_bulk_out)
    × (h.xfer.tx_len ≡ 6 + 4 * 4)
    × ValidToken idle_host 5 h.xfer
    × (let bytes = take (6 + 4 * 4) h.xfer.tx in
        (command_of bytes ≡ 0x01)
        × (words_of bytes ≡ 4)
        × (address_of bytes ≡ 0x02A8F0 % 268435456)
        × (id_of bytes ≡ 1 % 16)
        × (drop 6 bytes ≡ drawn_words calls.rand 1 4)
        × (crc16_check (bytes ++ h.xfer.crc1 ∷ h.xfer.crc2 ∷ []) ≡ true))
ddr3_store_sent_example =
    ddr3_store_sent calls.rand 1 4 store_test idle_host (omega arith) (omega arith) refl refl
      (omega arith)

corrupted_refused_example :
    ((g : Host) × ((tc_parity_xfer calls bulk_in_ep idle_host >>= adjusted_host adjust_crc) ≡ ok g)
      × (crc5_check (g.xfer.tok1 + 256 * g.xfer.tok2) ≡ false))
    × ((g : Host) × ((tc_parity_xfer calls bulk_out_ep idle_host >>= adjusted_host adjust_crc)
          ≡ ok g)
        × (crc5_check (g.xfer.tok1 + 256 * g.xfer.tok2) ≡ true)
        × (crc16_check (take g.xfer.tx_len g.xfer.tx ++ g.xfer.crc1 ∷ g.xfer.crc2 ∷ []) ≡ false))
corrupted_refused_example = corrupted_refused calls idle_host (omega arith)
