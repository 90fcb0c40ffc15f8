-- ===== src/Cases.antt =====
-- vpi/testcase.h, and what the test cases vpi/tc_*.c share: the outcome of a call, the stages of a
-- control transfer, the fill with random bytes, and how a bulk transfer is set up.
pub mod Control
pub mod Requests
pub mod Bulk
pub mod Ddr
pub mod Parity
pub mod Restarts
pub mod Runs
pub mod Stages
pub mod Addressing
pub mod Prepared
pub mod Commands
pub mod Corrupt
use misc_verilog_cores.Base.{
  ℕ, zero, suc, ◌+◌, bit_and, bit_or, shl, shr, u8, u32, ℤ, pos, List, Result, ok, ◌>>=◌, store,
  load_first, set,
}
use misc_verilog_cores.Crc.{crc5_calc, crc16_calc}
use misc_verilog_cores.Ulpi.{
  sig1, Transfer, XferType, in_token, out_token, dn_data1, xfer_idle, no_xfer,
}
use misc_verilog_cores.Host.{Host, host_idle, host_bulk_in, host_bulk_out}

-- What the C library answers in one call of a test case: the values that `rand` returns, in the
-- order of its calls, and the bytes of the pointer that `malloc` returns.
pub record Calls : Type 0 where
  pub rand : ℕ → ℕ
  pub memory : List ℕ

-- What `init` and `step` of a test case leave: the result, the test's own data, and the host.
pub record Tried (T : Type 0) : Type 0 where
  pub code : ℤ
  pub test : T
  pub host : Host

abbrev pub tried : {T : Type 0} → ℤ → T → Host → Result (Tried T)
tried c t h = ok (record { code = c; test = t; host = h })

abbrev pub bulk_in_ep : ℕ
bulk_in_ep = 1

abbrev pub ddr3_in_ep : ℕ
ddr3_in_ep = 3

abbrev pub bulk_out_ep : ℕ
bulk_out_ep = 2

abbrev pub ddr3_out_ep : ℕ
ddr3_out_ep = 5

-- The stages of a transfer with data from the device.
pub data Stage : Type 0 where
  send_setup send_data0 recv_ack0 send_in recv_data1 send_ack send_out send_zdp recv_ack1 : Stage
  stage_done : Stage

-- `host->step++`.
abbrev pub next_step : Host → Host
next_step host = record host { step = u32 (host.step + 1) }

abbrev pub set_seq0 : ℕ → Host → Host
set_seq0 s host = record host { xfer = record (host.xfer) { ep_seq = set (host.xfer.ep_seq) 0 s } }

abbrev pub clear_data : Host → Host
clear_data host = record host {
  xfer = record (host.xfer) { tx_len = 0; type = dn_data1; crc1 = 0; crc2 = 0 };
}

-- `host->op = HostIdle` with an idle transfer.
abbrev pub go_idle : Host → Host
go_idle host = record host {
  op = host_idle;
  xfer = record (host.xfer) { type = xfer_idle; stage = no_xfer };
}

-- `for (int i=n; i--;) xfer->tx[i] = rand();`, the first value being number `k` of the call.
unfoldable pub fill : (ℕ → ℕ) → ℕ → ℕ → List ℕ → Result (List ℕ)
fill rand k zero tx = ok tx
fill rand k (suc i) tx = store tx i (u8 (rand k)) >>= λ tx'. fill rand (suc k) i tx'

-- The token of the host's address and an endpoint.
unfoldable pub address_token : Host → ℕ → Transfer → Transfer
address_token host ep x =
    let tok = crc5_calc (bit_or (bit_and host.addr 0x7F) (shl (bit_and ep 0x0F) 7)) in
    record x {
      stage = no_xfer;
      address = host.addr;
      endpoint = ep;
      tok1 = bit_and tok 0xFF;
      tok2 = bit_and (shr tok 8) 0xFF;
    }

-- The CRC16 of the first `n` bytes to send.
unfoldable pub data_crc : ℕ → Transfer → Result Transfer
data_crc n x = load_first n x.tx >>= λ bytes.
    let crc = crc16_calc bytes in
    ok (record x { crc1 = bit_and crc 0xFF; crc2 = bit_and (shr crc 8) 0xFF })

-- A bulk IN of an endpoint: `tc_bulkin_xfer`, `tc_ddr3out_res` and `tc_ddr3in_dat`.
unfoldable pub start_bulk_in : ℕ → Host → Host
start_bulk_in ep host = record host {
  op = host_bulk_in;
  xfer = record (address_token host ep host.xfer) { type = in_token; rx_ptr = 0 };
}

-- A bulk OUT of `n` random bytes: `tc_bulkout_xfer`; the values start at number `k`.
unfoldable pub start_bulk_out : (ℕ → ℕ) → ℕ → ℕ → ℕ → Host → Result Host
start_bulk_out rand k n ep host = do
  bytes ← fill rand k n host.xfer.tx
  x ← data_crc n (record (address_token host ep host.xfer) {
    type = out_token;
    tx_len = n;
    tx_ptr = 0;
    tx = bytes;
  })
  ok (record host { op = host_bulk_out; xfer = x })
