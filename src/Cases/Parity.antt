-- ===== src/Cases/Parity.antt =====
-- vpi/tc_parity.c: transfers with a wrong sequence bit, a wrong CRC and a wrong endpoint, each
-- followed by a correct one.
use misc_verilog_cores.Base.{
  ℕ, zero, suc, ◌+◌, bit_and, bit_or, bit_xor, shl, u8, ltb, ◌==◌, if◌then◌else◌, pos, Result, ok,
  ◌>>=◌,
}
use misc_verilog_cores.Ulpi.{Transfer, in_token, transfer_ack, transfer_tok}
use misc_verilog_cores.Host.{Host, host_bulk_in}
use misc_verilog_cores.Cases.{
  Calls, Tried, tried, bulk_in_ep, bulk_out_ep, go_idle, address_token, start_bulk_out,
}

-- `parity_step_t`.
pub data ParityStep : Type 0 where
  parity_in0 parity_in1 parity_out0 parity_out1 parity_done : ParityStep

-- What the pointer `adjust` can hold.
pub data Adjust : Type 0 where
  adjust_seq adjust_crc adjust_ept : Adjust

pub record ParityState : Type 0 where
  pub adjust : Adjust
  pub step : ParityStep
  pub stage : ℕ

unfoldable pub test_parity : ParityState
test_parity = record { adjust = adjust_seq; step = parity_in0; stage = 0 }

unfoldable pub adjusted : Adjust → Transfer → Result Transfer
adjusted adjust_seq x = transfer_ack x
adjusted adjust_crc x =
    if x.endpoint == bulk_in_ep
    then ok (record x { tok2 = bit_xor x.tok2 0x80 })
    else ok (record x { crc1 = bit_xor x.crc1 0xFF })
adjusted adjust_ept x = ok (transfer_tok (record x { endpoint = bit_xor x.endpoint 0xF }))

abbrev pub adjusted_host : Adjust → Host → Result Host
adjusted_host a host = adjusted a host.xfer >>= λ x. ok (record host { xfer = x })

-- `((rand() | 0x01) << 1) & 0x07`.
abbrev pub parity_length : ℕ → ℕ
parity_length r = bit_and (shl (bit_or r 0x01) 1) 0x07

unfoldable pub tc_parity_xfer : Calls → ℕ → Host → Result Host
tc_parity_xfer c ep host =
    if ep == bulk_in_ep
    then ok (record host {
      op = host_bulk_in;
      xfer = record (address_token host ep host.xfer) {
        type = in_token;
        rx_len = pos 0;
        rx_ptr = 0;
      };
    })
    else start_bulk_out c.rand 1 (parity_length (c.rand 0)) ep host

abbrev begin_parity : Calls → Adjust → ParityState → Host → Result (Tried ParityState)
begin_parity c a st host = tc_parity_xfer c bulk_in_ep host >>= λ h.
    adjusted_host a h >>= λ g. tried (pos 0) (record st { adjust = a; step = parity_in0 }) g

-- The switch on the stage; from 4 on the pointer keeps its value.
abbrev parity_init_at : ℕ → Calls → ParityState → Host → Result (Tried ParityState)
parity_init_at zero c st host = begin_parity c adjust_seq st host
parity_init_at (suc zero) c st host = begin_parity c adjust_crc st host
parity_init_at (suc (suc zero)) c st host = begin_parity c adjust_ept st host
parity_init_at (suc (suc (suc zero))) c st host = tried (pos 1) st host
parity_init_at (suc (suc (suc (suc n)))) c st host = begin_parity c st.adjust st host

unfoldable pub tc_parity_init : Calls → ParityState → Host → Result (Tried ParityState)
tc_parity_init c st host = parity_init_at st.stage c st host

abbrev parity_at : ParityStep → Calls → ParityState → Host → Result (Tried ParityState)
parity_at parity_in0 c st host = adjusted_host st.adjust host >>= λ h.
    tc_parity_xfer c bulk_in_ep h >>= λ g. tried (pos 0) (record st { step = parity_in1 }) g
parity_at parity_in1 c st host = tc_parity_xfer c bulk_out_ep host >>= λ h.
    adjusted_host st.adjust h >>= λ g. tried (pos 0) (record st { step = parity_out0 }) g
parity_at parity_out0 c st host = adjusted_host st.adjust host >>= λ h.
    tc_parity_xfer c bulk_out_ep h >>= λ g. tried (pos 0) (record st { step = parity_out1 }) g
parity_at parity_out1 c st host =
    let counted : ParityState = record st { stage = u8 (st.stage + 1) } in
    if ltb counted.stage 3
    then (tc_parity_init c counted (go_idle host) >>= λ t. tried (pos 0) t.test t.host)
    else tried (pos 1) (record counted { step = parity_done }) (go_idle host)
parity_at parity_done c st host = tried (pos 1) st host

unfoldable pub tc_parity_step : Calls → ParityState → Host → Result (Tried ParityState)
tc_parity_step c st host = parity_at st.step c st host
