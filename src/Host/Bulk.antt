-- ===== src/Host/Bulk.antt =====
-- `bulk_out_step` and `bulk_in_step` of vpi/usb/usbhost.c, built without `__fast_eop`. `rand` is
-- what the call of `rand()` in the step returns, if the step makes it.
use misc_verilog_cores.Base.{
  ℕ, suc, ◌+◌, bit_and, u32, Bool, true, false, ◌&&◌, ◌==◌, ltb, leb, if◌then◌else◌, ℤ, pos, negsuc,
  is_negative, is_positive, Result, ok, ◌>>=◌, ◌>>◌, assert, load,
}
use misc_verilog_cores.Ulpi.{
  sig0, sig1, set_a, Bus, Transfer, XferType, xfer_idle, out_token, in_token, dn_data0, dn_data1,
  dn_ack, up_ack, up_data0, up_data1, time_out, no_xfer, datax_body, stage_number, transfer_ack,
  Stepped, stepped,
}
use misc_verilog_cores.Ulpi.Step.Eop.{drive_eop}
use misc_verilog_cores.Ulpi.Step.Token.{token_send_step}
use misc_verilog_cores.Ulpi.Step.Send.{datax_send_step}
use misc_verilog_cores.Ulpi.Step.Recv.{datax_recv_step, recv_body}
use misc_verilog_cores.Ulpi.Step.Ack.{ack_recv_step, ack_send_step}
use misc_verilog_cores.Host.{Host, turnaround_timer}

abbrev nxt_mask : ℕ
nxt_mask = 0xF

-- `(rand() & NXT_MASK) == NXT_MASK`.
abbrev pub throttled : ℕ → Bool
throttled rand = bit_and rand nxt_mask == nxt_mask

-- `host->cycle + TURNAROUND_TIMER`, stored in 32 bits.
abbrev pub deadline : Host → ℕ
deadline host = u32 (host.cycle + turnaround_timer)

-- `return code`, with the transfer of a sub-step in the host.
abbrev pub host_stepped : ℤ → Host → Transfer → Bus → Result (Stepped Host)
host_stepped c host xfer out = stepped c (record host { xfer = xfer }) out

-- `xfer->type = XferIdle` and `xfer->stage = NoXfer`.
abbrev pub idle : Transfer → Transfer
idle xfer = record xfer { type = xfer_idle; stage = no_xfer }

-- After the token: the data type of the endpoint's parity.
data_type : XferType → XferType → Transfer → Result Transfer
data_type even odd xfer = do
  seq ← load xfer.ep_seq xfer.endpoint
  ok (record xfer { type = if seq == sig0 then even else odd; stage = no_xfer })

bulk_out_token : Host → Bus → Bus → Result (Stepped Host)
unfolding data_type
bulk_out_token host inp out = do
  s ← token_send_step host.xfer inp out
  if is_negative s.code
      then host_stepped s.code host s.state s.out
      else if is_positive s.code
      then (data_type dn_data0 dn_data1 s.state >>= λ x. host_stepped (pos 0) host x s.out)
      else host_stepped (pos 0) host s.state s.out

bulk_out_data : ℕ → Host → Bus → Bus → Result (Stepped Host)
bulk_out_data rand host inp out =
    if ltb host.xfer.tx_ptr host.xfer.tx_len && (inp.nxt == sig1 && throttled rand)
    then stepped (pos 0) host (record out { nxt = sig0; dat = set_a 0x5D out })
    else (datax_send_step host.xfer inp out >>= λ s.
        if is_negative s.code
        then host_stepped s.code host s.state s.out
        else if is_positive s.code
        then host_stepped (pos 0) host
            (record (s.state) { type = up_ack; stage = no_xfer; cycle = deadline host }) s.out
        else host_stepped (pos 0) host s.state s.out)

bulk_out_ack : Host → Bus → Bus → Result (Stepped Host)
bulk_out_ack host inp out =
    if leb host.xfer.cycle host.cycle
    then host_stepped (pos 1) host (idle host.xfer) out
    else (ack_recv_step host.xfer inp out >>= λ s.
        host_stepped s.code host (if is_positive s.code then idle s.state else s.state) s.out)

bulk_out_at : XferType → ℕ → Host → Bus → Bus → Result (Stepped Host)
unfolding bulk_out_token bulk_out_data bulk_out_ack
bulk_out_at out_token rand host inp out = bulk_out_token host inp out
bulk_out_at dn_data0 rand host inp out = bulk_out_data rand host inp out
bulk_out_at dn_data1 rand host inp out = bulk_out_data rand host inp out
bulk_out_at up_ack rand host inp out = bulk_out_ack host inp out
bulk_out_at _ rand host inp out = stepped (negsuc 0) host out

unfoldable pub bulk_out_step : ℕ → Host → Bus → Bus → Result (Stepped Host)
unfolding bulk_out_at
bulk_out_step rand host inp out = bulk_out_at host.xfer.type rand host inp out

bulk_in_token : Host → Bus → Bus → Result (Stepped Host)
unfolding data_type
bulk_in_token host inp out = do
  s ← token_send_step host.xfer inp out
  if is_negative s.code
      then host_stepped s.code host s.state s.out
      else if is_positive s.code
      then (data_type up_data0 up_data1 s.state >>= λ x.
          host_stepped (pos 0) host (record x { cycle = deadline host }) s.out)
      else host_stepped (pos 0) host s.state s.out

-- `result < -2`.
abbrev below_minus_two : ℤ → Bool
below_minus_two (negsuc (suc (suc n))) = true
below_minus_two _ = false

bulk_in_data : ℕ → Host → Bus → Bus → Result (Stepped Host)
bulk_in_data rand host inp out = do
  s ← datax_recv_step host.xfer inp out
  let x : Transfer = s.state
  if x.rx_ptr == 0 && leb x.cycle host.cycle
      then host_stepped (pos 0) host (record x { type = time_out }) s.out
      else if below_minus_two s.code
      then host_stepped (pos 0) host (record x { type = time_out; cycle = deadline host }) s.out
      else if is_negative s.code
      then host_stepped s.code host x s.out
      else if is_positive s.code
      then host_stepped (pos 0) host (record x { type = dn_ack; stage = no_xfer }) s.out
      else if ltb 0 x.rx_ptr && (s.out.nxt == sig1 && throttled rand)
      then host_stepped (pos 0) host x (record (s.out) { nxt = sig0 })
      else host_stepped (pos 0) host x s.out

bulk_in_ack : Host → Bus → Bus → Result (Stepped Host)
bulk_in_ack host inp out = do
  s ← ack_send_step host.xfer inp out
  if is_positive s.code
      then (transfer_ack s.state >>= λ x. host_stepped s.code host (idle x) s.out)
      else host_stepped s.code host s.state s.out

-- What is left of a packet that will not be acknowledged is received and dropped.
bulk_in_drain : Host → Bus → Bus → Result (Stepped Host)
bulk_in_drain host inp out =
    let rest : Result (Stepped Transfer) =
      if stage_number host.xfer.stage == stage_number datax_body
      then (assert (inp.dir == sig0 && inp.dat.b == 0x00) >> recv_body host.xfer inp out)
      else drive_eop host.xfer inp out in
    rest >>= λ s.
    if is_negative s.code
    then host_stepped (negsuc 0) host s.state s.out
    else host_stepped (pos 0) host (record (s.state) { type = time_out }) s.out

bulk_in_time_out : Host → Bus → Bus → Result (Stepped Host)
unfolding bulk_in_drain
bulk_in_time_out host inp out =
    if leb host.xfer.cycle host.cycle
    then host_stepped (pos 1) host (idle host.xfer) out
    else bulk_in_drain host inp out

bulk_in_at : XferType → ℕ → Host → Bus → Bus → Result (Stepped Host)
unfolding bulk_in_token bulk_in_data bulk_in_ack bulk_in_time_out
bulk_in_at in_token rand host inp out = bulk_in_token host inp out
bulk_in_at up_data0 rand host inp out = bulk_in_data rand host inp out
bulk_in_at up_data1 rand host inp out = bulk_in_data rand host inp out
bulk_in_at dn_ack rand host inp out = bulk_in_ack host inp out
bulk_in_at time_out rand host inp out = bulk_in_time_out host inp out
bulk_in_at xfer_idle rand host inp out = stepped (pos 1) host out
bulk_in_at _ rand host inp out = stepped (negsuc 0) host out

unfoldable pub bulk_in_step : ℕ → Host → Bus → Bus → Result (Stepped Host)
unfolding bulk_in_at
bulk_in_step rand host inp out = bulk_in_at host.xfer.type rand host inp out
