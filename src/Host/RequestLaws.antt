-- ===== src/Host/RequestLaws.antt =====
-- `stdreq_start` of vpi/usb/stdreq.c: the SETUP token and the DATA0 packet of a request.
use misc_verilog_cores.Base.{
  ℕ, ◌+◌, ◌*◌, ◌%◌, ◌≡◌, ◌<◌, refl, pos, bit_and, shr, true, [], ◌∷◌, ◌++◌, length, take,
  get_or-set_self, arith,
}
use misc_verilog_cores.Base.Bits.{and-mask}
use misc_verilog_cores.Crc.{crc5_calc, crc5_check, crc16_calc, crc16_check}
use misc_verilog_cores.Crc.Token.{crc5_check-crc5_calc, crc5_calc-lt}
use misc_verilog_cores.Crc.Packet.{crc16_check-trailer, trailer}
use misc_verilog_cores.Crc.Detect.{crc16_calc-lt}
use misc_verilog_cores.Ulpi.{dn_data0, setup, no_xfer}
use misc_verilog_cores.Ulpi.SendRun.{InSequence, payload}
use misc_verilog_cores.Host.{Host, host_setup}
use misc_verilog_cores.Host.Request.{StdReq, request_bytes, stdreq_start}

-- The two bytes of a 16-bit word, as C takes them out of it.
pub two_bytes :
    (w : ℕ)
    → w < 65536
    → (bit_and w 0xFF + 256 * bit_and (shr w 8) 0xFF ≡ w)
      × (bit_and w 0xFF ≡ w % 256)
      × (bit_and (shr w 8) 0xFF ≡ shr w 8)
two_bytes w h = rw (and-mask 8 w, and-mask 8 (shr w 8)) (omega arith, refl, omega arith)

request_packet :
    (req : StdReq)
    → let crc = crc16_calc (request_bytes req) in
      (request_bytes req ++ bit_and crc 0xFF ∷ []) ++ bit_and (shr crc 8) 0xFF ∷ []
      ≡ request_bytes req ++ trailer (request_bytes req)
request_packet req =
    let parts = two_bytes (crc16_calc (request_bytes req)) (crc16_calc-lt (request_bytes req)) in
    rw (parts.1, parts.2) refl

-- A request that `stdreq_start` makes is well formed on the bus, for every request and every host whose
-- transfer has a parity for endpoint 0: the result is 1, the host is in step 0 of a control transfer and
-- about to send a SETUP token from its first cycle, no byte is sent or received yet, the token passes
-- `crc5_check` and carries the low 7 bits of the address and endpoint 0, DATA0 is in sequence, the bytes
-- to send are the 8 bytes of the request, and they pass `crc16_check` with the two CRC bytes behind them.
pub stdreq_start_lem :
    (host : Host) (req : StdReq)
    → 0 < length host.xfer.ep_seq
    → let x = (stdreq_start host req).1.xfer in
      let tok = x.tok1 + 256 * x.tok2 in
      ((stdreq_start host req).0 ≡ pos 1)
      × ((stdreq_start host req).1.op ≡ host_setup)
      × ((stdreq_start host req).1.step ≡ 0)
      × (x.type ≡ setup)
      × (x.stage ≡ no_xfer)
      × (x.tx_ptr ≡ 0)
      × (x.rx_ptr ≡ 0)
      × (crc5_check tok ≡ true)
      × (tok % 2048 ≡ host.addr % 128)
      × InSequence dn_data0 x
      × (take x.tx_len x.tx ≡ request_bytes req)
      × (crc16_check (payload x x.tx_len ++ x.crc2 ∷ []) ≡ true)
unfolding stdreq_start
stdreq_start_lem host req h =
    let arg = bit_and host.addr 0x7F in
    let whole = (two_bytes (crc5_calc arg) (crc5_calc-lt arg)).0 in
    let valid = crc5_check-crc5_calc arg in
    (
      refl,
      refl,
      refl,
      refl,
      refl,
      refl,
      refl,
      rw whole valid.1,
      rw whole (omega (arith, valid.0, and-mask 7 host.addr)),
      get_or-set_self host.xfer.ep_seq 0 0 0 h,
      refl,
      rw (request_packet req) (crc16_check-trailer (request_bytes req)).0,
    )
