-- ===== src/Func/Deaf.antt =====
-- What the device does with the data packet behind a token.
use misc_verilog_cores.Base.{
  ℕ, zero, suc, ◌%◌, ◌≤◌, ◌≡◌, refl, ap, true, some, inl, inr, ◌⊎◌, pos, negsuc, ok, Result, ◌>>=◌,
  List, [], ◌∷◌, All, arith,
}
use misc_verilog_cores.Base.Bits.{and-mask}
use misc_verilog_cores.Ulpi.{
  sig0, sig1, Bus, Transfer, XferType, setup, out_token, datax_pid, datax_body, end_rxcmd, eop,
  up_ack, Stepped, stepped,
}
use misc_verilog_cores.Ulpi.Step.Recv.{less_two}
use misc_verilog_cores.Host.{host_setup, host_bulk_out}
use misc_verilog_cores.Func.{Func, func_idle, func_busy}
use misc_verilog_cores.Func.Recv.{fn_datax_recv_step, func_datax_recv_at, data_recv, next_step}
use misc_verilog_cores.Ulpi.Step.Token.{token_send_step}
use misc_verilog_cores.Ulpi.Run.{Finished, ulpi_step_with}
use misc_verilog_cores.Ulpi.Listen.{phy_bus}
use misc_verilog_cores.Ulpi.TokenRun.{is_token}
use misc_verilog_cores.Func.Token.{op_of, with_token, token_delivery}
use misc_verilog_cores.Func.Step.{usbf_step, func_xfer_step}

-- One call for each clock edge, as long as the result is 0.
abbrev carry_on : (Func → Bus → Result (Stepped Func)) → Stepped Func → Result (Stepped Func)
carry_on rest s = elim s.code [
  | pos zero ↦ rest s.state s.out
  | pos (suc n) ↦ ok s
  | negsuc n ↦ ok s
]

unfoldable pub func_run : List Bus → Func → Bus → Result (Stepped Func)
func_run [] func out = stepped (pos 0) func out
func_run (inp ∷ inps) func out = usbf_step func inp out >>= carry_on (func_run inps)

abbrev pub Clocked : Bus → Type 0
Clocked inp = (inp.rst_n ≡ sig1) × (inp.clock ≡ sig1)

-- The device as a token leaves it, before data from the host.
record AwaitsData (func : Func) : Type 0 where
  busy : func.state ≡ func_busy
  pub from_host : (func.op ≡ host_setup) ⊎ (func.op ≡ host_bulk_out)
  pub at_data : func.step ≡ 1
  pub stage : func.xfer.stage ≡ eop

deaf_step :
    (func : Func) (inp out : Bus)
    → AwaitsData func
    → Clocked inp
    → usbf_step func inp out
      ≡ stepped (pos 0) (record func { xfer = record (func.xfer) { type = up_ack } }) inp
unfolding usbf_step func_xfer_step fn_datax_recv_step func_datax_recv_at
deaf_step func inp out a c = ground arith

waits_deaf :
    (inps : List Bus) (func : Func) (out : Bus)
    → AwaitsData func
    → All Clocked inps
    → (g : Func) × (o : Bus) × (func_run inps func out ≡ stepped (pos 0) g o)
      × (g.xfer.rx ≡ func.xfer.rx)
      × (g.xfer.rx_ptr ≡ func.xfer.rx_ptr)
      × AwaitsData g
unfolding func_run
waits_deaf [] func out a c = (func, out, refl, refl, refl, a)
waits_deaf (inp ∷ inps) func out a c =
    let next : Func = record func { xfer = record (func.xfer) { type = up_ack } } in
    let still : AwaitsData next = record {
      busy = a.busy;
      from_host = a.from_host;
      at_data = a.at_data;
      stage = a.stage;
    } in
    let (g, o, e, r, p, b) = waits_deaf inps next inp still c.1 in
    (g, o, rw (deaf_step func inp out a c.0) e, r, p, b)

awaits_data :
    (t : XferType) (xfer : Transfer) (func : Func)
    → (t ≡ setup) ⊎ (t ≡ out_token)
    → AwaitsData (with_token t xfer func)
awaits_data t xfer func h = record {
  busy = refl;
  from_host = elim h [ inl e ↦ inl (ap op_of e) | inr e ↦ inr (ap op_of e) ];
  at_data = refl;
  stage = refl;
}

token_type : (t : XferType) → (t ≡ setup) ⊎ (t ≡ out_token) → is_token t ≡ true
token_type t (inl e) = ap is_token e
token_type t (inr e) = ap is_token e

-- After a SETUP or OUT token from the host the device receives nothing. An idle device that steps with
-- the host on one bus takes the token within 7 rounds; from there, whatever else the bus carries in any
-- number of cycles with `clock` and `rst_n` high, every step of the device returns 0, no byte is stored, and the device
-- stays busy in step 1 with its stage at `EOP`, so the packet is never finished.
pub data_never_received :
    (fuel : ℕ) (xfer : Transfer) (func : Func) (inps : List Bus)
    → 7 ≤ fuel
    → (xfer.type ≡ setup) ⊎ (xfer.type ≡ out_token)
    → func.state ≡ func_idle
    → All Clocked inps
    → (d : Finished Func) × (g : Func) × (o : Bus) × (ulpi_step_with token_send_step usbf_step fuel
          xfer func
        ≡ ok (some d))
      × (d.code ≡ pos 1)
      × (func_run inps d.user d.bus ≡ stepped (pos 0) g o)
      × (g.xfer.rx ≡ func.xfer.rx)
      × (g.xfer.rx_ptr ≡ func.xfer.rx_ptr)
      × (g.state ≡ func_busy)
      × (g.step ≡ 1)
      × (g.xfer.stage ≡ eop)
data_never_received fuel xfer func inps h t idle c =
    let behind = with_token xfer.type xfer func in
    let (g, o, run, rx, ptr, a) =
      waits_deaf inps behind (phy_bus 1 0 0x4D 0x00) (awaits_data xfer.type xfer func t) c in
    (
      _,
      g,
      o,
      token_delivery fuel xfer func h (token_type xfer.type t) idle,
      refl,
      run,
      rx,
      ptr,
      a.busy,
      a.at_data,
      a.stage,
    )

-- In the body of a data packet an RX CMD ends the packet exactly if its bit 0 is set, which is the
-- line state; the bits of RxActive decide nothing.
end_of_packet :
    (func : Func) (inp out : Bus)
    → (func.xfer.stage ≡ datax_pid) ⊎ (func.xfer.stage ≡ datax_body)
    → inp.dir ≡ sig1
    → inp.nxt ≡ sig0
    → (inp.dat.a % 2 ≡ 1
        → fn_datax_recv_step func inp out
          ≡ stepped
              (pos 0)
              (next_step (record func {
                xfer = record (func.xfer) { stage = end_rxcmd; rx_len = less_two func.xfer.rx_ptr };
              }))
              inp)
      × (inp.dat.a % 2 ≡ 0 → fn_datax_recv_step func inp out ≡ stepped (pos 0) func inp)
unfolding fn_datax_recv_step func_datax_recv_at data_recv
end_of_packet func inp out s d n =
    (λ h. ground (arith, and-mask 1 inp.dat.a), λ h. ground (arith, and-mask 1 inp.dat.a))
