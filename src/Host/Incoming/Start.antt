-- ===== src/Host/Incoming/Start.antt =====
-- The start of the data packet of a bulk IN transaction of vpi/usb/usbhost.c: the cycles before the
-- deadline.
use misc_verilog_cores.Base.{
  ℕ, suc, ◌+◌, ◌<◌, ◌≡◌, ◌≢◌, refl, ◌∙◌, true, bit_and, pos, Option, some, List, [], ◌∷◌, ◌++◌,
  length, map, All, arith, subst,
}
use native.Mathlib.Nat.{add-zero}
use misc_verilog_cores.Ulpi.{
  sig0, sig1, Bus, Transfer, XferType, up_data0, up_data1, no_xfer, datax_pid, datax_body,
  ulpitx_data0, ulpitx_data1, check_seq, stepped,
}
use misc_verilog_cores.Ulpi.Step.Recv.{datax_recv_step, datax_recv_at}
use misc_verilog_cores.Ulpi.Receive.{InBody, is_up_data, body, body_step, body_wait}
use misc_verilog_cores.Host.{Host}
use misc_verilog_cores.Host.StepLaws.{Released}
use misc_verilog_cores.Host.Incoming.{Passes, both, no_cycle}
use misc_verilog_cores.Host.Incoming.Packet.{throttling, packet_cycle}

pub up_step :
    (t : XferType) (z : Transfer) (inp out : Bus)
    → is_up_data t ≡ true
    → datax_recv_step (record z { type = t }) inp out
      ≡ datax_recv_at z.stage (record z { type = t }) inp inp
unfolding datax_recv_step
up_step up_data0 z inp out d = refl
up_step up_data1 z inp out d = refl
up_step _ z inp out d = cc

-- The first byte of a data packet of this type.
abbrev pub pid_byte : XferType → ℕ
pid_byte up_data0 = ulpitx_data0
pid_byte _ = ulpitx_data1

-- The endpoint expects a data packet of this type.
abbrev pub Expects : Transfer → XferType → Type 0
Expects x t =
    check_seq (record x { type = t; stage = datax_body; rx_ptr = 0 }) (bit_and (pid_byte t) 0x0F)
    ≡ true

-- A cycle before the packet, and a cycle of the body without a byte.
abbrev pub Quiet : Bus → Type 0
Quiet inp = inp.dat.a ≡ 0x00

abbrev pub Leads : Bus → Type 0
Leads inp = InBody inp × (inp.nxt ≢ sig1)

-- The cycles from the token to the first byte of the body.
abbrev pub start_script : List Bus → Bus → Bus → List Bus → List (Option Bus)
start_script waits command pid leads =
    map some waits ++ ((some command ∷ []) ++ ((some pid ∷ []) ++ map some leads))

module _ (rand : ℕ → ℕ) (host : Host) (x : Transfer) (t : XferType) (up : is_up_data t ≡ true) where
  -- A cycle that leaves the bus with the link.
  early_cycle :
      (inp : Bus) (k : ℕ) (z y : Transfer) (bus o : Bus)
      → inp.rst_n ≡ sig1
      → k + 1 < 4294967296
      → k + 1 < y.cycle
      → datax_recv_step (record z { type = t }) inp inp ≡ stepped (pos 0) y o
      → o.dir ≡ sig0
      → Passes rand host
          (some inp ∷ [])
          k
          (record z { type = t })
          bus
          (k + 1)
          y
          (throttling (rand k) y o)
          []
  early_cycle inp k z y bus o r h early step d =
      packet_cycle rand host x t up inp k z y bus o r h step (ground arith) (ground arith)

  -- The cycles change nothing.
  abbrev pub Stays : List Bus → Transfer → ℕ → Bus → Type 0
  Stays inps z k bus =
      (o : Bus) × Passes rand host (map some inps) k (record z { type = t }) bus (k + length inps)
        (record z { type = t }) o []

  pub hold_cycles :
      (Q : Bus → Type 0) (z : Transfer)
      → ((inp : Bus)
          → Q inp
          → (o : Bus) × (datax_recv_step (record z { type = t }) inp inp
              ≡ stepped (pos 0) (record z { type = t }) o)
            × (o.dir ≡ sig0))
      → (inps : List Bus) (k : ℕ) (bus : Bus) → All Q inps
      → All Released inps
      → k + length inps < z.cycle
      → k + length inps < 4294967296
      → Stays inps z k bus
  hold_cycles Q z stays [] k bus q r early small =
      (bus, rw (add-zero k) (no_cycle rand host k (record z { type = t }) bus))
  hold_cycles Q z stays (inp ∷ inps) k bus q r early small =
      let (o, step, d) = stays inp q.0 in
      let (o', rest) =
        hold_cycles Q z stays inps (k + 1) (throttling (rand k) (record z { type = t }) o) q.1 r.1
          (omega arith) (omega arith) in
      let count : k + 1 + length inps ≡ k + suc (length inps) = omega arith in
      (
        o',
        subst
            (λ (c : ℕ).
              Passes rand host (map some (inp ∷ inps)) k (record z { type = t }) bus c
                (record z { type = t }) o' [])
            count
            (both rand host
              (early_cycle inp k z (record z { type = t }) bus o r.0 (omega arith) (omega arith)
                step d)
              rest),
      )

  pub no_data_cycle :
      (inp : Bus)
      → Quiet inp
      → (o : Bus) × (datax_recv_step (record x { type = t; stage = no_xfer }) inp inp
          ≡ stepped (pos 0) (record x { type = t; stage = no_xfer }) o)
        × (o.dir ≡ sig0)
  unfolding datax_recv_at
  no_data_cycle inp q = (
    record inp { dir = sig0 },
    up_step t (record x { stage = no_xfer }) inp inp up ∙ rw q refl,
    refl,
  )

  lead_cycle :
      (inp : Bus)
      → Leads inp
      → (o : Bus) × (datax_recv_step (body t x x.rx 0) inp inp
          ≡ stepped (pos 0) (body t x x.rx 0) o)
        × (o.dir ≡ sig0)
  lead_cycle inp l = (
    record inp { nxt = sig1 },
    body_step t x x.rx 0 inp inp up l.0.0 ∙ body_wait x x.rx t 0 inp l.0.1 l.1,
    l.0.0,
  )

  command_cycle :
      (inp : Bus)
      → inp.dat.a ≢ 0x00
      → datax_recv_step (record x { type = t; stage = no_xfer }) inp inp
        ≡ stepped
            (pos 0)
            (record x { type = t; stage = datax_pid })
            (record inp { dir = sig0; nxt = sig1 })
  unfolding datax_recv_at
  command_cycle inp q = up_step t (record x { stage = no_xfer }) inp inp up ∙ ground arith

  pid_cycle :
      (inp : Bus)
      → Expects x t
      → inp.dir ≡ sig0
      → inp.nxt ≡ sig1
      → inp.dat.b ≡ 0x00
      → inp.dat.a ≡ pid_byte t
      → datax_recv_step (record x { type = t; stage = datax_pid }) inp inp
        ≡ stepped (pos 0) (body t x x.rx 0) (record inp { nxt = sig0 })
  unfolding datax_recv_at
  pid_cycle inp e d n b a =
      up_step t (record x { stage = datax_pid }) inp inp up ∙ rw (d, n, b, a, e) (ground arith)

  pub start-Passes :
      (waits leads : List Bus) (command pid : Bus) (k : ℕ) (bus : Bus)
      → Expects x t
      → All Quiet waits
      → All Released waits
      → command.dat.a ≢ 0x00
      → (pid.dir ≡ sig0) × (pid.nxt ≡ sig1) × (pid.dat.b ≡ 0x00) × (pid.dat.a ≡ pid_byte t)
      → All Released (command ∷ pid ∷ [])
      → All Leads leads
      → All Released leads
      → k + length waits + length leads + 2 < x.cycle
      → k + length waits + length leads + 2 < 4294967296
      → (o : Bus) × Passes rand host
          (start_script waits command pid leads)
          k
          (record x { type = t; stage = no_xfer })
          bus
          (k + length waits + 1 + 1 + length leads)
          (body t x x.rx 0)
          o
          []
  start-Passes waits leads command pid k bus e qw released c p r ql rl early small =
      let a = record x { type = t; stage = no_xfer } in
      let b = record x { type = t; stage = datax_pid } in
      let (o, first) =
        hold_cycles Quiet (record x { stage = no_xfer }) no_data_cycle waits k bus qw released
          (omega arith) (omega arith) in
      let n = k + length waits in
      let o1 = throttling (rand n) b (record command { dir = sig0; nxt = sig1 }) in
      let o2 = throttling (rand (n + 1)) (body t x x.rx 0) (record pid { nxt = sig0 }) in
      let (o', last) =
        hold_cycles Leads (record x { stage = datax_body; rx_ptr = 0 }) lead_cycle leads (n + 1 + 1)
          o2 ql rl (omega arith) (omega arith) in
      (
        o',
        both rand host first (
            both rand host
              (early_cycle command n a b o _ r.0 (omega arith) (omega arith)
                (command_cycle command c) refl)
              (both rand host
                (early_cycle pid (n + 1) b (body t x x.rx 0) o1 _ r.1.0 (omega arith) (omega arith)
                  (pid_cycle pid e p.0 p.1 p.2 p.3) p.0)
                last)),
      )
