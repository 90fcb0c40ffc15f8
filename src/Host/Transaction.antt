-- ===== src/Host/Transaction.antt =====
-- A bulk OUT transaction under `usbh_step` of vpi/usb/usbhost.c, from its token to the wait for the
-- handshake, on a bus that the link leaves alone.
pub mod Token
pub mod Data
pub mod Payload
pub mod Answer
pub mod Whole
use mathlib.Core.List.{append_assoc, append-nil}
use misc_verilog_cores.Base.{
  ℕ, zero, suc, ◌+◌, ◌≤◌, ◌<◌, ◌≡◌, refl, sym, ap, ◌∙◌, u64, Bool, true, false, ◌&&◌, ◌==◌,
  if◌then◌else◌, ◌⊎◌, inl, inr, pos, negsuc, Result, ok, ◌>>=◌, List, [], ◌∷◌, ◌++◌, length, arith,
}
use misc_verilog_cores.Ulpi.{sig0, sig1, Bus, Transfer, XferType, up_ack, no_xfer, Stepped, stepped}
use misc_verilog_cores.Ulpi.Listen.{phy_bus}
use misc_verilog_cores.Host.{Host, host_bulk_out, turnaround_timer}
use misc_verilog_cores.Host.Bulk.{bulk_out_step}
use misc_verilog_cores.Host.Step.{usbh_step, host_op_step, before_step, start_frame}
use misc_verilog_cores.Host.StepLaws.{transaction_goes_on}

-- What the link takes in a cycle: a byte, where the host drives the bus with NXT.
abbrev pub seen : Bus → List ℕ
seen o = if o.dir == sig1 && (o.nxt == sig1 && o.dat.b == 0x00) then o.dat.a ∷ [] else []

abbrev pub awaits_ack : XferType → Bool
awaits_ack up_ack = true
awaits_ack _ = false

-- One step for each result of `rand()`, as long as the result is 0, until the host waits for the
-- handshake; what the link takes is logged.
unfoldable pub sending_run : List ℕ → Host → Bus → List ℕ → Result (Stepped Host × List ℕ)
sending_run [] host bus log = ok (record { code = pos 0; state = host; out = bus }, log)
sending_run (rand ∷ rands) host bus log =
    if awaits_ack host.xfer.type
    then ok (record { code = pos 0; state = host; out = bus }, log)
    else (usbh_step rand host bus bus >>= λ s. elim s.code [
      | pos zero ↦ sending_run rands s.state s.out (log ++ seen s.out)
      | pos (suc n) ↦ ok (s, log ++ seen s.out)
      | negsuc n ↦ ok (s, log ++ seen s.out)
    ])

-- A host in a bulk OUT transaction, at a cycle and with a transfer.
abbrev pub out_host : Host → ℕ → Transfer → Host
out_host host k x = record host { cycle = k; op = host_bulk_out; xfer = x }

-- The transfer that waits for the handshake.
abbrev pub ready : Transfer → ℕ → Transfer
ready y k = record y { type = up_ack; stage = no_xfer; cycle = k + turnaround_timer }

module _ (host : Host) where
  pub out_host_step :
      (rand k : ℕ) (x : Transfer) (inp out : Bus)
      → inp.rst_n ≡ sig1
      → k + 1 < 4294967296
      → usbh_step rand (out_host host k x) inp out
        ≡ bulk_out_step rand (out_host host (k + 1) x) inp inp
  unfolding usbh_step before_step start_frame host_op_step
  out_host_step rand k x inp out r h = ground arith

  -- One step of the run.
  pub advance :
      (rand : ℕ) (rands : List ℕ) (k : ℕ) (x x' : Transfer) (bus o : Bus) (log : List ℕ)
      → awaits_ack x.type ≡ false
      → bus.rst_n ≡ sig1
      → k + 1 < 4294967296
      → bulk_out_step rand (out_host host (k + 1) x) bus bus
        ≡ stepped (pos 0) (out_host host (k + 1) x') o
      → sending_run (rand ∷ rands) (out_host host k x) bus log
        ≡ sending_run rands (out_host host (k + 1) x') o (log ++ seen o)
  unfolding sending_run
  advance rand rands k x x' bus o log a r h e = rw (a, out_host_step rand k x bus bus r h, e) refl

  module _ (y : Transfer) where
    -- The run ends in cycle `k`.
    abbrev pub ended : ℕ → List ℕ → Result (Stepped Host × List ℕ)
    ended k log = ok (
      record { code = pos 0; state = out_host host k (ready y k); out = phy_bus 0 0 0x00 0xFF },
      log,
    )

    -- `n` steps, some of which may be wait states, are enough for the rest of the transaction, in
    -- which the link takes the bytes `tail`.
    abbrev pub Reaches : ℕ → Transfer → Bus → List ℕ → Type 0
    Reaches n x bus tail =
        (rands : List ℕ) (k : ℕ) (log : List ℕ)
        → n ≤ length rands
        → k + n + 40 < 4294967296
        → (k' : ℕ) × (sending_run rands (out_host host k x) bus log ≡ ended k' (log ++ tail))
          × (k ≤ k')
          × (k' ≤ k + n)

    pub Reaches-more :
        (n m : ℕ) (x : Transfer) (bus : Bus) (tail : List ℕ)
        → n ≤ m
        → Reaches n x bus tail
        → Reaches m x bus tail
    Reaches-more n m x bus tail h rest rands k log l b =
        let (k', run, lo, hi) = rest rands k log (omega arith) (omega arith) in
        (k', run, lo, omega arith)

    pub one_step :
        (n : ℕ) (x x' : Transfer) (bus o : Bus) (tail : List ℕ)
        → awaits_ack x.type ≡ false
        → bus.rst_n ≡ sig1
        → ((rand k : ℕ)
            → bulk_out_step rand (out_host host k x) bus bus
              ≡ stepped (pos 0) (out_host host k x') o)
        → Reaches n x' o tail
        → Reaches (suc n) x bus (seen o ++ tail)
    one_step n x x' bus o tail a r e rest [] k log l b = absurd (omega arith)
    one_step n x x' bus o tail a r e rest (rand ∷ rands) k log l b =
        let (k', run, lo, hi) = rest rands (k + 1) (log ++ seen o) (omega arith) (omega arith) in
        (
          k',
          advance rand rands k x x' bus o log a r (omega arith) (e rand (k + 1))
              ∙ run
              ∙ ap (ended k') (append_assoc log (seen o) tail),
          omega arith,
          omega arith,
        )

    -- A step before which there may be a wait state.
    pub waiting_step :
        (n : ℕ) (x x' : Transfer) (bus q o : Bus) (tail : List ℕ)
        → awaits_ack x.type ≡ false
        → bus.rst_n ≡ sig1
        → q.rst_n ≡ sig1
        → seen q ≡ []
        → ((rand k : ℕ)
            → (bulk_out_step rand (out_host host k x) bus bus
                ≡ stepped (pos 0) (out_host host k x) q)
              ⊎ (bulk_out_step rand (out_host host k x) bus bus
                  ≡ stepped (pos 0) (out_host host k x') o))
        → ((rand k : ℕ)
            → bulk_out_step rand (out_host host k x) q q ≡ stepped (pos 0) (out_host host k x') o)
        → Reaches n x' o tail
        → Reaches (suc (suc n)) x bus (seen o ++ tail)
    waiting_step n x x' bus q o tail a r rq s f g rest [] k log l b = absurd (omega arith)
    waiting_step n x x' bus q o tail a r rq s f g rest (rand ∷ rands) k log l b =
        elim (f rand (k + 1)) [
          | inl e ↦
              let (k', run, lo, hi) =
                one_step n x x' q o tail a rq g rest rands (k + 1) (log ++ seen q) (omega arith)
                  (omega arith) in
              (
                k',
                advance rand rands k x x bus q log a r (omega arith) e
                    ∙ run
                    ∙ ap (λ (l : List ℕ). ended k' (l ++ (seen o ++ tail)))
                        (ap (λ (l : List ℕ). log ++ l) s ∙ append-nil log),
                omega arith,
                omega arith,
              )
          | inr e ↦
              let (k', run, lo, hi) =
                rest rands (k + 1) (log ++ seen o) (omega arith) (omega arith) in
              (
                k',
                advance rand rands k x x' bus o log a r (omega arith) e
                    ∙ run
                    ∙ ap (ended k') (append_assoc log (seen o) tail),
                omega arith,
                omega arith,
              )
        ]
