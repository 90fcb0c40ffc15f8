-- ===== src/Host/Incoming.antt =====
-- A bulk IN transaction under `usbh_step` of vpi/usb/usbhost.c, on a bus that the link drives in some
-- cycles and leaves alone in the others.
pub mod Token
pub mod Packet
pub mod Start
pub mod End
pub mod Data
pub mod Answer
pub mod Whole
pub mod Silence
use mathlib.Core.List.{append_assoc, append-nil}
use misc_verilog_cores.Base.{
  ℕ, zero, suc, ◌+◌, ◌<◌, ◌≡◌, refl, sym, ap, ◌∙◌, pos, negsuc, Option, none, some, Result, ok,
  ◌>>=◌, List, [], ◌∷◌, ◌++◌, arith,
}
use misc_verilog_cores.Ulpi.{sig1, Bus, Transfer, Stepped, stepped}
use misc_verilog_cores.Host.{Host, host_bulk_in}
use misc_verilog_cores.Host.Bulk.{bulk_in_step}
use misc_verilog_cores.Host.Step.{usbh_step, host_op_step, before_step, start_frame}
use misc_verilog_cores.Host.Transaction.{seen}

-- What the bus carries in a cycle: what the link drives, or what the host drove.
abbrev pub carried : Option Bus → Bus → Bus
carried none old = old
carried (some link) old = link

-- One step for each entry, as long as the result is 0; `rand` gives the value of `rand()` in a cycle,
-- and what the link takes is logged.
unfoldable pub incoming_run :
    (ℕ → ℕ) → List (Option Bus) → Host → Bus → List ℕ → Result (Stepped Host × List ℕ)
incoming_run rand [] host bus log = ok (record { code = pos 0; state = host; out = bus }, log)
incoming_run rand (l ∷ script) host bus log =
    usbh_step (rand host.cycle) host (carried l bus) (carried l bus) >>= λ s. elim s.code [
      | pos zero ↦ incoming_run rand script s.state s.out (log ++ seen s.out)
      | pos (suc n) ↦ ok (s, log ++ seen s.out)
      | negsuc n ↦ ok (s, log ++ seen s.out)
    ]

-- A host in a bulk IN transaction, at a cycle and with a transfer.
abbrev pub in_host : Host → ℕ → Transfer → Host
in_host host k x = record host { cycle = k; op = host_bulk_in; xfer = x }

module _ (rand : ℕ → ℕ) (host : Host) where
  in_host_step :
      (k : ℕ) (x : Transfer) (inp : Bus)
      → inp.rst_n ≡ sig1
      → k + 1 < 4294967296
      → usbh_step (rand k) (in_host host k x) inp inp
        ≡ bulk_in_step (rand k) (in_host host (k + 1) x) inp inp
  unfolding usbh_step before_step start_frame host_op_step
  in_host_step k x inp r h = ground arith

  -- The cycles of a script lead from one cycle, transfer and bus to others, with these bytes for the
  -- link.
  pub record Passes (script : List (Option Bus)) (k : ℕ) (x : Transfer) (bus : Bus) (k' : ℕ)
      (x' : Transfer) (bus' : Bus) (bytes : List ℕ) : Type 0 where
    pub run :
        (rest : List (Option Bus)) (log : List ℕ)
        → incoming_run rand (script ++ rest) (in_host host k x) bus log
          ≡ incoming_run rand rest (in_host host k' x') bus' (log ++ bytes)

  pub one_cycle :
      (l : Option Bus) (k : ℕ) (x x' : Transfer) (bus o : Bus)
      → (carried l bus).rst_n ≡ sig1
      → k + 1 < 4294967296
      → bulk_in_step (rand k) (in_host host (k + 1) x) (carried l bus) (carried l bus)
        ≡ stepped (pos 0) (in_host host (k + 1) x') o
      → Passes (l ∷ []) k x bus (k + 1) x' o (seen o)
  unfolding incoming_run
  one_cycle l k x x' bus o r h e = record {
    run = λ rest log. rw (in_host_step k x (carried l bus) r h, e) refl;
  }

  pub last_cycle :
      (l : Option Bus) (k : ℕ) (x x' : Transfer) (bus o : Bus) (log : List ℕ)
      → (carried l bus).rst_n ≡ sig1
      → k + 1 < 4294967296
      → bulk_in_step (rand k) (in_host host (k + 1) x) (carried l bus) (carried l bus)
        ≡ stepped (pos 1) (in_host host (k + 1) x') o
      → incoming_run rand (l ∷ []) (in_host host k x) bus log
        ≡ ok (record { code = pos 1; state = in_host host (k + 1) x'; out = o }, log ++ seen o)
  unfolding incoming_run
  last_cycle l k x x' bus o log r h e = rw (in_host_step k x (carried l bus) r h, e) refl

  pub no_cycle : (k : ℕ) (x : Transfer) (bus : Bus) → Passes [] k x bus k x bus []
  no_cycle k x bus = record {
    run = λ rest log.
        ap (λ (l : List ℕ). incoming_run rand rest (in_host host k x) bus l) (sym (append-nil log));
  }

  pub both :
      {s t : List (Option Bus)} {k l m : ℕ} {x y z : Transfer} {a b c : Bus} {u v : List ℕ}
      → Passes s k x a l y b u
      → Passes t l y b m z c v
      → Passes (s ++ t) k x a m z c (u ++ v)
  both {s} {t} {k} {l} {m} {x} {y} {z} {a} {b} {c} {u} {v} p q = record {
    run = λ rest log.
        ap (λ (w : List (Option Bus)). incoming_run rand w (in_host host k x) a log)
          (append_assoc s t rest)
        ∙ p.run (t ++ rest) log
        ∙ q.run rest (log ++ u)
        ∙ ap (λ (w : List ℕ). incoming_run rand rest (in_host host m z) c w) (append_assoc log u v);
  }
