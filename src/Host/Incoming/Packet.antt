-- ===== src/Host/Incoming/Packet.antt =====
-- The data packet of a bulk IN transaction of vpi/usb/usbhost.c under `usbh_step`.
use native.Mathlib.Decide.{ℕ_discrete}
use native.Mathlib.Nat.{add-zero}
use misc_verilog_cores.Base.{
  ℕ, suc, ◌+◌, ◌≤◌, ◌<◌, ◌≡◌, sym, ◌∙◌, true, false, ◌&&◌, ltb, leb, ◌==◌, if◌then◌else◌, pos, some,
  List, [], ◌∷◌, length, length-set, set, set_all, map, All, arith, subst,
}
use misc_verilog_cores.Ulpi.{sig0, sig1, Bus, Transfer, XferType, up_data0, up_data1, stepped}
use misc_verilog_cores.Ulpi.Step.Recv.{datax_recv_step}
use misc_verilog_cores.Ulpi.Receive.{
  taken, taken_yes, taken_no, InBody, is_up_data, body, body_step, body_take, body_wait,
}
use misc_verilog_cores.Host.{Host}
use misc_verilog_cores.Host.Bulk.{bulk_in_step, throttled}
use misc_verilog_cores.Host.StepLaws.{Released}
use misc_verilog_cores.Host.Transaction.{seen}
use misc_verilog_cores.Host.Incoming.{in_host, Passes, one_cycle, both, no_cycle}

-- What the host drives behind a step of the packet: a wait state now and then.
abbrev pub throttling : ℕ → Transfer → Bus → Bus
throttling r y o =
    if ltb 0 y.rx_ptr && (o.nxt == sig1 && throttled r) then record o { nxt = sig0 } else o

-- A step of `datax_recv_step` that goes on, in a packet that has begun or before the deadline.
pub received :
    (t : XferType) (host : Host) (r k : ℕ) (x y : Transfer) (inp o : Bus)
    → is_up_data t ≡ true
    → datax_recv_step (record x { type = t }) inp inp ≡ stepped (pos 0) y o
    → (y.rx_ptr == 0 && leb y.cycle k) ≡ false
    → bulk_in_step r (in_host host k (record x { type = t })) inp inp
      ≡ stepped (pos 0) (in_host host k y) (throttling r y o)
unfolding bulk_in_step
received up_data0 host r k x y inp o d step c = rw (step, c) (ground arith)
received up_data1 host r k x y inp o d step c = rw (step, c) (ground arith)
received _ host r k x y inp o d step c = cc

module _ (rand : ℕ → ℕ) (host : Host) (x : Transfer) (t : XferType) (up : is_up_data t ≡ true) where
  pub packet_cycle :
      (inp : Bus) (k : ℕ) (z y : Transfer) (bus o : Bus)
      → inp.rst_n ≡ sig1
      → k + 1 < 4294967296
      → datax_recv_step (record z { type = t }) inp inp ≡ stepped (pos 0) y o
      → (y.rx_ptr == 0 && leb y.cycle (k + 1)) ≡ false
      → seen (throttling (rand k) y o) ≡ []
      → Passes rand host
          (some inp ∷ [])
          k
          (record z { type = t })
          bus
          (k + 1)
          y
          (throttling (rand k) y o)
          []
  packet_cycle inp k z y bus o r h step c s =
      subst
        (λ (b : List ℕ).
          Passes rand host (some inp ∷ []) k (record z { type = t }) bus (k + 1) y
            (throttling (rand k) y o) b)
        s
        (one_cycle rand host (some inp) k (record z { type = t }) y bus (throttling (rand k) y o) r
          h (received t host (rand k) (k + 1) z y inp o up step c))

  -- A cycle of the body, then others.
  pub then_more :
      (inp : Bus) (inps : List Bus) (k : ℕ) (z y w : Transfer) (bus o o' : Bus)
      → inp.rst_n ≡ sig1
      → k + 1 < 4294967296
      → datax_recv_step (record z { type = t }) inp inp ≡ stepped (pos 0) y o
      → 0 < y.rx_ptr
      → o.dir ≡ sig0
      → Passes rand host
          (map some inps)
          (k + 1)
          y
          (throttling (rand k) y o)
          (k + 1 + length inps)
          w
          o'
          []
      → Passes rand host
          (map some (inp ∷ inps))
          k
          (record z { type = t })
          bus
          (k + length (inp ∷ inps))
          w
          o'
          []
  then_more inp inps k z y w bus o o' r h step p d rest =
      let count : k + 1 + length inps ≡ k + suc (length inps) = omega arith in
      subst
        (λ (c : ℕ).
          Passes rand host (map some (inp ∷ inps)) k (record z { type = t }) bus c w o' [])
        count
        (both rand host (packet_cycle inp k z y bus o r h step (ground arith) (ground arith)) rest)

  -- The cycles of the body bring the bytes `l`.
  abbrev pub Brings : List Bus → List ℕ → ℕ → ℕ → Bus → List ℕ → Type 0
  Brings inps bytes i k bus l =
      (o : Bus) × Passes rand host (map some inps) k (body t x bytes i) bus (k + length inps)
        (body t x (set_all bytes i l) (i + length l)) o []

  -- The bytes of the body behind the first one.
  pub body-Brings :
      (inps : List Bus) (bytes : List ℕ) (i k : ℕ) (bus : Bus)
      → All InBody inps
      → All Released inps
      → i + length (taken inps) ≤ length bytes
      → 0 < i
      → k + length inps < 4294967296
      → Brings inps bytes i k bus (taken inps)
  body-Brings [] bytes i k bus h r fits p small =
      (bus, rw (add-zero k, add-zero i) (no_cycle rand host k (body t x bytes i) bus))
  body-Brings (inp ∷ inps) bytes i k bus h r fits p small = elim (ℕ_discrete inp.nxt sig1) [
    | yes n ↦
        let tk : taken (inp ∷ inps) ≡ inp.dat.a ∷ taken inps = taken_yes inp inps n in
        let room : i + suc (length (taken inps)) ≤ length bytes = rw tk at fits in
        let index : suc i + length (taken inps) ≡ i + suc (length (taken inps)) = omega arith in
        let y = body t x (set bytes i inp.dat.a) (suc i) in
        let (o, rest) =
          body-Brings inps (set bytes i inp.dat.a) (suc i) (k + 1) (throttling (rand k) y inp) h.1
            r.1 (omega (arith, length-set bytes i inp.dat.a)) (omega arith) (omega arith) in
        subst (Brings (inp ∷ inps) bytes i k bus) (sym tk) (
          o,
          subst
              (λ (j : ℕ).
                Passes rand host (map some (inp ∷ inps)) k (body t x bytes i) bus
                  (k + length (inp ∷ inps))
                  (body t x (set_all (set bytes i inp.dat.a) (suc i) (taken inps)) j) o [])
              index
              (then_more inp inps k (body t x bytes i) y _ bus inp o r.0 (omega arith)
                (body_step t x bytes i inp inp up h.0.0
                  ∙ body_take x bytes t i inp h.0.1 n (omega arith))
                (omega arith) h.0.0 rest),
        )
    | no n ↦
        let tk : taken (inp ∷ inps) ≡ taken inps = taken_no inp inps n in
        let y = body t x bytes i in
        let held : Bus = record inp { nxt = sig1 } in
        let (o, rest) =
          body-Brings inps bytes i (k + 1) (throttling (rand k) y held) h.1 r.1 (rw tk at fits) p
            (omega arith) in
        subst (Brings (inp ∷ inps) bytes i k bus) (sym tk) (
          o,
          then_more inp inps k (body t x bytes i) y _ bus held o r.0 (omega arith)
              (body_step t x bytes i inp inp up h.0.0 ∙ body_wait x bytes t i inp h.0.1 n) p h.0.0
              rest,
        )
  ]
