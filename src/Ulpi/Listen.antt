-- ===== src/Ulpi/Listen.antt =====
-- What a silent link sees of a host that drives the bus through `ulpi_step_with`.
use misc_verilog_cores.Base.{
  ℕ, suc, ◌≡◌, ap, pos, is_negative, Result, ok, some, ◌>>=◌, List, [], ◌∷◌, ◌++◌, map,
}
use misc_verilog_cores.Ulpi.{Bus, byte, sig0, sig1, Transfer, Stepped, stepped}
use misc_verilog_cores.Ulpi.Run.{StepFn, after_host, step_loop}

-- A user that records the bus after each host step and leaves it alone.
abbrev pub listen : StepFn (List Bus)
listen log bus out = stepped (pos 0) (log ++ bus ∷ []) bus

-- A bus out of reset with the levels of DIR and NXT and the data of the PHY.
abbrev pub phy_bus : ℕ → ℕ → ℕ → ℕ → Bus
phy_bus dir nxt a b = record {
  clock = sig1;
  rst_n = sig1;
  dir = dir;
  stp = sig0;
  nxt = nxt;
  dat = byte a b;
}

-- The bus before a packet: turn-around, then an RX CMD with RxActive.
abbrev pub packet_start : List Bus
packet_start = phy_bus sig1 sig1 0x00 0xFF ∷ phy_bus sig1 sig0 0x5D 0x00 ∷ []

-- One byte of a packet.
abbrev pub packet_byte : ℕ → Bus
packet_byte x = phy_bus sig1 sig1 x 0x00

-- The bus after a packet: two RX CMDs without RxActive, then the release.
abbrev pub packet_end : List Bus
packet_end =
    phy_bus sig1 sig0 0x4C 0x00
    ∷ phy_bus sig1 sig0 0x4D 0x00
    ∷ phy_bus sig0 sig0 0x00 0xFF
    ∷ phy_bus sig0 sig0 0x00 0xFF
    ∷ []

abbrev pub packet_log : List ℕ → List Bus
packet_log bytes = packet_start ++ (map packet_byte bytes ++ packet_end)

module _ (host_fn : StepFn Transfer) {x x' : Transfer} {bus o : Bus} (fuel : ℕ)
    (log : List Bus) where
  -- A host step that returns 0 is one more round of the loop.
  pub listen_next :
      (out : Bus)
      → host_fn x bus out ≡ stepped (pos 0) x' o
      → step_loop host_fn listen (suc fuel) x log bus out
        ≡ step_loop host_fn listen fuel x' (log ++ o ∷ []) o o
  unfolding step_loop
  listen_next out e =
      ap
        (λ (r : Result (Stepped Transfer)).
          r >>= λ h. after_host listen (step_loop host_fn listen fuel) log (is_negative h.code) h)
        e

  -- A host step that returns 1 is the last.
  pub listen_last :
      (out : Bus)
      → host_fn x bus out ≡ stepped (pos 1) x' o
      → step_loop host_fn listen (suc fuel) x log bus out
        ≡ ok (some (record { code = pos 1; xfer = x'; user = log ++ o ∷ []; bus = o }))
  unfolding step_loop
  listen_last out e =
      ap
        (λ (r : Result (Stepped Transfer)).
          r >>= λ h. after_host listen (step_loop host_fn listen fuel) log (is_negative h.code) h)
        e
