-- ===== src/Host/Run.antt =====
-- Runs of the bulk transactions of vpi/usb/usbhost.c on a bus that nobody else drives.
use misc_verilog_cores.Base.{ℕ, zero, suc, pos, negsuc, Result, ok, ◌>>=◌, List, [], ◌∷◌, ◌++◌}
use misc_verilog_cores.Ulpi.{Bus, Stepped}
use misc_verilog_cores.Host.{Host}

-- The bus after each step, as long as the result is 0.
abbrev log_step :
    (Host → Bus → List Bus → Result (Stepped Host × List Bus))
    → List Bus
    → Stepped Host
    → Result (Stepped Host × List Bus)
log_step rest log s = elim s.code [
  | pos zero ↦ rest s.state s.out (log ++ s.out ∷ [])
  | pos (suc n) ↦ ok (s, log ++ s.out ∷ [])
  | negsuc n ↦ ok (s, log ++ s.out ∷ [])
]

module _ (step : Host → Bus → Bus → Result (Stepped Host)) where
  -- At most so many steps, from a host, a bus and what was logged before.
  unfoldable pub bulk_run : ℕ → Host → Bus → List Bus → Result (Stepped Host × List Bus)
  bulk_run zero host bus log = ok (record { code = pos 0; state = host; out = bus }, log)
  bulk_run (suc n) host bus log = step host bus bus >>= log_step (bulk_run n) log
