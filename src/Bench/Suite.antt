-- ===== src/Bench/Suite.antt =====
-- The test cases of `ut_compiletf` in vpi/ulpisim.c, as one kind of test with its two operations.
use misc_verilog_cores.Base.{ℕ, List, [], ◌∷◌, length, Option, none, some, Result, ◌>>=◌}
use misc_verilog_cores.Ulpi.{Bus}
use misc_verilog_cores.Host.{Host, usbh_init}
use misc_verilog_cores.Phy.{Phy}
use misc_verilog_cores.Cases.{Calls, Tried, tried, Stage, send_setup}
use misc_verilog_cores.Cases.Control.{
  tc_getdesc_init, tc_getdesc_step, ShortState, tc_setaddr_init, tc_setaddr_step, test_setaddr,
  tc_setconf_init, tc_setconf_step, test_setconf,
}
use misc_verilog_cores.Cases.Requests.{
  GetState, test_getconf, tc_getconf_init, tc_getconf_step, test_getstrs, tc_getstrs_init,
  tc_getstrs_step,
}
use misc_verilog_cores.Cases.Bulk.{
  WaitState, wait_idle, tc_waitsof_init, tc_waitsof_step, BulkInState, test_bulkin, tc_bulkin_init,
  tc_bulkin_step, BulkOutState, bulk_out0, tc_bulkout_init, tc_bulkout_step,
}
use misc_verilog_cores.Cases.Ddr.{
  DdrOut, test_ddr3out, tc_ddr3out_init, tc_ddr3out_step, DdrIn, test_ddr3in, tc_ddr3in_init,
  tc_ddr3in_step,
}
use misc_verilog_cores.Cases.Parity.{ParityState, test_parity, tc_parity_init, tc_parity_step}
use misc_verilog_cores.Bench.{Ut, ut_power_on, TestOps}

-- A test case with its data; `none` stands for the `NULL` of a refused argument.
pub data TestCase : Type 0 where
  getdesc : Stage → TestCase
  setaddr setconf : ShortState → TestCase
  getconf getstrs : GetState → TestCase
  waitsof : WaitState → TestCase
  bulkout : BulkOutState → TestCase
  ddr3out : DdrOut → TestCase
  ddr3in : DdrIn → TestCase
  bulkin : BulkInState → TestCase
  parity : ParityState → TestCase

abbrev pub tag : {T : Type 0} → (T → TestCase) → Result (Tried T) → Result (Tried TestCase)
tag f r = r >>= λ t. tried t.code (f t.test) t.host

unfoldable pub case_init : Calls → TestCase → Host → Result (Tried TestCase)
case_init c (getdesc st) host = tag getdesc (tc_getdesc_init c st host)
case_init c (setaddr st) host = tag setaddr (tc_setaddr_init st host)
case_init c (setconf st) host = tag setconf (tc_setconf_init st host)
case_init c (getconf st) host = tag getconf (tc_getconf_init st host)
case_init c (getstrs st) host = tag getstrs (tc_getstrs_init c st host)
case_init c (waitsof st) host = tag waitsof (tc_waitsof_init st host)
case_init c (bulkout st) host = tag bulkout (tc_bulkout_init c st host)
case_init c (ddr3out st) host = tag ddr3out (tc_ddr3out_init c st host)
case_init c (ddr3in st) host = tag ddr3in (tc_ddr3in_init st host)
case_init c (bulkin st) host = tag bulkin (tc_bulkin_init st host)
case_init c (parity st) host = tag parity (tc_parity_init c st host)

unfoldable pub case_step : Calls → TestCase → Host → Result (Tried TestCase)
case_step c (getdesc st) host = tag getdesc (tc_getdesc_step st host)
case_step c (setaddr st) host = tag setaddr (tc_setaddr_step st host)
case_step c (setconf st) host = tag setconf (tc_setconf_step st host)
case_step c (getconf st) host = tag getconf (tc_getconf_step st host)
case_step c (getstrs st) host = tag getstrs (tc_getstrs_step c st host)
case_step c (waitsof st) host = tag waitsof (tc_waitsof_step st host)
case_step c (bulkout st) host = tag bulkout (tc_bulkout_step c st host)
case_step c (ddr3out st) host = tag ddr3out (tc_ddr3out_step c st host)
case_step c (ddr3in st) host = tag ddr3in (tc_ddr3in_step st host)
case_step c (bulkin st) host = tag bulkin (tc_bulkin_step st host)
case_step c (parity st) host = tag parity (tc_parity_step c st host)

unfoldable pub case_ops : TestOps TestCase
case_ops = record { init = case_init; step = case_step }

-- The list of tests; `r` is what `rand` returns in `test_ddr3in` and `m`, `m'`, `m''` are the three
-- memories of 512 bytes. `none` where a constructor refuses its argument.
unfoldable pub test_list : ℕ → List ℕ → List ℕ → List ℕ → Option (List TestCase)
test_list r m m' m'' = elim (test_setaddr 0x23) [
  | none ↦ none
  | some address ↦ elim (test_setconf 0x01) [
    | none ↦ none
    | some config ↦ some (
        getdesc send_setup
        ∷ setaddr address
        ∷ getconf (test_getconf m)
        ∷ setconf config
        ∷ getstrs (test_getstrs m')
        ∷ waitsof wait_idle
        ∷ bulkout bulk_out0
        ∷ ddr3out (test_ddr3out 0x02A8F0)
        ∷ waitsof wait_idle
        ∷ ddr3in (test_ddr3in r 0x02A8F0)
        ∷ bulkout bulk_out0
        ∷ bulkin (test_bulkin 1)
        ∷ waitsof wait_idle
        ∷ getconf (test_getconf m'')
        ∷ parity test_parity
        ∷ waitsof wait_idle
        ∷ [])
  ]
]

-- The state that `ut_compiletf` sets up: a PHY and a bus of zeros, the host initialised.
unfoldable pub bench_init : List ℕ → Phy → Bus → Host → List TestCase → Ut TestCase
bench_init memory phy bus host tests = record {
  tick_ns = 0;
  t_recip = 0;
  cycle = 0;
  bus = bus;
  phy = phy;
  host = usbh_init memory host;
  sync_flag = 0;
  test_num = length tests;
  test_curr = 0;
  test_step = 0;
  tests = tests;
  op = ut_power_on;
}
