-- ===== src/Cases/Ddr.antt =====
-- vpi/tc_ddr3out.c and vpi/tc_ddr3in.c: STORE and FETCH commands, and the answers to them.
use misc_verilog_cores.Base.{
  ℕ, zero, suc, ◌+◌, ◌*◌, bit_and, bit_or, shl, shr, u8, ltb, leb, if◌then◌else◌, pos, List, [],
  ◌∷◌, get_or, length, Result, ok, fault, bounds, ◌>>=◌, store,
}
use misc_verilog_cores.Ulpi.{out_token, no_xfer}
use misc_verilog_cores.Host.{Host, host_bulk_out}
use misc_verilog_cores.Cases.{
  Calls, Tried, tried, ddr3_in_ep, ddr3_out_ep, go_idle, address_token, data_crc, start_bulk_in,
}

-- `ddr3out_step_t` and `ddr3out_state_t`.
pub data DdrStep : Type 0 where
  ddr_cmd ddr_dat ddr_end : DdrStep

pub record DdrOut : Type 0 where
  pub addr : ℕ
  pub step : DdrStep
  pub iter : ℕ
  pub beat : ℕ
  pub out : ℕ
  pub inp : ℕ
  pub id : ℕ

abbrev pub ddr3out_lengths : List ℕ
ddr3out_lengths = 4 ∷ 4 ∷ 8 ∷ 16 ∷ 20 ∷ 12 ∷ 24 ∷ 0 ∷ []

-- `n - 1` of an `int`, cast to a byte.
abbrev pub minus_one8 : ℕ → ℕ
minus_one8 n = u8 (n + 255)

-- The assignments to `tx[0]` to `tx[5]`, from `tx[i]` on.
unfoldable pub store_from : ℕ → List ℕ → List ℕ → Result (List ℕ)
store_from i [] tx = ok tx
store_from i (v ∷ vs) tx = store tx i v >>= λ tx'. store_from (suc i) vs tx'

abbrev pub ddr_header : ℕ → ℕ → ℕ → ℕ → List ℕ
ddr_header op n addr id =
    op
    ∷ bit_or (minus_one8 n) 0x03
    ∷ bit_and addr 0xFF
    ∷ bit_and (shr addr 8) 0xFF
    ∷ bit_and (shr addr 16) 0xFF
    ∷ bit_or (bit_and (shr addr 24) 0x0F) (shl (bit_and id 0x0F) 4)
    ∷ []

-- The four bytes of a word, the low one first.
abbrev pub word_bytes : ℕ → List ℕ
word_bytes w = u8 w ∷ u8 (shr w 8) ∷ u8 (shr w 16) ∷ u8 (shr w 24) ∷ []

-- `for (int i=n; i--;) dst[i] = rand();`, where `dst` is `tx + 6` taken as 32-bit words.
unfoldable pub fill_words : (ℕ → ℕ) → ℕ → ℕ → List ℕ → Result (List ℕ)
fill_words rand k zero tx = ok tx
fill_words rand k (suc i) tx =
    store_from (6 + 4 * i) (word_bytes (rand k)) tx >>= λ tx'. fill_words rand (suc k) i tx'

unfoldable pub tc_ddr3out_cmd : (ℕ → ℕ) → ℕ → ℕ → DdrOut → Host → Result Host
tc_ddr3out_cmd rand k n st host = do
  header ← store_from 0 (ddr_header 0x01 n st.addr st.id) host.xfer.tx
  bytes ← fill_words rand k n header
  x ← data_crc (n * st.beat + 6) (record (address_token host st.out host.xfer) {
    type = out_token;
    tx_len = n * st.beat + 6;
    tx_ptr = 0;
    tx = bytes;
  })
  ok (record host { op = host_bulk_out; xfer = x })

unfoldable pub tc_ddr3out_res : DdrOut → Host → Host
tc_ddr3out_res st host = start_bulk_in st.inp host

-- `lengths[iter]`.
abbrev length_at : List ℕ → ℕ → Result ℕ
length_at lengths iter =
    if ltb iter (length lengths) then ok (get_or lengths iter 0) else fault bounds

unfoldable pub test_ddr3out : ℕ → DdrOut
test_ddr3out addr = record {
  addr = addr;
  step = ddr_cmd;
  iter = 0;
  beat = 4;
  out = ddr3_out_ep;
  inp = ddr3_in_ep;
  id = 1;
}

unfoldable pub tc_ddr3out_init : Calls → DdrOut → Host → Result (Tried DdrOut)
tc_ddr3out_init c st host =
    let t : DdrOut = record st {
      step = ddr_cmd;
      beat = 4;
      out = ddr3_out_ep;
      inp = ddr3_in_ep;
      id = bit_and (c.rand 0) 0x0F;
    } in
    length_at ddr3out_lengths st.iter >>= λ n.
    tc_ddr3out_cmd c.rand 1 n t host >>= λ h. tried (pos 0) t (record h { step = 0 })

-- `NUM_ITER` of vpi/tc_ddr3out.c.
abbrev ddr3out_iterations : ℕ
ddr3out_iterations = 7

abbrev ddr3out_at : DdrStep → Calls → DdrOut → Host → Result (Tried DdrOut)
ddr3out_at ddr_cmd c st host =
    let iter = u8 (st.iter + 1) in
    if ltb iter ddr3out_iterations
    then (length_at ddr3out_lengths iter >>= λ n.
        tc_ddr3out_cmd c.rand 0 n (record st { iter = iter }) host >>= λ h.
        tried (pos 0) (record st { iter = iter; step = ddr_cmd }) h)
    else tried (pos 0) (record st { iter = 0; step = ddr_dat }) (tc_ddr3out_res st host)
ddr3out_at ddr_dat c st host =
    let iter = u8 (st.iter + 1) in
    if ltb iter ddr3out_iterations
    then tried (pos 0) (record st { iter = iter; step = ddr_dat }) (tc_ddr3out_res st host)
    else tried (pos 1) (record st { iter = iter; step = ddr_end }) (go_idle host)
ddr3out_at ddr_end c st host = tried (pos 1) st host

unfoldable pub tc_ddr3out_step : Calls → DdrOut → Host → Result (Tried DdrOut)
tc_ddr3out_step c st host = ddr3out_at st.step c st host

-- `ddr3in_state_t`.
pub record DdrIn : Type 0 where
  pub addr : ℕ
  pub step : DdrStep
  pub iter : ℕ
  pub out : ℕ
  pub inp : ℕ
  pub id : ℕ

abbrev pub ddr3in_lengths : List ℕ
ddr3in_lengths = 4 ∷ 8 ∷ 16 ∷ 20 ∷ 12 ∷ 24 ∷ []

unfoldable pub tc_ddr3in_cmd : ℕ → DdrIn → Host → Result Host
tc_ddr3in_cmd n st host = do
  bytes ← store_from 0 (ddr_header 0x80 n st.addr st.id) host.xfer.tx
  x ← data_crc 6 (record (address_token host st.out host.xfer) {
    type = out_token;
    tx_len = 6;
    tx_ptr = 0;
    tx = bytes;
  })
  ok (record host { op = host_bulk_out; xfer = x })

unfoldable pub tc_ddr3in_dat : DdrIn → Host → Host
tc_ddr3in_dat st host = start_bulk_in st.inp host

-- `r` is what `rand` returns.
unfoldable pub test_ddr3in : ℕ → ℕ → DdrIn
test_ddr3in r addr = record {
  addr = addr;
  step = ddr_cmd;
  iter = 0;
  out = ddr3_out_ep;
  inp = ddr3_in_ep;
  id = bit_and r 0x0F;
}

unfoldable pub tc_ddr3in_init : DdrIn → Host → Result (Tried DdrIn)
tc_ddr3in_init st host =
    let t : DdrIn = record st { step = ddr_cmd; out = ddr3_out_ep; inp = ddr3_in_ep } in
    length_at ddr3in_lengths st.iter >>= λ n.
    tc_ddr3in_cmd n t host >>= λ h. tried (pos 0) t (record h { step = 0 })

abbrev ddr3in_iterations : ℕ
ddr3in_iterations = 6

abbrev no_stage : Host → Host
no_stage host = record host { xfer = record (host.xfer) { stage = no_xfer } }

abbrev ddr3in_at : DdrStep → DdrIn → Host → Result (Tried DdrIn)
ddr3in_at ddr_cmd st host =
    let iter = u8 (st.iter + 1) in
    if ltb iter ddr3in_iterations
    then (length_at ddr3in_lengths iter >>= λ n.
        tc_ddr3in_cmd n (record st { iter = iter }) host >>= λ h.
        tried (pos 0) (record st { iter = iter; step = ddr_cmd }) h)
    else tried (pos 0) (record st { iter = 0; step = ddr_dat }) (tc_ddr3in_dat st host)
ddr3in_at ddr_dat st host =
    let iter = u8 (st.iter + 1) in
    if leb ddr3in_iterations iter
    then tried (pos 1) (record st { iter = iter; step = ddr_end }) (go_idle host)
    else tried (pos 0) (record st { iter = iter; step = ddr_dat })
        (tc_ddr3in_dat st (no_stage host))
ddr3in_at ddr_end st host = tried (pos 1) st host

unfoldable pub tc_ddr3in_step : DdrIn → Host → Result (Tried DdrIn)
tc_ddr3in_step st host = ddr3in_at st.step st host
