-- ===== src/Cases/Prepared.antt =====
-- The bulk packets that the test cases prepare (`tc_bulkout_xfer` of vpi/tc_bulkout.c and its kin).
use misc_verilog_cores.Base.{
  ℕ, zero, suc, ◌+◌, ◌*◌, ◌/◌, ◌%◌, ◌≤◌, ◌<◌, ◌≡◌, refl, sym, ap, ap₂, ◌∙◌, bit_and, bit_or, shl,
  shr, u8, true, List, [], ◌∷◌, ◌++◌, length, take, drop, get_or, set, ok, arith, length-set,
  drop-set, drop-eq-cons, take-suc,
}
use misc_verilog_cores.Base.Bits.{and-mask}
use misc_verilog_cores.Crc.{crc5_calc, crc5_check, crc16_calc, crc16_check}
use misc_verilog_cores.Crc.Packet.{crc16_check-trailer}
use misc_verilog_cores.Crc.Detect.{crc16_calc-lt}
use misc_verilog_cores.Ulpi.{Transfer, out_token, transfer_tok}
use misc_verilog_cores.Ulpi.Laws.{transfer_tok_lem}
use misc_verilog_cores.Host.{Host, host_bulk_out}
use misc_verilog_cores.Host.RequestLaws.{two_bytes}
use misc_verilog_cores.Cases.{address_token, fill, data_crc, start_bulk_out}

-- The bytes of `n` draws, which `fill` writes from the last place to the first.
unfoldable pub drawn : (ℕ → ℕ) → ℕ → ℕ → List ℕ
drawn rand k zero = []
drawn rand k (suc n) = drawn rand (suc k) n ++ u8 (rand k) ∷ []

-- The token of a host's address and an endpoint.
abbrev pub ValidToken : Host → ℕ → Transfer → Type 0
ValidToken host ep y =
    ((y.tok1 + 256 * y.tok2) % 128 ≡ host.addr % 128)
    × ((y.tok1 + 256 * y.tok2) / 128 % 16 ≡ ep % 16)
    × (crc5_check (y.tok1 + 256 * y.tok2) ≡ true)

pub address_token_lem :
    (host : Host) (ep : ℕ) (x : Transfer) → ValidToken host ep (address_token host ep x)
unfolding address_token transfer_tok
address_token_lem host ep x =
    let z : Transfer = record x { address = host.addr; endpoint = ep } in
    let (l1, l2, addr, e, valid) = transfer_tok_lem z in
    let tok = crc5_calc (bit_or (bit_and host.addr 0x7F) (shl (bit_and ep 0x0F) 7)) in
    let same : bit_and (shr tok 8) 0xFF ≡ shr tok 8 = and-mask 8 (shr tok 8) ∙ omega (arith, l2) in
    rw (same) (addr, e, valid)

-- The first `n` places get these bytes, the others stay.
pub record Filled (n : ℕ) (bytes tx tx' : List ℕ) : Type 0 where
  pub front : take n tx' ≡ bytes
  pub back : drop n tx' ≡ drop n tx
  pub size : length tx' ≡ length tx

pub fill_lem :
    (rand : ℕ → ℕ) (k n : ℕ) (tx : List ℕ)
    → n ≤ length tx
    → (tx' : List ℕ) × (fill rand k n tx ≡ ok tx') × Filled n (drawn rand k n) tx tx'
unfolding fill drawn
fill_lem rand k zero tx h = (tx, refl, record { front = refl; back = refl; size = refl })
fill_lem rand k (suc i) tx h =
    let v = u8 (rand k) in
    let put = set tx i v in
    let (tx', e, f) = fill_lem rand (suc k) i put (omega (arith, length-set tx i v)) in
    let split : get_or tx' i 0 ∷ drop (suc i) tx' ≡ v ∷ drop (suc i) tx =
      sym (drop-eq-cons i tx' 0 (omega (arith, f.size, length-set tx i v)))
      ∙ f.back
      ∙ drop-set tx i v (omega arith) in
    let last : get_or tx' i 0 ≡ v = ap (λ l. get_or l 0 0) split in
    (
      tx',
      ground (arith, e),
      record {
        front =
            take-suc i tx' 0 (omega (arith, f.size, length-set tx i v))
            ∙ ap₂ (λ (l : List ℕ) (w : ℕ). l ++ w ∷ []) f.front last;
        back = ap (λ l. drop 1 l) split;
        size = f.size ∙ length-set tx i v;
      },
    )

-- The CRC bytes of a prefix.
pub data_crc_lem :
    (n : ℕ) (x : Transfer)
    → n ≤ length x.tx
    → (c1 c2 : ℕ) × (data_crc n x ≡ ok (record x { crc1 = c1; crc2 = c2 }))
      × (c1 < 256)
      × (crc16_check (take n x.tx ++ c1 ∷ c2 ∷ []) ≡ true)
unfolding data_crc
data_crc_lem n x h =
    let crc = crc16_calc (take n x.tx) in
    let parts = two_bytes crc (crc16_calc-lt (take n x.tx)) in
    (
      bit_and crc 0xFF,
      bit_and (shr crc 8) 0xFF,
      ground arith,
      rw (parts.1) (omega arith),
      rw (parts.1, parts.2) (crc16_check-trailer (take n x.tx)).0,
    )

-- A bulk OUT that a test case prepares fits the bus, for every host, endpoint and number of bytes that
-- the buffer has room for: the token carries the address of the host and the endpoint and passes
-- `crc5_check`, the data are the bytes that `rand` gave, they pass `crc16_check` with the two CRC
-- bytes behind them, the rest of the buffer stays, and the host is in a bulk OUT that starts.
pub bulk_out_prepared :
    (rand : ℕ → ℕ) (k n ep : ℕ) (host : Host)
    → n ≤ length host.xfer.tx
    → (h : Host) × (start_bulk_out rand k n ep host ≡ ok h)
      × (h.op ≡ host_bulk_out)
      × (h.xfer.type ≡ out_token)
      × (h.xfer.tx_len ≡ n)
      × (h.xfer.tx_ptr ≡ 0)
      × (h.xfer.endpoint ≡ ep)
      × (h.xfer.crc1 < 256)
      × ValidToken host ep h.xfer
      × (take n h.xfer.tx ≡ drawn rand k n)
      × (drop n h.xfer.tx ≡ drop n host.xfer.tx)
      × (crc16_check (take n h.xfer.tx ++ h.xfer.crc1 ∷ h.xfer.crc2 ∷ []) ≡ true)
unfolding start_bulk_out address_token
bulk_out_prepared rand k n ep host room =
    let (tx', e, f) = fill_lem rand k n host.xfer.tx room in
    let x : Transfer = record (address_token host ep host.xfer) {
      type = out_token;
      tx_len = n;
      tx_ptr = 0;
      tx = tx';
    } in
    let (c1, c2, d, small, valid) = data_crc_lem n x (omega (arith, f.size)) in
    (
      record host { op = host_bulk_out; xfer = record x { crc1 = c1; crc2 = c2 } },
      rw (e, d) refl,
      refl,
      refl,
      refl,
      refl,
      refl,
      small,
      address_token_lem host ep host.xfer,
      f.front,
      f.back,
      valid,
    )
