-- ===== src/Cases/Commands.antt =====
-- The DDR3 commands that vpi/tc_ddr3out.c and vpi/tc_ddr3in.c send: what their headers say, and the
-- packets around them.
use misc_verilog_cores.Base.{
  ℕ, zero, suc, ◌+◌, ◌*◌, ◌/◌, ◌%◌, ◌≤◌, ◌<◌, ◌≡◌, refl, sym, ap, ap₂, ◌∙◌, bit_and, bit_or, shl,
  shr, Bool, true, ◌==◌, ◌||◌, not, List, [], ◌∷◌, ◌++◌, length, take, drop, get_or, set, set_all,
  ok, arith, length-set, length-set_all, drop-set_all, take-set_all, take-add, drop-add,
  take-set_all_front, all_below, all_below-apply,
}
use mathlib.Core.List.{append-nil, append_assoc}
use misc_verilog_cores.Base.Bits.{and-mask}
use misc_verilog_cores.Crc.{crc16_check}
use misc_verilog_cores.Ulpi.{Transfer, out_token}
use misc_verilog_cores.Host.{Host, host_bulk_out}
use misc_verilog_cores.Cases.{address_token}
use misc_verilog_cores.Cases.Ddr.{
  DdrOut, minus_one8, store_from, ddr_header, word_bytes, fill_words, tc_ddr3out_cmd,
}
use misc_verilog_cores.Cases.Prepared.{ValidToken, address_token_lem, data_crc_lem}

store_from_lem :
    (i : ℕ) (vs tx : List ℕ) → i + length vs ≤ length tx → store_from i vs tx ≡ ok (set_all tx i vs)
unfolding store_from
store_from_lem i [] tx h = refl
store_from_lem i (v ∷ vs) tx h =
    let rest = store_from_lem (suc i) vs (set tx i v) (omega (arith, length-set tx i v)) in
    ground (arith, rest)

-- The bytes of `n` words, the first draw in the last place.
unfoldable pub drawn_words : (ℕ → ℕ) → ℕ → ℕ → List ℕ
drawn_words rand k zero = []
drawn_words rand k (suc n) = drawn_words rand (suc k) n ++ word_bytes (rand k)

-- The words go behind the first six bytes.
fill_words_lem :
    (rand : ℕ → ℕ) (k n : ℕ) (tx : List ℕ)
    → 6 + 4 * n ≤ length tx
    → (tx' : List ℕ) × (fill_words rand k n tx ≡ ok tx')
      × (take (6 + 4 * n) tx' ≡ take 6 tx ++ drawn_words rand k n)
      × (drop (6 + 4 * n) tx' ≡ drop (6 + 4 * n) tx)
      × (length tx' ≡ length tx)
unfolding fill_words drawn_words
fill_words_lem rand k zero tx h = (tx, refl, sym (append-nil (take 6 tx)), refl, refl)
fill_words_lem rand k (suc i) tx h =
    let m = 6 + 4 * i in
    let w = word_bytes (rand k) in
    let put = set_all tx m w in
    let more : 6 + 4 * suc i ≡ m + 4 = omega arith in
    let fits : m + 4 ≤ length tx = omega arith in
    let (tx', e, t, d, s) =
      fill_words_lem rand (suc k) i put (omega (arith, length-set_all tx m w)) in
    let behind : drop m tx' ≡ w ++ drop (m + 4) tx = d ∙ drop-set_all tx m w fits in
    (
      tx',
      rw (store_from_lem m w tx fits) e,
      rw (more) (
          take-add m 4 tx'
          ∙ ap₂ (λ (a b : List ℕ). a ++ take 4 b)
              (t
                ∙ ap (λ (a : List ℕ). a ++ drawn_words rand (suc k) i)
                    (take-set_all_front 6 m tx w (omega arith)))
              behind
          ∙ append_assoc (take 6 tx) (drawn_words rand (suc k) i) w),
      rw (more) (drop-add m 4 tx' ∙ ap (drop 4) behind),
      s ∙ length-set_all tx m w,
    )

-- The length byte of `n` words, for the multiples of four up to 256.
abbrev length_byte : ℕ → Bool
length_byte n = not (n % 4 == 0) || (n == 0 || (bit_or (minus_one8 n) 0x03 + 1 == n))

length_table : all_below 257 length_byte ≡ true
unfolding all_below
length_table = refl

abbrev nibbles : ℕ → ℕ → Bool
nibbles a i = bit_or a (shl i 4) == a + 16 * i

nibble_table : all_below 16 (λ a. all_below 16 (nibbles a)) ≡ true
unfolding all_below
nibble_table = refl

-- The fields of a command, as the receiver of the packet reads them.
abbrev pub command_of : List ℕ → ℕ
command_of bytes = get_or bytes 0 0

abbrev pub words_of : List ℕ → ℕ
words_of bytes = get_or bytes 1 0 + 1

abbrev pub address_of : List ℕ → ℕ
address_of bytes =
    get_or bytes 2 0
    + 256 * get_or bytes 3 0
    + 65536 * get_or bytes 4 0
    + 16777216 * (get_or bytes 5 0 % 16)

abbrev pub id_of : List ℕ → ℕ
id_of bytes = get_or bytes 5 0 / 16

length_byte_lem : (n : ℕ) → 0 < n → n ≤ 256 → n % 4 ≡ 0 → bit_or (minus_one8 n) 0x03 + 1 ≡ n
length_byte_lem n p q r =
    ground (arith, all_below-apply 257 length_byte n (omega arith) length_table)

top_byte : (a id : ℕ) → bit_or (bit_and a 0x0F) (shl (bit_and id 0x0F) 4) ≡ a % 16 + 16 * (id % 16)
top_byte a id =
    let row = all_below-apply 16 _ (a % 16) (omega arith) nibble_table in
    rw (and-mask 4 a, and-mask 4 id)
      (ground (arith, all_below-apply 16 (nibbles (a % 16)) (id % 16) (omega arith) row))

header_lem :
    (op n addr id : ℕ) (rest : List ℕ)
    → 0 < n
    → n ≤ 256
    → n % 4 ≡ 0
    → let bytes = ddr_header op n addr id ++ rest in
      (command_of bytes ≡ op)
      × (words_of bytes ≡ n)
      × (address_of bytes ≡ addr % 268435456)
      × (id_of bytes ≡ id % 16)
header_lem op n addr id rest p q r =
    let top = top_byte (shr addr 24) id in
    (
      refl,
      length_byte_lem n p q r,
      rw (top, and-mask 8 addr, and-mask 8 (shr addr 8), and-mask 8 (shr addr 16)) (omega arith),
      rw (top) (omega arith),
    )

-- A STORE command of a multiple of four words, at most 256, with four bytes to a beat: whatever the
-- state of the test and the host, the packet that `tc_ddr3out_cmd` prepares says STORE and carries the
-- number of words, the low 28 bits of the address, the low 4 bits of the identifier and, behind the
-- six bytes of the header, the words that `rand` gave, and all of it passes `crc16_check` with the CRC
-- bytes. Its token carries the address of the host and the endpoint of the test.
pub ddr3_store_sent :
    (rand : ℕ → ℕ) (k n : ℕ) (st : DdrOut) (host : Host)
    → 0 < n
    → n ≤ 256
    → n % 4 ≡ 0
    → st.beat ≡ 4
    → 6 + 4 * n ≤ length host.xfer.tx
    → (h : Host) × (tc_ddr3out_cmd rand k n st host ≡ ok h)
      × (h.op ≡ host_bulk_out)
      × (h.xfer.tx_len ≡ 6 + 4 * n)
      × ValidToken host st.out h.xfer
      × (let bytes = take (6 + 4 * n) h.xfer.tx in
          (command_of bytes ≡ 0x01)
          × (words_of bytes ≡ n)
          × (address_of bytes ≡ st.addr % 268435456)
          × (id_of bytes ≡ st.id % 16)
          × (drop 6 bytes ≡ drawn_words rand k n)
          × (crc16_check (bytes ++ h.xfer.crc1 ∷ h.xfer.crc2 ∷ []) ≡ true))
unfolding tc_ddr3out_cmd address_token
ddr3_store_sent rand k n st host p q r beat room =
    let tx = host.xfer.tx in
    let head = ddr_header 0x01 n st.addr st.id in
    let put = set_all tx 0 head in
    let len : n * st.beat + 6 ≡ 6 + 4 * n = rw (beat) (omega arith) in
    let (tx', e, t, d, s) = fill_words_lem rand k n put (omega (arith, length-set_all tx 0 head)) in
    let size : length tx' ≡ length tx = s ∙ length-set_all tx 0 head in
    let whole : take (6 + 4 * n) tx' ≡ head ++ drawn_words rand k n =
      t ∙ ap (λ (a : List ℕ). a ++ drawn_words rand k n) (take-set_all tx 0 head (omega arith)) in
    let x : Transfer = record (address_token host st.out host.xfer) {
      type = out_token;
      tx_len = 6 + 4 * n;
      tx_ptr = 0;
      tx = tx';
    } in
    let (c1, c2, crc, small, valid) = data_crc_lem (6 + 4 * n) x (omega (arith, size)) in
    let (op, words, addr, id) = header_lem 0x01 n st.addr st.id (drawn_words rand k n) p q r in
    (
      record host { op = host_bulk_out; xfer = record x { crc1 = c1; crc2 = c2 } },
      rw (len, store_from_lem 0 head tx (omega arith), e, crc) refl,
      refl,
      refl,
      address_token_lem host st.out host.xfer,
      (rw (whole) op, rw (whole) words, rw (whole) addr, rw (whole) id, rw (whole) refl, valid),
    )
