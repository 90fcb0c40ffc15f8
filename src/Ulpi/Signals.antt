-- ===== src/Ulpi/Signals.antt =====
-- vpi/usb/ulpi.h: the levels of the ULPI bus, PIDs and RX CMDs, and the types of the bus and of
-- transfers. A `uint8_t` that only holds enumerators is the data type of these.
use misc_verilog_cores.Base.{ℕ, List, ℤ}

-- `bit_t`, the VPI scalar values.
abbrev pub sig0 : ℕ
sig0 = 0

abbrev pub sig1 : ℕ
sig1 = 1

abbrev pub sigz : ℕ
sigz = 2

abbrev pub sigx : ℕ
sigx = 3

abbrev pub max_packet_size : ℕ
max_packet_size = 512

abbrev pub max_config_size : ℕ
max_config_size = 64

abbrev pub usbpid_out : ℕ
usbpid_out = 0b0001

abbrev pub usbpid_in : ℕ
usbpid_in = 0b1001

abbrev pub usbpid_sof : ℕ
usbpid_sof = 0b0101

abbrev pub usbpid_setup : ℕ
usbpid_setup = 0b1101

abbrev pub usbpid_data0 : ℕ
usbpid_data0 = 0b0011

abbrev pub usbpid_data1 : ℕ
usbpid_data1 = 0b1011

abbrev pub usbpid_ack : ℕ
usbpid_ack = 0b0010

abbrev pub usbpid_nak : ℕ
usbpid_nak = 0b1010

abbrev pub usbpid_stall : ℕ
usbpid_stall = 0b1110

abbrev pub usbpid_nyet : ℕ
usbpid_nyet = 0b0110

abbrev pub usbpid_ping : ℕ
usbpid_ping = 0b0100

-- `USBPID_DATA0 | 0x40` and the like.
abbrev pub ulpitx_data0 : ℕ
ulpitx_data0 = 0x43

abbrev pub ulpitx_data1 : ℕ
ulpitx_data1 = 0x4B

abbrev pub ulpitx_ack : ℕ
ulpitx_ack = 0x42

abbrev pub rx_event_mask : ℕ
rx_event_mask = 0x30

abbrev pub rx_active_bits : ℕ
rx_active_bits = 0x10

-- `byte_t`: `a` is the value and `b` marks the bits that are not driven.
pub record Byte : Type 0 where
  pub a : ℕ
  pub b : ℕ

abbrev pub byte : ℕ → ℕ → Byte
byte x y = record { a = x; b = y }

-- `ulpi_bus_t`; `dat` is its field `data`.
pub record Bus : Type 0 where
  pub clock : ℕ
  pub rst_n : ℕ
  pub dir : ℕ
  pub stp : ℕ
  pub nxt : ℕ
  pub dat : Byte

-- `out->data.a = v`.
abbrev pub set_a : ℕ → Bus → Byte
set_a v bus = byte v bus.dat.b

-- `xfer_type_t`.
pub data XferType : Type 0 where
  xfer_idle : XferType
  nopid reg_write reg_read : XferType
  setup out_token in_token sof ping dn_data0 dn_data1 dn_ack : XferType
  up_ack up_nyet up_nak up_stall up_data0 up_data1 time_out : XferType

-- `xfer_stage_t`.
pub data XferStage : Type 0 where
  no_xfer assert_dir init_rxcmd token_pid token1 token2 hsk_pid hsk_stop : XferStage
  datax_pid datax_body datax_crc1 datax_crc2 datax_stop ulpi_turn end_rxcmd eop : XferStage
  regw regr regd line_idle : XferStage

-- The numbers of the enumerators, for comparisons.
abbrev pub type_number : XferType → ℕ
type_number xfer_idle = 0
type_number nopid = 1
type_number reg_write = 2
type_number reg_read = 3
type_number setup = 4
type_number out_token = 5
type_number in_token = 6
type_number sof = 7
type_number ping = 8
type_number dn_data0 = 9
type_number dn_data1 = 10
type_number dn_ack = 11
type_number up_ack = 12
type_number up_nyet = 13
type_number up_nak = 14
type_number up_stall = 15
type_number up_data0 = 16
type_number up_data1 = 17
type_number time_out = 18

abbrev pub stage_number : XferStage → ℕ
stage_number no_xfer = 0
stage_number assert_dir = 1
stage_number init_rxcmd = 2
stage_number token_pid = 3
stage_number token1 = 4
stage_number token2 = 5
stage_number hsk_pid = 6
stage_number hsk_stop = 7
stage_number datax_pid = 8
stage_number datax_body = 9
stage_number datax_crc1 = 10
stage_number datax_crc2 = 11
stage_number datax_stop = 12
stage_number ulpi_turn = 13
stage_number end_rxcmd = 14
stage_number eop = 15
stage_number regw = 16
stage_number regr = 17
stage_number regd = 18
stage_number line_idle = 19

-- `transfer_t`. `rx_len` is an `int` that `rx_ptr - 2` may make negative; the other lengths and
-- pointers never are.
pub record Transfer : Type 0 where
  pub address : ℕ
  pub endpoint : ℕ
  pub type : XferType
  pub stage : XferStage
  pub ep_seq : List ℕ
  pub cycle : ℕ
  pub tx : List ℕ
  pub tx_len : ℕ
  pub tx_ptr : ℕ
  pub rx : List ℕ
  pub rx_len : ℤ
  pub rx_ptr : ℕ
  pub tok1 : ℕ
  pub tok2 : ℕ
  pub crc1 : ℕ
  pub crc2 : ℕ
