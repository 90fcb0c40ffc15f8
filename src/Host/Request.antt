-- ===== src/Host/Request.antt =====
-- vpi/usb/stdreq.h and the requests of vpi/usb/stdreq.c. The bytes of a request are those of a
-- little-endian machine with 64-bit pointers.
use misc_verilog_cores.Base.{
  ℕ, ◌/◌, ◌%◌, bit_and, shl, shr, ◌||◌, ◌==◌, ltb, if◌then◌else◌, ℤ, pos, negsuc, List, [], ◌∷◌,
  ◌++◌, length, drop, set,
}
use misc_verilog_cores.Crc.{crc5_calc, crc16_calc}
use misc_verilog_cores.Ulpi.{Transfer, sig0, setup, no_xfer, max_config_size}
use misc_verilog_cores.Host.{Host, host_setup, usbh_busy}

abbrev pub stdreq_get_status_code : ℕ
stdreq_get_status_code = 0

abbrev pub stdreq_set_address_code : ℕ
stdreq_set_address_code = 5

abbrev pub stdreq_get_descriptor_code : ℕ
stdreq_get_descriptor_code = 6

abbrev pub stdreq_set_configuration_code : ℕ
stdreq_set_configuration_code = 9

abbrev desc_device : ℕ
desc_device = 1

abbrev desc_configuration : ℕ
desc_configuration = 2

-- `usb_stdreq_t`; `pointer` is the eight bytes of its field `data`.
pub record StdReq : Type 0 where
  pub bm_request_type : ℕ
  pub b_request : ℕ
  pub w_value : ℕ
  pub w_index : ℕ
  pub w_length : ℕ
  pub pointer : List ℕ

abbrev null : List ℕ
null = 0 ∷ 0 ∷ 0 ∷ 0 ∷ 0 ∷ 0 ∷ 0 ∷ 0 ∷ []

-- The first 8 bytes of a request in memory.
abbrev pub request_bytes : StdReq → List ℕ
request_bytes req =
    req.bm_request_type
    ∷ req.b_request
    ∷ req.w_value % 256
    ∷ req.w_value / 256
    ∷ req.w_index % 256
    ∷ req.w_index / 256
    ∷ req.w_length % 256
    ∷ req.w_length / 256
    ∷ []

-- `memcpy(dst, src, length of src)`.
abbrev pub copy_over : List ℕ → List ℕ → List ℕ
copy_over src dst = src ++ drop (length src) dst

unfoldable pub stdreq_start : Host → StdReq → ℤ × Host
stdreq_start host req =
    let tok = crc5_calc (bit_and host.addr 0x7F) in
    let crc = crc16_calc (request_bytes req) in
    let x : Transfer = host.xfer in
    (
      pos 1,
      record host {
        xfer = record x {
          address = host.addr;
          endpoint = 0;
          ep_seq = set x.ep_seq 0 sig0;
          tok1 = bit_and tok 0xFF;
          tok2 = bit_and (shr tok 8) 0xFF;
          type = setup;
          stage = no_xfer;
          tx_len = 8;
          tx_ptr = 0;
          crc1 = bit_and crc 0xFF;
          crc2 = bit_and (shr crc 8) 0xFF;
          tx = copy_over (request_bytes req ++ req.pointer) x.tx;
          rx_len = pos host.len;
          rx_ptr = 0;
        };
        op = host_setup;
        step = 0;
      },
    )

-- `get_descriptor`, which always returns 1; `desc` is the pointer.
unfoldable pub get_descriptor : ℕ → ℕ → ℕ → List ℕ → StdReq
get_descriptor type lang len desc = record {
  bm_request_type = 0x80;
  b_request = stdreq_get_descriptor_code;
  w_value = type;
  w_index = lang;
  w_length = len;
  pointer = desc;
}

-- `desc` is what `malloc` returns.
unfoldable pub stdreq_get_descriptor : List ℕ → Host → ℕ → ℤ × Host
stdreq_get_descriptor desc host num =
    if usbh_busy host
    then (negsuc 0, host)
    else stdreq_start host (get_descriptor num 0 max_config_size desc)

unfoldable pub stdreq_get_status : Host → ℤ × Host
stdreq_get_status host =
    if usbh_busy host
    then (negsuc 0, host)
    else stdreq_start host (record {
      bm_request_type = 0x80;
      b_request = stdreq_get_status_code;
      w_value = 0;
      w_index = 0;
      w_length = 2;
      pointer = null;
    })

unfoldable pub stdreq_get_desc_device : Host → ℤ × Host
stdreq_get_desc_device host =
    if usbh_busy host
    then (negsuc 0, host)
    else stdreq_start host (record {
      bm_request_type = 0x80;
      b_request = stdreq_get_descriptor_code;
      w_value = shl desc_device 8;
      w_index = 0;
      w_length = max_config_size;
      pointer = null;
    })

unfoldable pub stdreq_get_desc_config : Host → ℕ → ℤ × Host
stdreq_get_desc_config host len =
    if usbh_busy host
    then (negsuc 0, host)
    else stdreq_start host (record {
      bm_request_type = 0x80;
      b_request = stdreq_get_descriptor_code;
      w_value = shl desc_configuration 8;
      w_index = 0;
      w_length = if ltb max_config_size len || len == 0 then max_config_size else len;
      pointer = null;
    })

-- These two do not ask whether the host is idle.
unfoldable pub stdreq_set_address : Host → ℕ → ℤ × Host
stdreq_set_address host addr = stdreq_start host (record {
  bm_request_type = 0x00;
  b_request = stdreq_set_address_code;
  w_value = addr;
  w_index = 0;
  w_length = 0;
  pointer = null;
})

unfoldable pub stdreq_set_config : Host → ℕ → ℤ × Host
stdreq_set_config host conf = stdreq_start host (record {
  bm_request_type = 0x00;
  b_request = stdreq_set_configuration_code;
  w_value = conf;
  w_index = 0;
  w_length = 0;
  pointer = null;
})
