-- ===== src/Host/Transaction/Payload.antt =====
-- The bytes of the data packet of a bulk OUT transaction of vpi/usb/usbhost.c under `usbh_step`.
use mathlib.Core.List.{append_assoc}
use misc_verilog_cores.Base.{
  ℕ, zero, suc, ◌+◌, ◌*◌, ◌≤◌, ◌≡◌, refl, ap, ◌∙◌, true, List, [], ◌∷◌, ◌++◌, length, get_or, take,
  drop, drop-eq-cons, take-suc-eq-cons, arith,
}
use misc_verilog_cores.Ulpi.{
  Transfer, XferType, no_xfer, assert_dir, init_rxcmd, datax_pid, datax_body, datax_crc1,
}
use misc_verilog_cores.Ulpi.Step.Send.{datax_send_at, datax_pid_byte}
use misc_verilog_cores.Ulpi.SendRun.{is_dn_data, InSequence, sending, payload}
use misc_verilog_cores.Ulpi.Listen.{phy_bus, packet_byte}
use misc_verilog_cores.Host.{Host}
use misc_verilog_cores.Host.Transaction.{Reaches, Reaches-more}
use misc_verilog_cores.Host.Transaction.Data.{plain, either, sent, close-Reaches}

module _ (host : Host) (x : Transfer) (t : XferType) (is_data : is_dn_data t ≡ true)
    (s : InSequence t x) where
  body-Reaches :
      (left i c : ℕ)
      → i + left ≡ x.tx_len
      → x.tx_len ≤ length x.tx
      → Reaches host
          (sent host x t is_data s)
          (2 * left + 6)
          (sending t x datax_body i)
          (packet_byte c)
          (take left (drop i x.tx) ++ x.crc1 ∷ x.crc2 ∷ [])
  unfolding datax_send_at
  body-Reaches zero i c e fits =
      plain host x t is_data s 5 datax_body datax_crc1 i x.tx_len (packet_byte c)
        (packet_byte x.crc1) (x.crc2 ∷ []) refl (λ rand. ground arith) (ground arith)
        (close-Reaches host x t is_data s x.crc1)
  body-Reaches (suc left) i c e fits =
      let y = get_or x.tx i 0 in
      let one : suc i ≡ i + 1 = omega arith in
      let more : drop i x.tx ≡ y ∷ drop (i + 1) x.tx =
        drop-eq-cons i x.tx 0 (omega arith) ∙ ap (λ (k : ℕ). y ∷ drop k x.tx) one in
      rw more (
        Reaches-more host (sent host x t is_data s) _ (2 * suc left + 6) (sending t x datax_body i)
          (packet_byte c) _ (omega arith)
          (either host x t is_data s (2 * left + 6) datax_body datax_body i (i + 1) c 0
            (packet_byte y) _ (λ nxt a'. ground arith)
            (body-Reaches left (i + 1) y (omega arith) fits)))

  payload-Reaches :
      (n c : ℕ)
      → n ≡ x.tx_len
      → n ≤ length x.tx
      → Reaches host
          (sent host x t is_data s)
          (2 * n + 6)
          (sending t x datax_pid 0)
          (packet_byte c)
          (payload x n ++ x.crc2 ∷ [])
  unfolding datax_send_at
  payload-Reaches zero c e fits =
      plain host x t is_data s 5 datax_pid datax_crc1 0 x.tx_len (packet_byte c) (packet_byte 0x00)
        (x.crc2 ∷ []) refl (λ rand. ground arith) (ground arith)
        (close-Reaches host x t is_data s 0x00)
  payload-Reaches (suc n) c e fits =
      let y = get_or x.tx 0 0 in
      let first : take (suc n) x.tx ≡ y ∷ take n (drop 1 x.tx) =
        take-suc-eq-cons n x.tx 0 (omega arith) in
      let grouped : payload x (suc n) ++ x.crc2 ∷ []
          ≡ y ∷ (take n (drop 1 x.tx) ++ x.crc1 ∷ x.crc2 ∷ []) =
        append_assoc (take (suc n) x.tx) (x.crc1 ∷ []) (x.crc2 ∷ [])
        ∙ ap (λ (l : List ℕ). l ++ x.crc1 ∷ x.crc2 ∷ []) first in
      rw grouped (
        Reaches-more host (sent host x t is_data s) _ (2 * suc n + 6) (sending t x datax_pid 0)
          (packet_byte c) _ (omega arith)
          (either host x t is_data s (2 * n + 6) datax_pid datax_body 0 1 c 0 (packet_byte y) _
            (λ nxt a'. ground arith) (body-Reaches n 1 y (omega arith) (omega arith))))

  -- The data packet: four more steps before its bytes.
  pub packet-Reaches :
      x.tx_len ≤ length x.tx
      → Reaches host
          (sent host x t is_data s)
          (2 * x.tx_len + 10)
          (sending t x no_xfer 0)
          (phy_bus 0 0 0x00 0xFF)
          (datax_pid_byte t ∷ (payload x x.tx_len ++ x.crc2 ∷ []))
  unfolding datax_send_at
  packet-Reaches fits =
      let n = 2 * x.tx_len + 6 in
      let pid = datax_pid_byte t in
      Reaches-more host (sent host x t is_data s) (suc (suc (suc (suc n)))) (2 * x.tx_len + 10)
        (sending t x no_xfer 0) (phy_bus 0 0 0x00 0xFF) _ (omega arith)
        (plain host x t is_data s (suc (suc (suc n))) no_xfer assert_dir 0 0 (phy_bus 0 0 0x00 0xFF)
          (phy_bus 1 1 0x00 0xFF) _ refl (λ rand. ground arith) refl
          (either host x t is_data s (suc n) assert_dir init_rxcmd 0 0 0x00 0xFF
            (phy_bus 1 0 0x5D 0x00) _ (λ nxt a'. refl)
            (plain host x t is_data s n init_rxcmd datax_pid 0 0 (phy_bus 1 0 0x5D 0x00)
              (packet_byte pid) _ refl (λ rand. ground arith) refl
              (payload-Reaches x.tx_len pid refl fits))))
