-- ===== src/Fifo/Packets.antt =====
-- `store_packet`, `fetch_packet` and `fetch_stop_go` of vpi/packet_tb.c: one clock edge of a packet
-- that is written to the FIFO or read from it.
use misc_verilog_cores.Base.{
  ℕ, ◌+◌, bit_and, true, false, ◌&&◌, ◌||◌, ◌==◌, ◌!=◌, ltb, if◌then◌else◌, pos, is_negative,
  is_positive, Result, ok, ◌>>=◌, ◌>>◌, assert, load,
}
use misc_verilog_cores.Ulpi.{sig0, sig1, byte}
use misc_verilog_cores.Fifo.{Sigs, TcState, Tb, tb}

-- What is driven when the packet goes on; `pt_error` is the overflow.
unfoldable pub store_drive : Sigs → TcState → Result Tb
store_drive curr st =
    let lst = if ltb (st.head + 1) st.size then sig0 else sig1 in
    if ltb st.head st.size
    then (load st.buf st.head >>= λ b.
        tb (pos 0) (record curr { w_lst = lst; w_vld = sig1; w_dat = byte b 0x00 }) st false)
    else tb (pos 0) (record curr { w_lst = lst }) st true

unfoldable pub store_packet : Sigs → TcState → Result Tb
store_packet curr st =
    assert (ltb 0 st.size)
    >> (if curr.w_vld == sig1 && curr.w_rdy == sig1
        then (if curr.w_lst == sig1
            then tb (pos 1) (record curr { w_vld = sig0; w_lst = sig0; w_dat = byte 0x00 0xFF }) st
                false
            else if curr.w_lst == sig0
            then store_drive curr (record st { head = st.head + 1 })
            else store_drive curr st)
        else store_drive curr st)

unfoldable pub fetch_packet : Sigs → TcState → Result Tb
fetch_packet curr st =
    if curr.r_vld == sig1 && curr.r_rdy == sig1
    then (load st.buf st.tail >>= λ b.
        let wrong = b != curr.r_dat.a || curr.r_dat.b != 0x00 in
        let taken : TcState = record st { tail = st.tail + 1 } in
        if curr.r_lst == sig1
        then tb (pos 1) (record curr { r_rdy = sig0 }) taken wrong
        else tb (pos 0) (record curr { r_rdy = sig1 }) taken wrong)
    else tb (pos 0) (record curr { r_rdy = sig1 }) st false

-- `r` is what `rand` returns.
unfoldable pub fetch_stop_go : ℕ → Sigs → TcState → Result Tb
fetch_stop_go r curr st = fetch_packet curr st >>= λ s.
    if is_negative s.code || is_positive s.code
    then ok s
    else tb (pos 0) (record (s.sigs) { r_rdy = if bit_and r 0x01 == 1 then sig1 else sig0 }) s.st
        s.error
