-- ===== src/Host/Transaction/Answer.antt =====
-- The handshake of a bulk OUT transaction of vpi/usb/usbhost.c under `usbh_step`.
use misc_verilog_cores.Base.{
  ℕ, ◌+◌, ◌<◌, ◌≡◌, refl, ◌∙◌, pos, List, [], ◌∷◌, ◌++◌, length, All, arith,
}
use misc_verilog_cores.Ulpi.{
  sig0, sig1, Bus, Transfer, XferStage, no_xfer, hsk_pid, hsk_stop, ulpitx_ack, stepped,
}
use misc_verilog_cores.Ulpi.Step.Ack.{ack_recv_step}
use misc_verilog_cores.Ulpi.Handshake.{
  IsIdle, Holds, at_hsk, toggled, wait_cycle, hold_cycle, stop_cycle, last_cycle, ack_cycle,
}
use misc_verilog_cores.Host.{Host}
use misc_verilog_cores.Host.Bulk.{bulk_out_step, idle}
use misc_verilog_cores.Host.Step.{usbh_step}
use misc_verilog_cores.Host.StepLaws.{usbh_run, Released}
use misc_verilog_cores.Host.Transaction.{out_host, out_host_step}

module _ (host : Host) (x : Transfer) (rand : ℕ) (small : x.cycle < 4294967296) where
  -- A step of the handshake before the deadline.
  answer_step :
      (k : ℕ) (st st' : XferStage) (seq seq' : List ℕ) (inp out o : Bus)
      → inp.rst_n ≡ sig1
      → k + 1 < x.cycle
      → ack_recv_step (at_hsk x st seq) inp inp ≡ stepped (pos 0) (at_hsk x st' seq') o
      → usbh_step rand (out_host host k (at_hsk x st seq)) inp out
        ≡ stepped (pos 0) (out_host host (k + 1) (at_hsk x st' seq')) o
  unfolding bulk_out_step
  answer_step k st st' seq seq' inp out o r h e =
      out_host_step host rand k (at_hsk x st seq) inp out r (omega arith) ∙ rw e (ground arith)

  final_step :
      (k : ℕ) (seq : List ℕ) (inp out : Bus)
      → inp.rst_n ≡ sig1
      → k + 1 < x.cycle
      → (inp.dir ≡ sig0) × (inp.nxt ≡ sig0) × (inp.stp ≡ sig0)
      → usbh_step rand (out_host host k (at_hsk x hsk_stop seq)) inp out
        ≡ stepped (pos 1) (out_host host (k + 1) (idle (at_hsk x no_xfer seq))) inp
  unfolding bulk_out_step
  final_step k seq inp out r h e =
      out_host_step host rand k (at_hsk x hsk_stop seq) inp out r (omega arith)
      ∙ rw (last_cycle x seq inp inp e.0 e.1 e.2) (ground arith)

  answer_next :
      (k : ℕ) (st st' : XferStage) (seq seq' : List ℕ) (inp out o : Bus) (inps : List Bus)
      → inp.rst_n ≡ sig1
      → k + 1 < x.cycle
      → ack_recv_step (at_hsk x st seq) inp inp ≡ stepped (pos 0) (at_hsk x st' seq') o
      → usbh_run rand (inp ∷ inps) (out_host host k (at_hsk x st seq)) out
        ≡ usbh_run rand inps (out_host host (k + 1) (at_hsk x st' seq')) o
  unfolding usbh_run
  answer_next k st st' seq seq' inp out o inps r h e =
      rw (answer_step k st st' seq seq' inp out o r h e) refl

  module _ (ack stop last : Bus) (is_ack : ack.dat.a ≡ ulpitx_ack)
      (stops : (stop.dir ≡ sig0) × (stop.dat.b ≡ 0x00) × (stop.stp ≡ sig1))
      (ends : (last.dir ≡ sig0) × (last.nxt ≡ sig0) × (last.stp ≡ sig0))
      (up : All Released (ack ∷ stop ∷ last ∷ [])) where
    abbrev pub Answered : List Bus → ℕ → XferStage → List ℕ → Bus → Type 0
    Answered inps k st seq out =
        (k' : ℕ) × (usbh_run rand inps (out_host host k (at_hsk x st seq)) out
          ≡ stepped (pos 1) (out_host host k' (idle (at_hsk x no_xfer (toggled x)))) last)

    hold_run :
        (holds : List Bus) (k : ℕ) (out : Bus)
        → All Holds holds
        → All Released holds
        → k + length holds + 2 < x.cycle
        → Answered (holds ++ stop ∷ last ∷ []) k hsk_pid (toggled x) out
    unfolding usbh_run
    hold_run [] k out h r l = (
      k + 1 + 1,
      answer_next k hsk_pid hsk_stop (toggled x) (toggled x) stop out (record stop { nxt = sig0 })
            (last ∷ []) up.1.0 (omega arith)
            (stop_cycle x (toggled x) stop stop stops.0 stops.1 stops.2)
          ∙ rw
              (final_step (k + 1) (toggled x) last (record stop { nxt = sig0 }) up.1.1.0
                (omega arith) ends)
              refl,
    )
    hold_run (inp ∷ holds) k out h r l =
        let held : Bus = record inp { nxt = sig0 } in
        let (k', run) = hold_run holds (k + 1) held h.1 r.1 (omega arith) in
        (
          k',
          answer_next k hsk_pid hsk_pid (toggled x) (toggled x) inp out held
                (holds ++ stop ∷ last ∷ []) r.0 (omega arith) (hold_cycle x (toggled x) inp inp h.0)
              ∙ run,
        )

    -- An ACK that ends before the deadline, whatever waits the link makes.
    pub answer_run :
        (waits holds : List Bus) (k : ℕ) (out : Bus)
        → x.endpoint < length x.ep_seq
        → All IsIdle waits
        → All Released waits
        → All Holds holds
        → All Released holds
        → k + length waits + length holds + 3 < x.cycle
        → Answered (waits ++ ack ∷ (holds ++ stop ∷ last ∷ [])) k no_xfer x.ep_seq out
    answer_run [] holds k out fits i ri h rh l =
        let taken : Bus = record ack { nxt = sig1 } in
        let (k', run) = hold_run holds (k + 1) taken h rh (omega arith) in
        (
          k',
          answer_next k no_xfer hsk_pid x.ep_seq (toggled x) ack out taken
                (holds ++ stop ∷ last ∷ []) up.0 (omega arith) (ack_cycle x ack ack is_ack fits)
              ∙ run,
        )
    answer_run (inp ∷ waits) holds k out fits i ri h rh l =
        let (k', run) = answer_run waits holds (k + 1) inp fits i.1 ri.1 h rh (omega arith) in
        (
          k',
          answer_next k no_xfer no_xfer x.ep_seq x.ep_seq inp out inp
                (waits ++ ack ∷ (holds ++ stop ∷ last ∷ [])) ri.0 (omega arith)
                (wait_cycle x x.ep_seq inp inp i.0)
              ∙ run,
        )
