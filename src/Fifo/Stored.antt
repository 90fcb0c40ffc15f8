-- ===== src/Fifo/Stored.antt =====
-- Whole packets that `store_packet` of vpi/packet_tb.c writes to the FIFO.
use misc_verilog_cores.Base.{
  ℕ, suc, ◌+◌, ◌≤◌, ◌<◌, ◌≡◌, refl, sym, ap, ◌∙◌, true, false, ◌&&◌, ◌==◌, ltb, if◌then◌else◌, pos,
  is_positive, List, [], ◌∷◌, ◌++◌, length, take, drop, get_or, Result, ok, ◌>>=◌, arith,
  Bool-cases, inl, inr, get_or-take,
}
use mathlib.Core.List.{append_assoc, append-nil}
use misc_verilog_cores.Ulpi.{sig0, sig1, byte}
use misc_verilog_cores.Fifo.{Sigs, TcState, Tb, tb}
use misc_verilog_cores.Fifo.Beats.{Beat, beats, length-take-le, beats_more, beats_last}
use misc_verilog_cores.Fifo.Packets.{store_packet, store_drive}

-- What the FIFO takes on a clock edge.
abbrev pub taken : Sigs → List Beat
taken c = if c.w_vld == sig1 && c.w_rdy == sig1 then (c.w_dat.a, c.w_lst) ∷ [] else []

-- One call for each clock edge until it returns 1; the FIFO is ready or not at each of them. What the
-- FIFO takes is logged.
unfoldable pub store_run : List ℕ → Sigs → TcState → List Beat → Result (Tb × List Beat)
store_run [] c st log = ok (record { code = pos 0; sigs = c; st = st; error = false }, log)
store_run (r ∷ rs) c st log =
    let now : Sigs = record c { w_rdy = r } in
    store_packet now st >>= λ s.
    if is_positive s.code
    then ok (s, log ++ taken now)
    else store_run rs s.sigs s.st (log ++ taken now)

-- The clock edges at which the FIFO is ready.
unfoldable pub ready_count : List ℕ → ℕ
ready_count [] = 0
ready_count (r ∷ rs) = (if r == sig1 then 1 else 0) + ready_count rs

-- The signals while byte `head` waits to be taken.
record IsOffered (c : Sigs) (st : TcState) : Type 0 where
  valid : c.w_vld ≡ sig1
  value : c.w_dat.a ≡ get_or st.buf st.head 0
  last : c.w_lst ≡ (if ltb (st.head + 1) st.size then sig0 else sig1)
  more : st.head < st.size
  room : st.size ≤ length st.buf

drive_offers :
    (c : Sigs) (st : TcState)
    → st.head < st.size
    → st.size ≤ length st.buf
    → (c' : Sigs) × (store_drive c st ≡ tb (pos 0) c' st false) × IsOffered c' st
unfolding store_drive
drive_offers c st m r = (
  record c {
    w_vld = sig1;
    w_dat = byte (get_or st.buf st.head 0) 0x00;
    w_lst = if ltb (st.head + 1) st.size then sig0 else sig1;
  },
  ground arith,
  record { valid = refl; value = refl; last = refl; more = m; room = r },
)

-- The bytes that wait to be taken.
abbrev pending : TcState → List ℕ
pending st = drop st.head (take st.size st.buf)

module _ (c : Sigs) (st : TcState) (w : IsOffered c st) where
  size_of : length (take st.size st.buf) ≡ st.size
  size_of = length-take-le st.size st.buf w.room

  front : get_or (take st.size st.buf) st.head 0 ≡ c.w_dat.a
  front = get_or-take st.size st.head st.buf 0 w.more ∙ sym w.value

  taken_now :
      (r lst : ℕ)
      → (r == sig1) ≡ true
      → c.w_lst ≡ lst
      → taken (record c { w_rdy = r }) ≡ (get_or (take st.size st.buf) st.head 0, lst) ∷ []
  taken_now r lst e l = rw (w.valid, e, l, front) refl

  waits :
      (r : ℕ)
      → (r == sig1) ≡ false
      → (taken (record c { w_rdy = r }) ≡ [])
        × (c' : Sigs) × (store_packet (record c { w_rdy = r }) st ≡ tb (pos 0) c' st false)
        × IsOffered c' st
  unfolding store_packet
  waits r e =
      let (c', d, o) = drive_offers (record c { w_rdy = r }) st w.more w.room in
      (ground (arith, w.valid), c', ground (arith, w.more, w.valid, d), o)

  goes_on :
      (r : ℕ)
      → (r == sig1) ≡ true
      → st.head + 1 < st.size
      → (let st' : TcState = record st { head = st.head + 1 } in
          (beats (pending st) ≡ taken (record c { w_rdy = r }) ++ beats (pending st'))
          × (c' : Sigs) × (store_packet (record c { w_rdy = r }) st ≡ tb (pos 0) c' st' false)
          × IsOffered c' st')
  unfolding store_packet
  goes_on r e l =
      let st' : TcState = record st { head = st.head + 1 } in
      let (c', d, o) = drive_offers (record c { w_rdy = r }) st' l w.room in
      let one_more : suc st.head ≡ st.head + 1 = omega arith in
      (
        rw (taken_now r sig0 e (ground (arith, w.last, l))) (
            beats_more st.head (take st.size st.buf) (omega (arith, size_of))
            ∙ ap
                (λ (k : ℕ).
                  (get_or (take st.size st.buf) st.head 0, sig0)
                  ∷ beats (drop k (take st.size st.buf)))
                one_more),
        c',
        ground (arith, w.more, w.valid, w.last, d),
        o,
      )

  ends :
      (r : ℕ)
      → (r == sig1) ≡ true
      → st.head + 1 ≡ st.size
      → (beats (pending st) ≡ taken (record c { w_rdy = r }))
        × (c' : Sigs) × (store_packet (record c { w_rdy = r }) st ≡ tb (pos 1) c' st false)
        × (c'.w_vld ≡ sig0)
  unfolding store_packet
  ends r e l = (
    rw (taken_now r sig1 e (ground (arith, w.last, l)))
        (beats_last st.head (take st.size st.buf) (omega (arith, size_of))),
    record c { w_rdy = r; w_vld = sig0; w_lst = sig0; w_dat = byte 0x00 0xFF },
    ground (arith, w.more, w.valid, w.last),
    refl,
  )

-- From a byte that is offered to the end.
offered_run :
    (rs : List ℕ) (c : Sigs) (st : TcState) (log : List Beat)
    → IsOffered c st
    → st.size ≤ st.head + ready_count rs
    → (s : Tb) × (store_run rs c st log ≡ ok (s, log ++ beats (pending st)))
      × (s.code ≡ pos 1)
      × (s.error ≡ false)
      × (s.sigs.w_vld ≡ sig0)
unfolding store_run ready_count
offered_run [] c st log w h = absurd (omega (arith, w.more))
offered_run (r ∷ rs) c st log w h = elim (Bool-cases (r == sig1)) [
  | inr e ↦
      let (t, c', d, o) = waits c st w r e in
      let (s, run, one, fine, off) = offered_run rs c' st log o (ground (arith, h)) in
      (
        s,
        rw (d) (
            ap (λ (l : List Beat). store_run rs c' st l)
              (ap (λ (l : List Beat). log ++ l) t ∙ append-nil log)
            ∙ run),
        one,
        fine,
        off,
      )
  | inl e ↦ elim (Bool-cases (ltb (st.head + 1) st.size)) [
    | inl l ↦
        let st' : TcState = record st { head = st.head + 1 } in
        let now = taken (record c { w_rdy = r }) in
        let (b, c', d, o) = goes_on c st w r e (ground arith) in
        let (s, run, one, fine, off) = offered_run rs c' st' (log ++ now) o (ground (arith, h)) in
        (
          s,
          rw (d) (
              run
              ∙ ap (λ (l : List Beat). ok (s, l))
                  (append_assoc log now (beats (pending st'))
                    ∙ ap (λ (l : List Beat). log ++ l) (sym b))),
          one,
          fine,
          off,
        )
    | inr l ↦
        let (b, c', d, off) = ends c st w r e (ground (arith, w.more)) in
        (
          record { code = pos 1; sigs = c'; st = st; error = false },
          rw (d) (
              ap
                (λ (l : List Beat).
                  ok (record { code = pos 1; sigs = c'; st = st; error = false }, log ++ l))
                (sym b)),
          refl,
          refl,
          off,
        )
  ]
]

-- A packet that fits its buffer is written to the FIFO completely: from its first byte, with nothing
-- offered yet, whatever wait states the FIFO makes, as soon as it has been ready at as many clock
-- edges as the packet has bytes (after the first edge, which makes the first offer), `store_packet`
-- has returned 1, without an error, and the FIFO has taken exactly the bytes of the packet, in order,
-- with the last one flagged as such; nothing is offered any more.
pub packet_stored :
    (r : ℕ) (rs : List ℕ) (c : Sigs) (st : TcState)
    → c.w_vld ≡ sig0
    → st.head ≡ 0
    → 0 < st.size
    → st.size ≤ length st.buf
    → st.size ≤ ready_count rs
    → (s : Tb) × (store_run (r ∷ rs) c st [] ≡ ok (s, beats (take st.size st.buf)))
      × (s.code ≡ pos 1)
      × (s.error ≡ false)
      × (s.sigs.w_vld ≡ sig0)
unfolding store_run store_packet
packet_stored r rs c st v z p room h =
    let (c', d, o) = drive_offers (record c { w_rdy = r }) st (omega arith) room in
    let (s, run, one, fine, off) = offered_run rs c' st [] o (omega arith) in
    let first : store_packet (record c { w_rdy = r }) st ≡ tb (pos 0) c' st false =
      ground (arith, v, p, d) in
    let nothing : taken (record c { w_rdy = r }) ≡ [] = rw (v) refl in
    (
      s,
      rw (first) (
          ap (λ (l : List Beat). store_run rs c' st l) nothing
          ∙ run
          ∙ ap (λ (k : ℕ). ok (s, beats (drop k (take st.size st.buf)))) z),
      one,
      fine,
      off,
    )
