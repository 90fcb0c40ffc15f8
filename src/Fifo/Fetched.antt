-- ===== src/Fifo/Fetched.antt =====
-- Whole packets that `fetch_packet` of vpi/packet_tb.c reads from the FIFO and compares.
use misc_verilog_cores.Base.{
  ℕ, zero, suc, ◌+◌, ◌≤◌, ◌<◌, ◌≡◌, refl, sym, ap, ap₂, ◌∙◌, Bool, true, false, ◌||◌, ◌!=◌,
  if◌then◌else◌, pos, is_positive, List, [], ◌∷◌, length, take, drop, get_or, Option, none, some,
  Result, ok, ◌>>=◌, arith, drop-add,
}
use misc_verilog_cores.Ulpi.{sig0, sig1, byte}
use misc_verilog_cores.Fifo.{Sigs, TcState, Tb, tb}
use misc_verilog_cores.Fifo.Packets.{fetch_packet}
use misc_verilog_cores.Fifo.Beats.{Beat, beats}

-- What the FIFO shows on a clock edge.
abbrev pub showing : Option Beat → Sigs → Sigs
showing none c = record c { r_vld = sig0 }
showing (some b) c = record c { r_vld = sig1; r_dat = byte b.0 0x00; r_lst = b.1 }

-- One call for each clock edge until it returns 1; `error` is whether any of them called `pt_error`.
unfoldable pub fetch_run : List (Option Beat) → Sigs → TcState → Bool → Result Tb
fetch_run [] c st err = tb (pos 0) c st err
fetch_run (o ∷ os) c st err = fetch_packet (showing o c) st >>= λ s.
    if is_positive s.code
    then tb s.code s.sigs s.st (err || s.error)
    else fetch_run os s.sigs s.st (err || s.error)

-- The beats without the wait states.
unfoldable pub presented : List (Option Beat) → List Beat
presented [] = []
presented (none ∷ os) = presented os
presented (some b ∷ os) = b ∷ presented os

-- Whether the bytes are not the first ones of an array.
abbrev differs : List ℕ → List ℕ → Bool
differs xs [] = false
differs xs (d ∷ ds) = get_or xs 0 0 != d || differs (drop 1 xs) ds

differs-false :
    (ds xs : List ℕ) → length ds ≤ length xs → differs xs ds ≡ false → take (length ds) xs ≡ ds
differs-false [] xs h e = refl
differs-false (d ∷ ds) [] h e = absurd (omega arith)
differs-false (d ∷ ds) (x ∷ xs) h e =
    ap₂ (λ (a : ℕ) (l : List ℕ). a ∷ l) (ground (arith, e))
      (differs-false ds xs (omega arith) (ground (arith, e)))

differs-take :
    (ds xs : List ℕ) → length ds ≤ length xs → take (length ds) xs ≡ ds → differs xs ds ≡ false
differs-take [] xs h e = refl
differs-take (d ∷ ds) [] h e = absurd (omega arith)
differs-take (d ∷ ds) (x ∷ xs) h e =
    let same : x ≡ d = ap (λ (l : List ℕ). get_or l 0 0) e in
    let rest = differs-take ds xs (omega arith) (ap (drop 1) e) in ground (arith, same, rest)

or_assoc : (a b c : Bool) → ((a || b) || c) ≡ (a || (b || c))
or_assoc true b c = refl
or_assoc false b c = refl

or_false : (a : Bool) → (a || false) ≡ a
or_false true = refl
or_false false = refl

get_or-drop : (n : ℕ) (xs : List ℕ) → get_or (drop n xs) 0 0 ≡ get_or xs n 0
get_or-drop zero [] = refl
get_or-drop zero (x ∷ xs) = refl
get_or-drop (suc n) [] = refl
get_or-drop (suc n) (x ∷ xs) = get_or-drop n xs

abbrev first_of : List Beat → Beat
first_of [] = (0, 2)
first_of (b ∷ bs) = b

-- No packet is without a beat.
never_empty : (d : ℕ) (ds : List ℕ) → [] ≡ beats (d ∷ ds) → ⊥
unfolding beats
never_empty d [] e =
    let two : ◌≡◌ {A = ℕ} 2 1 = ap (λ (l : List Beat). (first_of l).1) e in omega (arith, two)
never_empty d (d' ∷ ds) e =
    let two : ◌≡◌ {A = ℕ} 2 0 = ap (λ (l : List Beat). (first_of l).1) e in omega (arith, two)

module _ (c : Sigs) (st : TcState) (r : c.r_rdy ≡ sig1) where
  stall :
      fetch_packet (showing none c) st
      ≡ tb (pos 0) (record c { r_vld = sig0; r_rdy = sig1 }) st false
  unfolding fetch_packet
  stall = refl

  last_beat :
      (d : ℕ)
      → st.tail < length st.buf
      → fetch_packet (showing (some (d, sig1)) c) st
        ≡ tb
            (pos 1)
            (record c { r_vld = sig1; r_dat = byte d 0x00; r_lst = sig1; r_rdy = sig0 })
            (record st { tail = st.tail + 1 })
            (get_or st.buf st.tail 0 != d)
  unfolding fetch_packet
  last_beat d h = ground (arith, r)

  mid_beat :
      (d : ℕ)
      → st.tail < length st.buf
      → fetch_packet (showing (some (d, sig0)) c) st
        ≡ tb
            (pos 0)
            (record c { r_vld = sig1; r_dat = byte d 0x00; r_lst = sig0; r_rdy = sig1 })
            (record st { tail = st.tail + 1 })
            (get_or st.buf st.tail 0 != d)
  unfolding fetch_packet
  mid_beat d h = ground (arith, r)

fetching :
    (os : List (Option Beat)) (d : ℕ) (ds : List ℕ) (c : Sigs) (st : TcState) (err : Bool)
    → c.r_rdy ≡ sig1
    → st.tail + suc (length ds) ≤ length st.buf
    → presented os ≡ beats (d ∷ ds)
    → (s : Tb) × (fetch_run os c st err ≡ ok s)
      × (s.code ≡ pos 1)
      × (s.st.tail ≡ st.tail + suc (length ds))
      × (s.error ≡ (err || differs (drop st.tail st.buf) (d ∷ ds)))
unfolding fetch_run presented beats
fetching [] d ds c st err r h e = absurd (never_empty d ds e)
fetching (none ∷ os) d ds c st err r h e =
    let (s, run, one, tail, wrong) =
      fetching os d ds (record c { r_vld = sig0; r_rdy = sig1 }) st (err || false) refl h e in
    (
      s,
      rw (stall c st r) run,
      one,
      tail,
      wrong ∙ or_assoc err false (differs (drop st.tail st.buf) (d ∷ ds)),
    )
fetching (some b ∷ os) d [] c st err r h e =
    let same : b ≡ (d, sig1) = ap first_of e in
    let miss = get_or st.buf st.tail 0 != d in
    (
      record {
        code = pos 1;
        sigs = record c { r_vld = sig1; r_dat = byte d 0x00; r_lst = sig1; r_rdy = sig0 };
        st = record st { tail = st.tail + 1 };
        error = err || miss;
      },
      rw (same, last_beat c st r d (omega arith)) refl,
      refl,
      refl,
      rw (get_or-drop st.tail st.buf) (ap (λ (v : Bool). err || v) (sym (or_false miss))),
    )
fetching (some b ∷ os) d (d' ∷ ds) c st err r h e =
    let same : b ≡ (d, sig0) = ap first_of e in
    let miss = get_or st.buf st.tail 0 != d in
    let (s, run, one, tail, wrong) =
      fetching os d' ds (record c { r_vld = sig1; r_dat = byte d 0x00; r_lst = sig0; r_rdy = sig1 })
        (record st { tail = st.tail + 1 }) (err || miss) refl (omega arith) (ap (drop 1) e) in
    (
      s,
      rw (same, mid_beat c st r d (omega arith)) run,
      one,
      omega (arith, tail),
      wrong
          ∙ or_assoc err miss (differs (drop (st.tail + 1) st.buf) (d' ∷ ds))
          ∙ ap₂ (λ (v : ℕ) (l : List ℕ). err || (v != d || differs l (d' ∷ ds)))
              (sym (get_or-drop st.tail st.buf)) (drop-add st.tail 1 st.buf),
    )

-- A packet of one byte or more that the FIFO hands out, with any wait states: `fetch_packet`, ready and
-- at the start of its buffer, returns 1 at the last byte, it has read as many bytes as the packet has,
-- and it has called `pt_error` exactly when they are not the first bytes of the buffer.
pub packet_fetched :
    (os : List (Option Beat)) (d : ℕ) (ds : List ℕ) (c : Sigs) (st : TcState)
    → c.r_rdy ≡ sig1
    → st.tail ≡ 0
    → suc (length ds) ≤ length st.buf
    → presented os ≡ beats (d ∷ ds)
    → (s : Tb) × (fetch_run os c st false ≡ ok s)
      × (s.code ≡ pos 1)
      × (s.st.tail ≡ suc (length ds))
      × (s.error ≡ false → take (suc (length ds)) st.buf ≡ d ∷ ds)
      × (take (suc (length ds)) st.buf ≡ d ∷ ds → s.error ≡ false)
packet_fetched os d ds c st r z h e =
    let (s, run, one, tail, wrong) = fetching os d ds c st false r (omega arith) e in
    let seen : s.error ≡ differs st.buf (d ∷ ds) =
      wrong ∙ ap (λ (k : ℕ). differs (drop k st.buf) (d ∷ ds)) z in
    (
      s,
      run,
      one,
      omega (arith, tail),
      λ fine. differs-false (d ∷ ds) st.buf h (sym seen ∙ fine),
      λ same. seen ∙ differs-take (d ∷ ds) st.buf h same,
    )
