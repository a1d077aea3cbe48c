-- ===== src/Bridge/Stats/Tally.antt =====
-- bridge/src/stats.rs: one event in place, and what it does to the counters.
use asl_dmr_bridge.Base.{ℕ, ◌≡◌, arith, List, [], ◌∷◌, ◌++◌, Option, none, some}
use mathlib.Core.Path.{subst}
use asl_dmr_bridge.Ids.{SubscriberId, Slot}
use asl_dmr_bridge.Events.{
  CallDirection, fm_to_dmr, dmr_to_fm, TerminationReason, StatsEvent, call_start, voice_frame,
  frame_dropped, call_end,
}
use asl_dmr_bridge.Ptt.View.{Open, closed, open_to, account}
use asl_dmr_bridge.Bridge.Stats.{
  LogLine, Stats, CallAccumulator, Consumer, fold_into_stats, consume_event, count_frame,
  count_drop, finish_call, fold_previous, capped_us,
}
use asl_dmr_bridge.Bridge.Stats.Counts.{
  Counts, count_event, Books, Tally-start, Tally-frame, Tally-drop, Tally-end,
}

pub some_injective : {A : Type 0} {x y : A} → some x ≡ some y → x ≡ y
some_injective e = cc

-- The consumer that these fields make.
abbrev made : Stats → Option CallAccumulator → Option CallAccumulator → List LogLine → Consumer
made stats fm_call dmr_call lines = record {
  stats = stats;
  fm_call = fm_call;
  dmr_call = dmr_call;
  lines = lines;
}

module _ (min now : ℕ) (stats : Stats) (lines : List LogLine) (fm dmr : Counts) where
  -- An event in place, with the calls in flight that it meets.
  Books-start :
      (d : CallDirection) (src : SubscriberId) (dst : ℕ) (slot : Slot)
      (f g : Option CallAccumulator)
      → Books closed (made stats f g lines) fm dmr
      → Books
          (open_to d)
          (consume_event min now (call_start d src dst slot) (made stats f g lines))
          fm
          dmr
  unfolding consume_event fold_previous
  Books-start fm_to_dmr src dst slot none none b = record {
    fm_tally = Tally-start stats.fm fm now src dst slot b.fm_tally;
    dmr_tally = b.dmr_tally;
    fm_flight = tt;
    dmr_flight = tt;
  }
  Books-start dmr_to_fm src dst slot none none b = record {
    fm_tally = b.fm_tally;
    dmr_tally = Tally-start stats.dmr dmr now src dst slot b.dmr_tally;
    fm_flight = tt;
    dmr_flight = tt;
  }
  Books-start d src dst slot (some acc) g b = absurd b.fm_flight
  Books-start d src dst slot none (some acc) b = absurd b.dmr_flight

  Books-frame :
      (d : CallDirection) (t : ℕ) (f g : Option CallAccumulator)
      → Books (open_to d) (made stats f g lines) fm dmr
      → Books
          (open_to d)
          (consume_event min now (voice_frame d t) (made stats f g lines))
          (count_event fm_to_dmr (voice_frame d t) fm)
          (count_event dmr_to_fm (voice_frame d t) dmr)
  unfolding consume_event count_frame
  Books-frame fm_to_dmr t (some acc) g b = record {
    fm_tally = Tally-frame stats.fm fm acc (acc.transcode_us ++ (capped_us t ∷ [])) b.fm_tally;
    dmr_tally = b.dmr_tally;
    fm_flight = tt;
    dmr_flight = b.dmr_flight;
  }
  Books-frame fm_to_dmr t none g b = absurd b.fm_flight
  Books-frame dmr_to_fm t f (some acc) b = record {
    fm_tally = b.fm_tally;
    dmr_tally = Tally-frame stats.dmr dmr acc (acc.transcode_us ++ (capped_us t ∷ [])) b.dmr_tally;
    fm_flight = b.fm_flight;
    dmr_flight = tt;
  }
  Books-frame dmr_to_fm t f none b = absurd b.dmr_flight

  Books-drop :
      (d : CallDirection) (f g : Option CallAccumulator)
      → Books (open_to d) (made stats f g lines) fm dmr
      → Books
          (open_to d)
          (consume_event min now (frame_dropped d) (made stats f g lines))
          (count_event fm_to_dmr (frame_dropped d) fm)
          (count_event dmr_to_fm (frame_dropped d) dmr)
  unfolding consume_event count_drop
  Books-drop fm_to_dmr (some acc) g b = record {
    fm_tally = Tally-drop stats.fm fm acc b.fm_tally;
    dmr_tally = b.dmr_tally;
    fm_flight = tt;
    dmr_flight = b.dmr_flight;
  }
  Books-drop fm_to_dmr none g b = absurd b.fm_flight
  Books-drop dmr_to_fm f (some acc) b = record {
    fm_tally = b.fm_tally;
    dmr_tally = Tally-drop stats.dmr dmr acc b.dmr_tally;
    fm_flight = b.fm_flight;
    dmr_flight = tt;
  }
  Books-drop dmr_to_fm f none b = absurd b.dmr_flight

  Books-end :
      (d : CallDirection) (reason : TerminationReason) (f g : Option CallAccumulator)
      → Books (open_to d) (made stats f g lines) fm dmr
      → Books closed
          (consume_event min now (call_end d reason) (made stats f g lines))
          (count_event fm_to_dmr (call_end d reason) fm)
          (count_event dmr_to_fm (call_end d reason) dmr)
  unfolding consume_event finish_call fold_into_stats
  Books-end fm_to_dmr reason (some acc) g b = record {
    fm_tally = Tally-end stats.fm fm acc b.fm_tally;
    dmr_tally = b.dmr_tally;
    fm_flight = tt;
    dmr_flight = b.dmr_flight;
  }
  Books-end fm_to_dmr reason none g b = absurd b.fm_flight
  Books-end dmr_to_fm reason f (some acc) b = record {
    fm_tally = b.fm_tally;
    dmr_tally = Tally-end stats.dmr dmr acc b.dmr_tally;
    fm_flight = b.fm_flight;
    dmr_flight = tt;
  }
  Books-end dmr_to_fm reason f none b = absurd b.dmr_flight

abbrev pub BooksAfter : ℕ → ℕ → StatsEvent → Consumer → Counts → Counts → Open → Type 0
BooksAfter min now event c fm dmr o =
    Books o (consume_event min now event c) (count_event fm_to_dmr event fm)
      (count_event dmr_to_fm event dmr)

pub Books-step :
    (min now : ℕ) (event : StatsEvent) (o o' : Open) (c : Consumer) (fm dmr : Counts)
    → account event o ≡ some o'
    → Books o c fm dmr
    → BooksAfter min now event c fm dmr o'
Books-step min now (call_start d src dst slot) closed o' c fm dmr a b =
    subst (BooksAfter min now (call_start d src dst slot) c fm dmr) (some_injective a)
      (Books-start min now c.stats c.lines fm dmr d src dst slot c.fm_call c.dmr_call b)
Books-step min now (call_start d src dst slot) (open_to e) o' c fm dmr a b = ground arith
Books-step min now (voice_frame fm_to_dmr t) closed o' c fm dmr a b = ground arith
Books-step min now (voice_frame fm_to_dmr t) (open_to dmr_to_fm) o' c fm dmr a b = ground arith
Books-step min now (voice_frame fm_to_dmr t) (open_to fm_to_dmr) o' c fm dmr a b =
    subst (BooksAfter min now (voice_frame fm_to_dmr t) c fm dmr) (some_injective a)
      (Books-frame min now c.stats c.lines fm dmr fm_to_dmr t c.fm_call c.dmr_call b)
Books-step min now (voice_frame dmr_to_fm t) closed o' c fm dmr a b = ground arith
Books-step min now (voice_frame dmr_to_fm t) (open_to fm_to_dmr) o' c fm dmr a b = ground arith
Books-step min now (voice_frame dmr_to_fm t) (open_to dmr_to_fm) o' c fm dmr a b =
    subst (BooksAfter min now (voice_frame dmr_to_fm t) c fm dmr) (some_injective a)
      (Books-frame min now c.stats c.lines fm dmr dmr_to_fm t c.fm_call c.dmr_call b)
Books-step min now (frame_dropped fm_to_dmr) closed o' c fm dmr a b = ground arith
Books-step min now (frame_dropped fm_to_dmr) (open_to dmr_to_fm) o' c fm dmr a b = ground arith
Books-step min now (frame_dropped fm_to_dmr) (open_to fm_to_dmr) o' c fm dmr a b =
    subst (BooksAfter min now (frame_dropped fm_to_dmr) c fm dmr) (some_injective a)
      (Books-drop min now c.stats c.lines fm dmr fm_to_dmr c.fm_call c.dmr_call b)
Books-step min now (frame_dropped dmr_to_fm) closed o' c fm dmr a b = ground arith
Books-step min now (frame_dropped dmr_to_fm) (open_to fm_to_dmr) o' c fm dmr a b = ground arith
Books-step min now (frame_dropped dmr_to_fm) (open_to dmr_to_fm) o' c fm dmr a b =
    subst (BooksAfter min now (frame_dropped dmr_to_fm) c fm dmr) (some_injective a)
      (Books-drop min now c.stats c.lines fm dmr dmr_to_fm c.fm_call c.dmr_call b)
Books-step min now (call_end fm_to_dmr reason) closed o' c fm dmr a b = ground arith
Books-step min now (call_end fm_to_dmr reason) (open_to dmr_to_fm) o' c fm dmr a b = ground arith
Books-step min now (call_end fm_to_dmr reason) (open_to fm_to_dmr) o' c fm dmr a b =
    subst (BooksAfter min now (call_end fm_to_dmr reason) c fm dmr) (some_injective a)
      (Books-end min now c.stats c.lines fm dmr fm_to_dmr reason c.fm_call c.dmr_call b)
Books-step min now (call_end dmr_to_fm reason) closed o' c fm dmr a b = ground arith
Books-step min now (call_end dmr_to_fm reason) (open_to fm_to_dmr) o' c fm dmr a b = ground arith
Books-step min now (call_end dmr_to_fm reason) (open_to dmr_to_fm) o' c fm dmr a b =
    subst (BooksAfter min now (call_end dmr_to_fm reason) c fm dmr) (some_injective a)
      (Books-end min now c.stats c.lines fm dmr dmr_to_fm reason c.fm_call c.dmr_call b)
