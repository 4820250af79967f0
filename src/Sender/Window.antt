-- ===== src/Sender/Window.antt =====
-- What a segment that is sent leaves alone.
use saps_extended.Base.{ℕ, ◌<◌, ◌≡◌, refl, ap, [], ◌∷◌, map, arith}
use saps_extended.Base.Int.{ℤ, pos, pos_part, ◌+ℤ◌}
use saps_extended.Sender.{
  Sender, force_wnd, window, note_new, hand_over, flags_of, output, send_next,
}

-- The window and the data, and what decides whether the loop goes on.
pub record Kept (s s' : Sender) : Type 0 where
  pub highest_same : s'.highest_ack ≡ s.highest_ack
  pub curseq_same : s'.curseq ≡ s.curseq
  pub recover_same : s'.recover ≡ s.recover
  pub cwnd_same : s'.cwnd ≡ s.cwnd
  pub wnd_same : s'.wnd ≡ s.wnd
  pub frto_same : s'.frto ≡ s.frto
  pub overhead_same : s'.overhead ≡ s.overhead
  pub fastrecov_same : s'.fastrecov ≡ s.fastrecov

pub Kept-refl : (s : Sender) → Kept s s
Kept-refl s = record {
  highest_same = refl;
  curseq_same = refl;
  recover_same = refl;
  cwnd_same = refl;
  wnd_same = refl;
  frto_same = refl;
  overhead_same = refl;
  fastrecov_same = refl;
}

pub Kept-trans : {s t u : Sender} → Kept s t → Kept t u → Kept s u
Kept-trans a b = ground arith

pub window-Kept : {s s' : Sender} → Kept s s' → window s' ≡ window s
unfolding window force_wnd
window-Kept k = ground (arith, k.highest_same, k.recover_same, k.cwnd_same, k.wnd_same, k.frto_same)

-- A segment other than the first.
abbrev pub IsData : ℤ → Type 0
IsData seqno = 0 < pos_part seqno

pub output-Kept :
    (now : ℕ) (seqno : ℤ) (reason : ℕ) (s : Sender)
    → IsData seqno
    → Kept s (output now seqno reason s).0
unfolding output hand_over note_new
output-Kept now seqno reason s h = ground arith

pub output-t_seqno :
    (now : ℕ) (seqno : ℤ) (reason : ℕ) (s : Sender)
    → IsData seqno
    → (output now seqno reason s).0.t_seqno ≡ s.t_seqno
unfolding output hand_over note_new
output-t_seqno now seqno reason s h = ground arith

pub output-seqno :
    (now : ℕ) (seqno : ℤ) (reason : ℕ) (s : Sender)
    → IsData seqno
    → map (λ g. g.seqno) (output now seqno reason s).1 ≡ seqno ∷ []
unfolding output flags_of
output-seqno now seqno reason s h = ground arith

-- One segment of the loop.
module _ (now reason : ℕ) (s : Sender) (h : IsData s.t_seqno) where
  pub send_next-Kept : Kept s (send_next now reason s).0
  unfolding send_next
  send_next-Kept =
      let k = output-Kept now s.t_seqno reason s h in
      record {
        highest_same = k.highest_same;
        curseq_same = k.curseq_same;
        recover_same = k.recover_same;
        cwnd_same = k.cwnd_same;
        wnd_same = k.wnd_same;
        frto_same = k.frto_same;
        overhead_same = k.overhead_same;
        fastrecov_same = k.fastrecov_same;
      }

  pub send_next-t_seqno : (send_next now reason s).0.t_seqno ≡ s.t_seqno +ℤ pos 1
  unfolding send_next
  send_next-t_seqno = ap (λ t. t +ℤ pos 1) (output-t_seqno now s.t_seqno reason s h)

  pub send_next-seqno : map (λ g. g.seqno) (send_next now reason s).1 ≡ s.t_seqno ∷ []
  unfolding send_next
  send_next-seqno = output-seqno now s.t_seqno reason s h
