-- ===== src/Dctcp/Bytes.antt =====
-- The estimate is made of the acknowledgements since the last one.
use saps_extended.Base.{
  ℕ, ◌+◌, ◌≤◌, ◌≡◌, refl, List, [], ◌∷◌, arith, Bool-cases, inl, inr, if◌then◌else◌,
}
use saps_extended.Base.Int.{ℤ, ltb_ℤ}
use saps_extended.Dctcp.{
  Double, Ack, acked_bytes, Counts, fraction, mix, count_ack, new_alpha, update_dctcp_alpha,
  note_sent,
}

-- The bytes of acknowledgements, and of the marked ones.
abbrev pub all_bytes : List Ack → ℕ
all_bytes [] = 0
all_bytes (a ∷ acks) = all_bytes acks + acked_bytes a

abbrev pub marked_bytes : List Ack → ℕ
marked_bytes [] = 0
marked_bytes (a ∷ acks) = marked_bytes acks + (if a.ecnecho then acked_bytes a else 0)

pub marked-le-all : (acks : List Ack) → marked_bytes acks ≤ all_bytes acks
marked-le-all [] = omega arith
marked-le-all (a ∷ acks) = ground (arith, marked-le-all acks)

-- What the sender sees: an acknowledgement, or a segment that it has sent.
pub data Event : Type 0 where
  acked : Ack → Event
  sent : ℤ → Event

-- The estimate as a list of acknowledgements since the last one, the latest first.
pub record Estimate (R : Type 0) : Type 0 where
  pub since : List Ack
  pub alpha : R
  pub update_seq : ℤ
  pub maxseq : ℤ

module _ {R : Type 0} (d : Double R) (gain : R) where
  pub see : Counts R → Event → Counts R
  unfolding update_dctcp_alpha count_ack new_alpha note_sent
  see s (acked a) = update_dctcp_alpha d gain s a
  see s (sent seqno) = note_sent d s seqno

  pub see_all : Counts R → List Event → Counts R
  unfolding see
  see_all s [] = s
  see_all s (e ∷ events) = see_all (see s e) events

  -- The abstract estimate.
  pub learn : Estimate R → Event → Estimate R
  learn m (acked a) =
      let since = a ∷ m.since in
      if ltb_ℤ m.update_seq a.seqno
      then record {
        since = [];
        alpha = mix d gain m.alpha (fraction d (marked_bytes since) (all_bytes since));
        update_seq = m.maxseq;
        maxseq = m.maxseq;
      }
      else record m { since = since }
  learn m (sent seqno) = if ltb_ℤ m.maxseq seqno then record m { maxseq = seqno } else m

  pub learn_all : Estimate R → List Event → Estimate R
  unfolding learn
  learn_all m [] = m
  learn_all m (e ∷ events) = learn_all (learn m e) events

-- The counters stand for the estimate.
pub record Holds {R : Type 0} (s : Counts R) (m : Estimate R) : Type 0 where
  pub total_is : s.total ≡ all_bytes m.since
  pub marked_is : s.marked ≡ marked_bytes m.since
  pub alpha_is : s.alpha ≡ m.alpha
  pub update_is : s.update_seq ≡ m.update_seq
  pub maxseq_is : s.maxseq ≡ m.maxseq

module _ {R : Type 0} (d : Double R) (gain : R) where
  count_ack-Holds :
      (s : Counts R) (m : Estimate R) (a : Ack)
      → Holds s m
      → Holds (count_ack d s a) (record m { since = a ∷ m.since })
  unfolding count_ack
  count_ack-Holds s m a h =
      ground (arith, h.total_is, h.marked_is, h.alpha_is, h.update_is, h.maxseq_is)

  new_alpha-Holds :
      (s : Counts R) (m : Estimate R) (seqno : ℤ)
      → Holds s m
      → Holds (new_alpha d gain s seqno) (
          if ltb_ℤ m.update_seq seqno
          then record {
            since = [];
            alpha = mix d gain m.alpha (fraction d (marked_bytes m.since) (all_bytes m.since));
            update_seq = m.maxseq;
            maxseq = m.maxseq;
          }
          else m)
  unfolding new_alpha
  new_alpha-Holds s m seqno h = elim (Bool-cases (ltb_ℤ m.update_seq seqno)) [
    | inl later ↦
        simp (h.update_is, later)
          (record {
            total_is = refl;
            marked_is = refl;
            alpha_is = simp (h.alpha_is, h.marked_is, h.total_is);
            update_is = h.maxseq_is;
            maxseq_is = h.maxseq_is;
          })
    | inr early ↦ simp (h.update_is, early) h
  ]

  see-Holds :
      (s : Counts R) (m : Estimate R) (e : Event)
      → Holds s m
      → Holds (see d gain s e) (learn d gain m e)
  unfolding see learn update_dctcp_alpha
  see-Holds s m (acked a) h =
      new_alpha-Holds (count_ack d s a) (record m { since = a ∷ m.since }) a.seqno
        (count_ack-Holds s m a h)
  see-Holds s m (sent seqno) h =
      ground (arith, h.total_is, h.marked_is, h.alpha_is, h.update_is, h.maxseq_is)

  -- Over any sequence of acknowledgements and sent segments, dctcp_total and dctcp_marked are the
  -- bytes, and the marked bytes, of the acknowledgements since the last estimate, each of at
  -- least one byte; and every estimate is made of exactly these.
  pub see_all-Holds :
      (s : Counts R) (m : Estimate R) (events : List Event)
      → Holds s m
      → Holds (see_all d gain s events) (learn_all d gain m events)
  unfolding see_all learn_all
  see_all-Holds s m [] h = h
  see_all-Holds s m (e ∷ events) h =
      see_all-Holds (see d gain s e) (learn d gain m e) events (see-Holds s m e h)
