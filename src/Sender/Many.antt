-- ===== src/Sender/Many.antt =====
-- `send_much` sends the segments in a row that the window and the data allow.
use mathlib.Core.List.{map-append}
use saps_extended.Base.{
  ℕ, zero, suc, ◌+◌, ◌<◌, ◌≡◌, ◌⊎◌, inl, inr, refl, ap, sym, subst, ◌∙◌, List, [], ◌∷◌, map, Bool,
  true, false, not, ◌&&◌, ◌||◌, arith, ltb, ◌==◌, Bool-cases,
}
use saps_extended.Base.Int.{ℤ, pos, pos_part, ◌+ℤ◌, ◌≤ℤ◌, +ℤ_parts}
use saps_extended.Sender.{Sender, Segment, window, send_next, may_send, then_send, many, send_much}
use saps_extended.Sender.Window.{
  Kept, Kept-refl, Kept-trans, window-Kept, IsData, send_next-Kept, send_next-t_seqno,
  send_next-seqno,
}

abbrev pub seqnos : List Segment → List ℤ
seqnos out = map (λ g. g.seqno) out

-- `k` numbers in a row.
abbrev pub in_a_row : ℤ → ℕ → List ℤ
in_a_row t zero = []
in_a_row t (suc k) = t ∷ in_a_row (t +ℤ pos 1) k

-- The loop has sent `k` segments in a row, and stopped by its test or at the burst.
pub record Sent (maxburst sent : ℕ) (s : Sender) (r : Sender × List Segment) (k : ℕ) : Type 0 where
  pub row : seqnos r.1 ≡ in_a_row s.t_seqno k
  pub after : r.0.t_seqno ≡ s.t_seqno +ℤ pos k
  pub kept : Kept s r.0
  pub stopped : (may_send r.0 ≡ false) ⊎ ((0 < maxburst) × (sent + k ≡ maxburst))
  pub allowed :
      (k ≡ 0) ⊎ ((r.0.t_seqno ≤ℤ s.highest_ack +ℤ window s +ℤ pos 1) × (r.0.t_seqno ≤ℤ s.curseq))

add_zero : (t : ℤ) → t +ℤ pos 0 ≡ t
unfolding ◌+ℤ◌
add_zero t = ground arith

add_one : (t : ℤ) (k : ℕ) → t +ℤ pos 1 +ℤ pos k ≡ t +ℤ pos (suc k)
unfolding ◌+ℤ◌
add_one t k = ground arith

-- Nothing is sent.
Sent-none : (maxburst sent : ℕ) (s : Sender) → may_send s ≡ false → Sent maxburst sent s (s, []) 0
Sent-none maxburst sent s stop = record {
  row = refl;
  after = sym (add_zero s.t_seqno);
  kept = Kept-refl s;
  stopped = inl stop;
  allowed = inl refl;
}

-- Within the window a segment may be sent, and the next one is at most one past its ends.
may_send-le :
    (s : Sender)
    → may_send s ≡ true
    → (s.t_seqno +ℤ pos 1 ≤ℤ s.highest_ack +ℤ window s +ℤ pos 1) × (s.t_seqno +ℤ pos 1 ≤ℤ s.curseq)
may_send-le s go =
    ground (arith, +ℤ_parts s.t_seqno (pos 1), +ℤ_parts (s.highest_ack +ℤ window s) (pos 1))

bound-Kept :
    {s s' : Sender}
    → Kept s s'
    → s'.highest_ack +ℤ window s' +ℤ pos 1 ≡ s.highest_ack +ℤ window s +ℤ pos 1
bound-Kept {s} {s'} k =
    ap (λ h. h +ℤ window s' +ℤ pos 1) k.highest_same
    ∙ ap (λ w. s.highest_ack +ℤ w +ℤ pos 1) (window-Kept k)

past_data :
    (s : Sender)
    → IsData s.t_seqno
    → pos_part s.curseq < pos_part s.t_seqno + 0
    → may_send s ≡ false
past_data s h enough = ground arith

IsData-next : (t : ℤ) → IsData t → (IsData (t +ℤ pos 1)) × (pos_part (t +ℤ pos 1) ≡ pos_part t + 1)
unfolding ◌+ℤ◌
IsData-next t h = ground arith

module _ (now reason maxburst sent : ℕ) (s : Sender) (nonzero : IsData s.t_seqno) where
  Sent-one :
      may_send s ≡ true
      → (0 < maxburst) × (sent + 1 ≡ maxburst)
      → Sent maxburst sent s (send_next now reason s) 1
  Sent-one go full = record {
    row = send_next-seqno now reason s nonzero;
    after = send_next-t_seqno now reason s nonzero;
    kept = send_next-Kept now reason s nonzero;
    stopped = inr full;
    allowed =
        let (a, b) = may_send-le s go in
        inr (
          rw (send_next-t_seqno now reason s nonzero) a,
          rw (send_next-t_seqno now reason s nonzero) b,
        );
  }

  Sent-more :
      (r : Sender × List Segment) (k : ℕ)
      → may_send s ≡ true
      → Sent maxburst (sent + 1) (send_next now reason s).0 r k
      → Sent maxburst sent s (then_send (send_next now reason s).1 r) (suc k)
  Sent-more (s', out) k go rest = record {
    row =
        map-append (λ g. g.seqno) (send_next now reason s).1 out
        ∙ rw
            (send_next-seqno now reason s nonzero, rest.row, send_next-t_seqno now reason s nonzero)
            refl;
    after =
        rest.after
        ∙ (ap (λ t. t +ℤ pos k) (send_next-t_seqno now reason s nonzero) ∙ add_one s.t_seqno k);
    kept = Kept-trans (send_next-Kept now reason s nonzero) rest.kept;
    stopped = elim (rest.stopped) [ inl e ↦ inl e | inr (a, b) ↦ inr (a, omega (arith, b)) ];
    allowed = inr (elim (rest.allowed) [
      | inl none_more ↦
          let here : s'.t_seqno ≡ s.t_seqno +ℤ pos 1 =
            rest.after
            ∙ (ap (λ j. (send_next now reason s).0.t_seqno +ℤ pos j) none_more
                ∙ (add_zero _ ∙ send_next-t_seqno now reason s nonzero)) in
          let (a, b) = may_send-le s go in (rw here a, rw here b)
      | inr (a, b) ↦
          let k = send_next-Kept now reason s nonzero in
          (
            subst (λ b. s'.t_seqno ≤ℤ b) (bound-Kept k) a,
            subst (λ c. s'.t_seqno ≤ℤ c) k.curseq_same b,
          )
    ]);
  }

module _ (now : ℕ) (force : Bool) (reason maxburst : ℕ) where
  pub many-Sent :
      (fuel sent : ℕ) (s : Sender)
      → IsData s.t_seqno
      → (not s.overhead || force) ≡ true
      → pos_part s.curseq < pos_part s.t_seqno + fuel
      → (k : ℕ) × Sent maxburst sent s (many fuel now force reason maxburst sent s) k
  unfolding many
  many-Sent zero sent s nonzero eager enough =
      (0, Sent-none maxburst sent s (past_data s nonzero enough))
  many-Sent (suc fuel) sent s nonzero eager enough = elim (Bool-cases (may_send s)) [
    | inl go ↦ elim (Bool-cases (ltb 0 maxburst && (sent + 1 == maxburst))) [
      | inl full ↦ (
        1,
        simp (go, eager, full) (Sent-one now reason maxburst sent s nonzero go (ground arith)),
      )
      | inr room ↦
          let s' = (send_next now reason s).0 in
          let e = send_next-t_seqno now reason s nonzero in
          let next = IsData-next s.t_seqno nonzero in
          let (k, rest) =
            many-Sent fuel (sent + 1) s' (rw e next.0)
              (rw ((send_next-Kept now reason s nonzero).overhead_same) eager)
              (rw ((send_next-Kept now reason s nonzero).curseq_same, e, next.1) (omega arith)) in
          (suc k, simp (go, eager, room) (Sent-more now reason maxburst sent s nonzero _ k go rest))
    ]
    | inr stop ↦ (0, simp (stop) (Sent-none maxburst sent s stop))
  ]

-- Let t_seqno_ be above 0, overhead_ be 0 or the call forced, no send timer be pending or the
-- call forced, no burst timer pending, and the fuel exceed the data left. Then send_much sends
-- segments in a row, from t_seqno_ on, and stops because the window or the data ends, or at the
-- burst limit; t_seqno_ moves past them, and, if any are sent, not further than one past the
-- window's end and to the end of the data; the window stays.
pub send_much-Sent :
    (now : ℕ) (force : Bool) (reason maxburst fuel : ℕ) (s : Sender)
    → IsData s.t_seqno
    → (not s.overhead || force) ≡ true
    → (not s.delsnd || force) ≡ true
    → s.burstsnd ≡ false
    → pos_part s.curseq < pos_part s.t_seqno + fuel
    → (k : ℕ) × Sent maxburst 0 s (send_much fuel now force reason maxburst s) k
unfolding send_much
send_much-Sent now force reason maxburst fuel s nonzero eager idle free enough =
    let (k, all) = many-Sent now force reason maxburst fuel 0 s nonzero eager enough in
    let no_wait : ((not force && s.delsnd) || s.burstsnd) ≡ false = ground arith in
    (k, simp (no_wait) all)
