-- ===== src/Sender/First.antt =====
-- The first segment that `Sack1TcpAgent::send_much` sends outside of fast recovery.
use mathlib.Core.List.{map-append}
use saps_extended.Base.{
  ℕ, suc, ◌+◌, ◌≤◌, ◌≡◌, ap, sym, subst, ◌∙◌, List, [], ◌∷◌, ◌++◌, map, true, false, not, ◌&&◌,
  ◌||◌, some, arith, Bool-cases, inl, inr, ltb, ◌==◌, if◌then◌else◌,
}
use saps_extended.Base.Int.{ℤ, pos, negsuc, pos_part, neg_part, ◌+ℤ◌, leb_ℤ, ltb_ℤ, eqb_ℤ, +ℤ_parts}
use saps_extended.Sender.{Sender, Segment, window, output}
use saps_extended.Sender.Sack.{
  Board, sack_may_send, sack_choose, sack_send, sack_round, sack_many, sack_send_much,
}
use saps_extended.Sender.Window.{IsData, output-seqno}

-- The next segment may be sent, and nothing is marked as lost.
pub record CanSend {B : Type 0} (scb : Board B) (s : Sender) (b : B) : Type 0 where
  pub slow : s.fastrecov ≡ false
  pub no_wait : s.delsnd ≡ false
  pub no_overhead : s.overhead ≡ false
  pub small : ltb s.frto 2 ≡ true
  pub window : 1 ≤ s.cwnd
  pub receiver : 1 ≤ s.wnd
  pub next : s.t_seqno ≡ s.highest_ack +ℤ pos 1
  pub last : s.last_ack ≡ s.highest_ack
  pub to_send : ltb_ℤ s.t_seqno s.curseq ≡ true
  pub none_lost : scb.next_retran b ≡ negsuc 0
  pub opened : IsData s.t_seqno

-- The numbers of the segments begin with `x`.
abbrev pub StartsWith : ℤ → List Segment → Type 0
StartsWith x out = (rest : List ℤ) × (map (λ g. g.seqno) out ≡ x ∷ rest)

StartsWith-append :
    (x : ℤ) (out more : List Segment) → StartsWith x out → StartsWith x (out ++ more)
StartsWith-append x out more (rest, eq) = (
  rest ++ map (λ g. g.seqno) more,
  map-append (λ (g : Segment). g.seqno) out more ∙ ap (λ l. l ++ map (λ g. g.seqno) more) eq,
)

module _ {B : Type 0} (scb : Board B) (s : Sender) (b : B) (can : CanSend scb s b) where
  window-is : (w : ℕ) × (window s ≡ pos w) × (1 ≤ w)
  unfolding window
  window-is =
      let no_frto : (s.frto == 2) ≡ false = ground (arith, can.small) in
      elim (Bool-cases (ltb s.cwnd s.wnd)) [
        | inl less ↦ (s.cwnd, simp (no_frto, less), can.window)
        | inr more ↦ (s.wnd, simp (no_frto, more), can.receiver)
      ]

  -- The next segment is not beyond the window.
  fits : (w : ℕ) → 1 ≤ w → leb_ℤ s.t_seqno (s.highest_ack +ℤ pos w) ≡ true
  fits w some_room = ground (
    arith,
    ap pos_part can.next,
    ap neg_part can.next,
    +ℤ_parts s.highest_ack (pos w),
    +ℤ_parts s.highest_ack (pos 1),
  )

  in_window : leb_ℤ s.t_seqno (s.highest_ack +ℤ window s) ≡ true
  in_window =
      let (w, eq, some_room) = window-is in
      ap (λ x. leb_ℤ s.t_seqno (s.highest_ack +ℤ x)) eq ∙ fits w some_room

  may : sack_may_send s ≡ true
  may =
      let in_last : leb_ℤ s.t_seqno (s.last_ack +ℤ window s) ≡ true =
        ap (λ x. leb_ℤ s.t_seqno (x +ℤ window s)) can.last ∙ in_window in
      let there : ltb_ℤ (s.last_ack +ℤ pos 1) s.curseq ≡ true =
        ap (λ x. ltb_ℤ (x +ℤ pos 1) s.curseq) can.last
        ∙ (ap (λ x. ltb_ℤ x s.curseq) (sym can.next) ∙ can.to_send) in
      simp (can.slow, in_last, there)

  chooses : sack_choose scb s b ≡ some (s.t_seqno, record s { t_seqno = s.t_seqno +ℤ pos 1 }, b)
  unfolding sack_choose
  chooses =
      let none_marked : eqb_ℤ (scb.next_retran b) (negsuc 0) ≡ true =
        ap (λ x. eqb_ℤ x (negsuc 0)) can.none_lost in
      simp (none_marked, can.slow, in_window, can.to_send)

  module _ (now reason maxburst : ℕ) where
    sends :
        (more : Sender → B → Sender × B × List Segment)
        → StartsWith s.t_seqno
            (sack_round scb now reason maxburst 0 s b
              (some (s.t_seqno, record s { t_seqno = s.t_seqno +ℤ pos 1 }, b))
              more).2
    unfolding sack_round sack_send
    sends more =
        let next = record s { t_seqno = s.t_seqno +ℤ pos 1 } in
        let start : StartsWith s.t_seqno (output now s.t_seqno reason next).1 =
          ([], output-seqno now s.t_seqno reason next can.opened) in
        elim (Bool-cases (ltb 0 maxburst && (0 + 1 == maxburst))) [
          | inl full ↦ simp (full) start
          | inr room ↦ simp (room) (StartsWith-append s.t_seqno _ _ start)
        ]

    many_sends :
        (fuel : ℕ)
        → StartsWith s.t_seqno (sack_many scb (suc fuel) now false reason maxburst 0 s b).2
    unfolding sack_many
    many_sends fuel =
        let eager : (not s.overhead || false) ≡ true = ground (arith, can.no_overhead) in
        simp (may, eager, chooses) (sends (sack_many scb fuel now false reason maxburst 1))

    -- The next segment is the first one sent.
    pub sack_send_much-first :
        (fuel : ℕ)
        → StartsWith s.t_seqno (sack_send_much scb (suc fuel) now false reason maxburst s b).2
    unfolding sack_send_much
    sack_send_much-first fuel =
        let all = sack_many scb (suc fuel) now false reason maxburst 0 s b in
        subst (λ t. StartsWith s.t_seqno (if t then (s, b, []) else all).2) (sym can.no_wait)
          (many_sends fuel)
