-- ===== src/Recovery/FastRetransmit/Once.antt =====
-- What one duplicate does: it is counted, or, as the last one of `numdupacks`, acted on.
use saps_extended.Base.{
  ℕ, ◌+◌, ◌/◌, ◌<◌, ◌≡◌, ap, sym, subst, ◌∙◌, List, [], ◌∷◌, map, Bool, true, false, not, ◌&&◌,
  ◌||◌, some, arith, ltb, ◌==◌, if◌then◌else◌,
}
use saps_extended.Base.Int.{ℤ, pos, pos_part, neg_part, ◌+ℤ◌, ◌-ℤ◌, leb_ℤ, ltb_ℤ, eqb_ℤ}
use saps_extended.SackStack.{Block}
use saps_extended.Packet.{Packet}
use saps_extended.Cwnd.{dupack}
use saps_extended.Sender.{Sender, Segment}
use saps_extended.Sender.Window.{IsData, output-seqno}
use saps_extended.Sender.Pipe.{output-pipe}
use saps_extended.Recovery.{Setup, Sack1, ecnecho, slow, reset_timer}
use saps_extended.Recovery.Loss.{
  num_dupacks, flight, set_pipe, set_recover, set_action, set_fastrecov, halves, retransmit,
  sack_action, dupack_action,
}
use saps_extended.Recovery.Recv.{
  update_board, count_marks, note_ack, count_duplicate, sfrto_step, duplicate, send_normal,
  recv_normal, recv,
}
use saps_extended.Recovery.Calm.{slow-Calm, output-Same}

-- Every acknowledgement brings news of segments, and duplicates are not answered by new segments.
pub record Plain {R B : Type 0} (e : Setup R B) : Type 0 where
  pub news :
      (h : ℤ) (n : ℕ) (area : List Block) (b : B)
      → e.scb.check_update (e.scb.update h n area b) ≡ true
  pub no_single : e.singledup ≡ false
  pub no_old_code : e.old_code ≡ false

-- The sender as it stands but for the count, with window `x`.
pub record Waits {R B : Type 0} (s : Sender) (x : R) (k : ℕ) (a : Sack1 R B) : Type 0 where
  pub sender : a.sender ≡ record s { dupacks = k }
  pub window : a.cut.cwnd ≡ x
  pub calm : a.timeout ≡ false

-- All is in order, and beyond the last loss.
pub record Ready (s : Sender) : Type 0 where
  pub no_recovery : s.fastrecov ≡ false
  pub no_frto : s.frto ≡ 0
  pub recovered : ltb_ℤ s.recover s.highest_ack ≡ true
  pub opened : IsData (s.last_ack +ℤ pos 1)

-- A duplicate that is no ECN-Echo, and not of an earlier connection.
pub record IsDuplicate {R B : Type 0} (e : Setup R B) (s : Sender) (p : Packet) : Type 0 where
  pub same : p.tcp.seqno ≡ s.last_ack
  pub fresh : ltb p.tcp.ts e.lastreset ≡ false
  pub no_echo : ecnecho p ≡ false

-- After the loss is acted on.
pub record Resent {R B : Type 0} (s : Sender) (n : ℕ) (r : Sack1 R B × List Segment) : Type 0 where
  pub again : map (λ g. g.seqno) r.1 ≡ (s.last_ack +ℤ pos 1) ∷ []
  pub fast : r.0.sender.fastrecov ≡ true
  pub recover : r.0.sender.recover ≡ s.maxseq
  pub pipe : r.0.sender.pipe ≡ s.maxseq -ℤ s.highest_ack -ℤ pos n
  pub highest : r.0.sender.highest_ack ≡ s.highest_ack

-- `numdupacks` of a window.
abbrev pub dupacks_for : {R B : Type 0} → Setup R B → R → ℕ
dupacks_for e x =
    let part = e.double.trunc x / e.numdupacks_frac in
    if ltb part e.numdupacks then e.numdupacks else part

module _ {R B : Type 0} (e : Setup R B) (s : Sender) (x : R) (ready : Ready s)
    (plain : Plain e) where
  marks_if :
      (b : Bool) (p : Packet) (k : ℕ) (a : Sack1 R B)
      → Waits s x k a
      → Waits s x k (if b then count_marks e p a else a)
  unfolding count_marks
  marks_if true p k a w = record { sender = w.sender; window = w.window; calm = w.calm }
  marks_if false p k a w = w

  note_ack-Waits :
      (p : Packet) (k : ℕ) (a : Sack1 R B)
      → IsDuplicate e s p
      → Waits s x k a
      → Waits s x k (note_ack e p a)
  unfolding note_ack
  note_ack-Waits p k a d w =
      let counted = record a {
        nackpack = a.nackpack + 1;
        dup_case1_count = p.flags.dup_case1_count;
        dup_case2_count = p.flags.dup_case2_count;
      } in
      simp (d.no_echo) (
        marks_if e.cwnd.dctcp p k counted
          (record { sender = w.sender; window = w.window; calm = w.calm }))

  -- A duplicate is one more.
  pub count_more : Sack1 R B → Sack1 R B
  count_more a = record a { sender = record a.sender { dupacks = a.sender.dupacks + 1 } }

  more-Waits :
      (p : Packet) (k : ℕ) (a : Sack1 R B)
      → Waits s x k a
      → Waits s x (k + 1) (count_more (update_board e p a))
  unfolding count_more
  more-Waits p k a w =
      let count : Sender → Sender = λ t. record t { dupacks = t.dupacks + 1 } in
      record { sender = ap count w.sender; window = w.window; calm = w.calm }

  enough : (k : ℕ) (a : Sack1 R B) → Waits s x k a → num_dupacks e a ≡ dupacks_for e x
  enough k a w = ap (dupacks_for e) w.window

  -- The retransmission, and what it leaves.
  record Acted (a : Sack1 R B) (r : Sack1 R B × List Segment) : Type 0 where
    again : map (λ g. g.seqno) r.1 ≡ (a.sender.last_ack +ℤ pos 1) ∷ []
    fast : r.0.sender.fastrecov ≡ true
    recover : r.0.sender.recover ≡ a.sender.maxseq
    pipe : r.0.sender.pipe ≡ flight e a
    highest : r.0.sender.highest_ack ≡ a.sender.highest_ack
    dupacks : r.0.sender.dupacks ≡ a.sender.dupacks
    frto : r.0.sender.frto ≡ a.sender.frto

  sack_action-Acted :
      (now : ℕ) (a : Sack1 R B)
      → IsData (a.sender.last_ack +ℤ pos 1)
      → Acted a (sack_action e now a)
  unfolding sack_action retransmit slow reset_timer
  sack_action-Acted now a next = simp (plain.no_old_code) (
      let timed =
        reset_timer e now true false (set_pipe (flight e a) (set_recover a.sender.maxseq a)) in
      let acted = set_action dupack (set_fastrecov e timed) in
      let t = (slow e halves acted).sender in
      let o = output-Same now (a.sender.last_ack +ℤ pos 1) 2 t in
      record {
        again = output-seqno now (a.sender.last_ack +ℤ pos 1) 2 t next;
        fast = o.fast;
        recover = o.recover ∙ (slow-Calm e halves acted).sender.recover;
        pipe = (output-pipe now (a.sender.last_ack +ℤ pos 1) 2 t next).0;
        highest = o.highest;
        dupacks = o.dupacks;
        frto = o.frto;
      })

  acts_on :
      (now : ℕ) (a : Sack1 R B)
      → ltb_ℤ a.sender.recover a.sender.highest_ack ≡ true
      → dupack_action e now a ≡ sack_action e now a
  unfolding dupack_action
  acts_on now a recovered =
      let fresh : (ltb_ℤ a.sender.recover a.sender.highest_ack
            || (not e.bug_fix && not a.sender.ecn)
            || (e.bugfix_ss && eqb_ℤ a.sender.highest_ack (pos 0)))
          ≡ true =
        ground (arith, recovered) in
      simp (fresh)

  -- What holds of the agent when a duplicate comes.
  module _ (p : Packet) (k : ℕ) (a : Sack1 R B) (dup : IsDuplicate e s p) (w : Waits s x k a) where
    noted : Sack1 R B
    noted = note_ack e p a

    pub more : Sack1 R B
    more = count_more (update_board e p noted)

    recv-duplicate :
        (now : ℕ)
        → recv e now p a
          ≡ some (
              send_normal e (leb_ℤ noted.sender.last_ack p.tcp.seqno) now (duplicate e now p noted))
    unfolding recv recv_normal noted
    recv-duplicate now =
        let n = note_ack-Waits p k a dup w in
        let slow : noted.sender.fastrecov ≡ false =
          ap (λ t. t.fastrecov) n.sender ∙ ready.no_recovery in
        let last : noted.sender.last_ack ≡ p.tcp.seqno =
          ap (λ t. t.last_ack) n.sender ∙ sym dup.same in
        let not_new : ltb_ℤ noted.sender.last_ack p.tcp.seqno ≡ false =
          ground (arith, ap pos_part last, ap neg_part last) in
        let again : (not (ltb_ℤ p.tcp.seqno noted.sender.last_ack) && not noted.timeout) ≡ true =
          ground (arith, ap pos_part last, ap neg_part last, n.calm) in
        simp (dup.fresh, slow, not_new, again)

    duplicate-count :
        (now : ℕ)
        → duplicate e now p noted ≡ (
          sfrto_step e p (count_duplicate e now (update_board e p noted)).0,
          (count_duplicate e now (update_board e p noted)).1,
        )
    unfolding duplicate noted
    duplicate-count now =
        simp (plain.news noted.sender.highest_ack p.tcp.sa_length p.tcp.sack_area noted.board)

    pub more-is : Waits s x (k + 1) more
    unfolding more noted
    more-is = more-Waits p k noted (note_ack-Waits p k a dup w)

    frto_off : (b : Sack1 R B) → b.sender.frto ≡ 0 → sfrto_step e p b ≡ b
    unfolding sfrto_step
    frto_off b off =
        let no : (e.sfrto_enabled && (b.sender.frto == 2)) ≡ false = ground (arith, off) in
        simp (no)

    sends_none :
        (valid : Bool) (now : ℕ) (b : Sack1 R B) (out : List Segment) (j : ℕ)
        → b.sender.dupacks ≡ j + 1
        → send_normal e valid now (b, out) ≡ (b, out)
    sends_none valid now b out j some_dups =
        let no : ((valid || e.aggressive_maxburst) && (b.sender.dupacks == 0)) ≡ false =
          ground (arith, some_dups) in
        simp (no)

    -- What `recv` gives, once the duplicate is counted.
    counted :
        (now : ℕ) (b : Sack1 R B) (out : List Segment) (j : ℕ)
        → count_duplicate e now (update_board e p noted) ≡ (b, out)
        → b.sender.frto ≡ 0
        → b.sender.dupacks ≡ j + 1
        → recv e now p a ≡ some (b, out)
    counted now b out j eq off some_dups =
        let valid = leb_ℤ noted.sender.last_ack p.tcp.seqno in
        let step_on : Sack1 R B × List Segment → Sack1 R B × List Segment =
          λ r. (sfrto_step e p r.0, r.1) in
        let pair : Sack1 R B → Sack1 R B × List Segment = λ q. (q, out) in
        recv-duplicate now
        ∙ (ap (λ r. some (send_normal e valid now r))
              (duplicate-count now ∙ (ap step_on eq ∙ ap pair (frto_off b off)))
            ∙ ap some (sends_none valid now b out j some_dups))

    number : num_dupacks e more ≡ dupacks_for e x
    number = enough (k + 1) more more-is

    counts-as : more.sender.dupacks ≡ k + 1
    counts-as = ap (λ t. t.dupacks) more-is.sender

    none_sent :
        (now : ℕ)
        → k + 1 < dupacks_for e x
        → count_duplicate e now (update_board e p noted) ≡ (more, [])
    unfolding count_duplicate more count_more
    none_sent now few =
        let miss : (more.sender.dupacks == num_dupacks e more) ≡ false =
          ground (arith, counts-as, number) in
        let early : (ltb more.sender.dupacks (num_dupacks e more) && e.singledup) ≡ false =
          ground (arith, plain.no_single) in
        simp (miss, early)

    acted :
        (now : ℕ)
        → k + 1 ≡ dupacks_for e x
        → count_duplicate e now (update_board e p noted) ≡ sack_action e now more
    unfolding count_duplicate more count_more
    acted now full =
        let hit : (more.sender.dupacks == num_dupacks e more) ≡ true =
          ground (arith, counts-as, number) in
        simp (hit) (
          acts_on now more
            (ap (λ t. ltb_ℤ t.recover t.highest_ack) more-is.sender ∙ ready.recovered))

    flight-is : k + 1 ≡ dupacks_for e x → flight e more ≡ s.maxseq -ℤ s.highest_ack -ℤ pos (k + 1)
    flight-is full = simp (plain.no_single) (
        ap (λ t. t.maxseq -ℤ t.highest_ack -ℤ pos (num_dupacks e more)) more-is.sender
        ∙ ap (λ n. s.maxseq -ℤ s.highest_ack -ℤ pos n) (number ∙ sym full))

    pub step_counts : (now : ℕ) → k + 1 < dupacks_for e x → recv e now p a ≡ some (more, [])
    step_counts now few =
        counted now more [] k (none_sent now few) (ap (λ t. t.frto) more-is.sender ∙ ready.no_frto)
          counts-as

    pub step_acts :
        (now : ℕ)
        → k + 1 ≡ dupacks_for e x
        → (r : Sack1 R B × List Segment) × (recv e now p a ≡ some r) × Resent s (k + 1) r
    step_acts now full =
        let m = more-is.sender in
        let acts =
          sack_action-Acted now more
            (subst (λ t. IsData (t.last_ack +ℤ pos 1)) (sym m) ready.opened) in
        let r = sack_action e now more in
        (
          r,
          counted now r.0 r.1 k (acted now full) (acts.frto ∙ (ap (λ t. t.frto) m ∙ ready.no_frto))
              (acts.dupacks ∙ counts-as),
          record {
            again = acts.again ∙ ap (λ t. (t.last_ack +ℤ pos 1) ∷ []) m;
            fast = acts.fast;
            recover = acts.recover ∙ ap (λ t. t.maxseq) m;
            pipe = acts.pipe ∙ flight-is full;
            highest = acts.highest ∙ ap (λ t. t.highest_ack) m;
          },
        )
