-- ===== src/Sender/Pipe.antt =====
-- In fast recovery the loop of `Sack1TcpAgent::send_much` fills the pipe, and no more.
use saps_extended.Base.{
  ℕ, zero, suc, ◌+◌, ◌<◌, ◌≡◌, ◌⊎◌, inl, inr, refl, ap, sym, subst, ◌∙◌, List, [], ◌∷◌, ◌++◌, Bool,
  true, false, not, ◌&&◌, ◌||◌, Option, none, some, arith, ltb, ◌==◌, if◌then◌else◌, Bool-cases,
  length,
}
use saps_extended.Base.Int.{
  ℤ, pos, negsuc, pos_part, neg_part, ◌+ℤ◌, ◌≤ℤ◌, ltb_ℤ, leb_ℤ, eqb_ℤ, +ℤ_parts,
}
use saps_extended.Sender.{Sender, Segment, output, hand_over, note_new}
use saps_extended.Sender.Sack.{
  Board, within, sack_may_send, sack_choose, sack_send, sack_round, sack_many, sack_send_much,
}
use saps_extended.Sender.Window.{Kept, Kept-refl, Kept-trans, IsData, output-Kept, output-t_seqno}

-- The scoreboard gives -1, or the number of a segment other than the first.
abbrev pub Answers : {B : Type 0} → Board B → Type 0
Answers {B} scb = (b : B) → (scb.next_retran b ≡ negsuc 0) ⊎ IsData (scb.next_retran b)

length-add {ℓ} : {A : Type ℓ} (xs ys : List A) → length (xs ++ ys) ≡ length xs + length ys
length-add [] ys = omega arith
length-add (x ∷ xs) ys = omega (arith, length-add xs ys)

pub output-pipe :
    (now : ℕ) (x : ℤ) (reason : ℕ) (s : Sender)
    → IsData x
    → ((output now x reason s).0.pipe ≡ s.pipe) × (length (output now x reason s).1 ≡ 1)
unfolding output hand_over note_new
output-pipe now x reason s h = ground arith

-- The loop has sent `k` segments, each of which is in the pipe.
module _ {B : Type 0} (scb : Board B) where
  pub record Filled (maxburst sent : ℕ) (s : Sender) (r : Sender × B × List Segment) (k : ℕ)
      : Type 0 where
    pub counted : length r.2 ≡ k
    pub pipe_is : r.0.pipe ≡ s.pipe +ℤ pos k
    pub within_cwnd : (k ≡ 0) ⊎ (r.0.pipe ≤ℤ pos s.cwnd)
    pub kept : Kept s r.0
    pub stopped :
        (sack_may_send r.0 ≡ false)
        ⊎ ((sack_choose scb r.0 r.1 ≡ none) ⊎ ((0 < maxburst) × (sent + k ≡ maxburst)))

record Chosen {B : Type 0} (s : Sender) (c : ℤ × Sender × B) : Type 0 where
  number : IsData c.0
  same : Kept s c.1
  pipe_same : c.1.pipe ≡ s.pipe
  next : IsData c.1.t_seqno

record Put (s : Sender) (r : Sender × List Segment) : Type 0 where
  same : Kept s r.0
  one_more : r.0.pipe ≡ s.pipe +ℤ pos 1
  one_out : length r.1 ≡ 1
  next : IsData r.0.t_seqno

IsData-next : (t : ℤ) → IsData t → IsData (t +ℤ pos 1)
unfolding ◌+ℤ◌
IsData-next t h = ground arith

add_zero : (t : ℤ) → t +ℤ pos 0 ≡ t
unfolding ◌+ℤ◌
add_zero t = ground arith

add_one : (t : ℤ) (k : ℕ) → t +ℤ pos 1 +ℤ pos k ≡ t +ℤ pos (suc k)
unfolding ◌+ℤ◌
add_one t k = ground arith

sack_send-Put :
    (now reason : ℕ) (x : ℤ) (s : Sender)
    → IsData x
    → IsData s.t_seqno
    → Put s (sack_send now reason x s)
unfolding sack_send
sack_send-Put now reason x s h t =
    let k = output-Kept now x reason s h in
    let (pipe, one) = output-pipe now x reason s h in
    record {
      same = record {
        highest_same = k.highest_same;
        curseq_same = k.curseq_same;
        recover_same = k.recover_same;
        cwnd_same = k.cwnd_same;
        wnd_same = k.wnd_same;
        frto_same = k.frto_same;
        overhead_same = k.overhead_same;
        fastrecov_same = k.fastrecov_same;
      };
      one_more = ap (λ p. p +ℤ pos 1) pipe;
      one_out = one;
      next = ground (arith, IsData-next x h, output-t_seqno now x reason s h);
    }

abbrev ChosenOr : {B : Type 0} → Sender → Option (ℤ × Sender × B) → Type 0
ChosenOr s none = Unit
ChosenOr s (some c) = Chosen s c

ChosenOr-if :
    {B : Type 0} {s : Sender} (test : Bool) (c : ℤ × Sender × B)
    → Chosen s c
    → ChosenOr s (if test then some c else none)
ChosenOr-if true c h = h
ChosenOr-if false c h = tt

room_for :
    (s : Sender) → s.fastrecov ≡ true → sack_may_send s ≡ true → s.pipe +ℤ pos 1 ≤ℤ pos s.cwnd
room_for s fast go = ground (arith, +ℤ_parts s.pipe (pos 1))

full_pipe :
    (s : Sender)
    → s.fastrecov ≡ true
    → s.cwnd + neg_part s.pipe < pos_part s.pipe + 0
    → sack_may_send s ≡ false
full_pipe s fast enough = ground arith

pipe_grows :
    (s s' : Sender) (fuel : ℕ)
    → s'.pipe ≡ s.pipe +ℤ pos 1
    → s'.cwnd ≡ s.cwnd
    → s.cwnd + neg_part s.pipe < pos_part s.pipe + suc fuel
    → s'.cwnd + neg_part s'.pipe < pos_part s'.pipe + fuel
pipe_grows s s' fuel pipe same enough = ground (arith, +ℤ_parts s.pipe (pos 1))

still_stopped :
    (maxburst sent k : ℕ) {P Q : Type 0}
    → P ⊎ (Q ⊎ ((0 < maxburst) × (sent + 1 + k ≡ maxburst)))
    → P ⊎ (Q ⊎ ((0 < maxburst) × (sent + suc k ≡ maxburst)))
still_stopped maxburst sent k (inl p) = inl p
still_stopped maxburst sent k (inr (inl q)) = inr (inl q)
still_stopped maxburst sent k (inr (inr (a, b))) = inr (inr (a, omega (arith, b)))

not_none : (x : ℤ) → (x ≡ negsuc 0) ⊎ IsData x → eqb_ℤ x (negsuc 0) ≡ false → IsData x
not_none x (inl e) h = ground arith
not_none x (inr data_x) h = data_x

module _ {B : Type 0} (scb : Board B) (answers : Answers scb) where
  sack_choose-Chosen : (s : Sender) (b : B) → IsData s.t_seqno → ChosenOr s (sack_choose scb s b)
  unfolding sack_choose
  sack_choose-Chosen s b t = elim (Bool-cases (eqb_ℤ (scb.next_retran b) (negsuc 0))) [
    | inl new ↦ rw new (
        ChosenOr-if (within s && ltb_ℤ s.t_seqno s.curseq)
          (s.t_seqno, record s { t_seqno = s.t_seqno +ℤ pos 1 }, b)
          (record {
            number = t;
            same = record {
              highest_same = refl;
              curseq_same = refl;
              recover_same = refl;
              cwnd_same = refl;
              wnd_same = refl;
              frto_same = refl;
              overhead_same = refl;
              fastrecov_same = refl;
            };
            pipe_same = refl;
            next = IsData-next s.t_seqno t;
          }))
    | inr old ↦ rw old (
        ChosenOr-if
          (ltb_ℤ (pos 0) s.recover && leb_ℤ (scb.next_retran b) (s.highest_ack +ℤ pos s.wnd))
          (scb.next_retran b, s, scb.mark_retran (scb.next_retran b) b)
          (record {
            number = not_none (scb.next_retran b) (answers b) old;
            same = Kept-refl s;
            pipe_same = refl;
            next = t;
          }))
  ]

  still_within :
      {maxburst sent : ℕ} (s s' : Sender) (r : Sender × B × List Segment) (k : ℕ)
      → s.fastrecov ≡ true
      → sack_may_send s ≡ true
      → s'.pipe ≡ s.pipe +ℤ pos 1
      → s'.cwnd ≡ s.cwnd
      → Filled scb maxburst sent s' r k
      → r.0.pipe ≤ℤ pos s.cwnd
  still_within s s' r k fast go pipe1 same filled = elim (filled.within_cwnd) [
    | inl none_more ↦
        let here : r.0.pipe ≡ s.pipe +ℤ pos 1 =
          filled.pipe_is ∙ (ap (λ j. s'.pipe +ℤ pos j) none_more ∙ (add_zero s'.pipe ∙ pipe1)) in
        rw here (room_for s fast go)
    | inr a ↦ subst (λ c. r.0.pipe ≤ℤ pos c) same a
  ]

  -- The round that has found a segment, and the further rounds.
  module _ (now reason maxburst sent : ℕ) (s : Sender) where
    round-Filled :
        (b : B) (c : Option (ℤ × Sender × B)) (more : Sender → B → Sender × B × List Segment)
        → s.fastrecov ≡ true
        → sack_may_send s ≡ true
        → sack_choose scb s b ≡ c
        → ChosenOr s c
        → ((s' : Sender) (b' : B)
            → IsData s'.t_seqno
            → s'.fastrecov ≡ true
            → s'.overhead ≡ s.overhead
            → s'.cwnd ≡ s.cwnd
            → s'.pipe ≡ s.pipe +ℤ pos 1
            → (k : ℕ) × Filled scb maxburst (sent + 1) s' (more s' b') k)
        → (k : ℕ) × Filled scb maxburst sent s
            (sack_round scb now reason maxburst sent s b c more)
            k
    unfolding sack_round
    round-Filled b none more fast go e h rest = (
      0,
      record {
        counted = refl;
        pipe_is = sym (add_zero s.pipe);
        within_cwnd = inl refl;
        kept = Kept-refl s;
        stopped = inr (inl e);
      },
    )
    round-Filled b (some (x, s1, b1)) more fast go e h rest =
        let put = sack_send-Put now reason x s1 h.number h.next in
        let k1 = Kept-trans h.same put.same in
        let pipe1 : (sack_send now reason x s1).0.pipe ≡ s.pipe +ℤ pos 1 =
          put.one_more ∙ ap (λ p. p +ℤ pos 1) h.pipe_same in
        elim (Bool-cases (ltb 0 maxburst && (sent + 1 == maxburst))) [
          | inl full ↦ (
            1,
            rw full (record {
              counted = put.one_out;
              pipe_is = pipe1;
              within_cwnd = inr (rw pipe1 (room_for s fast go));
              kept = k1;
              stopped = inr (inr (ground arith));
            }),
          )
          | inr room ↦
              let (k, filled) =
                rest (sack_send now reason x s1).0 b1 put.next (k1.fastrecov_same ∙ fast)
                  k1.overhead_same k1.cwnd_same pipe1 in
              (
                suc k,
                rw room (record {
                  counted =
                      length-add (sack_send now reason x s1).1
                        (more (sack_send now reason x s1).0 b1).2
                      ∙ omega (arith, put.one_out, filled.counted);
                  pipe_is = filled.pipe_is ∙ (ap (λ p. p +ℤ pos k) pipe1 ∙ add_one s.pipe k);
                  within_cwnd = inr (still_within s _ _ k fast go pipe1 k1.cwnd_same filled);
                  kept = Kept-trans k1 filled.kept;
                  stopped = still_stopped maxburst sent k filled.stopped;
                }),
              )
        ]

  sack_many-Filled :
      (fuel now : ℕ) (force : Bool) (reason maxburst sent : ℕ) (s : Sender) (b : B)
      → IsData s.t_seqno
      → s.fastrecov ≡ true
      → (not s.overhead || force) ≡ true
      → s.cwnd + neg_part s.pipe < pos_part s.pipe + fuel
      → (k : ℕ) × Filled scb maxburst sent s
          (sack_many scb fuel now force reason maxburst sent s b)
          k
  unfolding sack_many
  sack_many-Filled zero now force reason maxburst sent s b t fast eager enough = (
    0,
    record {
      counted = refl;
      pipe_is = sym (add_zero s.pipe);
      within_cwnd = inl refl;
      kept = Kept-refl s;
      stopped = inl (full_pipe s fast enough);
    },
  )
  sack_many-Filled (suc fuel) now force reason maxburst sent s b t fast eager enough =
      elim (Bool-cases (sack_may_send s)) [
        | inl go ↦
            let (k, filled) =
              round-Filled now reason maxburst sent s b (sack_choose scb s b)
                (sack_many scb fuel now force reason maxburst (sent + 1)) fast go refl
                (sack_choose-Chosen s b t)
                (λ s' b' t' fast' over cwnd pipe.
                  sack_many-Filled fuel now force reason maxburst (sent + 1) s' b' t' fast'
                    (rw over eager) (pipe_grows s s' fuel pipe cwnd enough)) in
            (k, simp (go, eager) filled)
        | inr stop ↦ (
          0,
          simp (stop) (record {
            counted = refl;
            pipe_is = sym (add_zero s.pipe);
            within_cwnd = inl refl;
            kept = Kept-refl s;
            stopped = inl stop;
          }),
        )
      ]

-- In fast recovery, with t_seqno_ above 0, overhead_ 0 or the call forced, no send timer pending
-- or the call forced, a scoreboard that answers -1 or a number above 0, and fuel above the room
-- in the pipe: each segment that send_much sends is counted in pipe_, which never passes the
-- congestion window by it; the loop stops because its test fails, because there is nothing to
-- send, or at the burst limit; and window, data and recovery stay.
pub sack_send_much-Filled :
    {B : Type 0} (scb : Board B) (fuel now : ℕ) (force : Bool) (reason maxburst : ℕ) (s : Sender)
    (b : B)
    → Answers scb
    → IsData s.t_seqno
    → s.fastrecov ≡ true
    → (not s.overhead || force) ≡ true
    → (not s.delsnd || force) ≡ true
    → s.cwnd + neg_part s.pipe < pos_part s.pipe + fuel
    → (k : ℕ) × Filled scb maxburst 0 s (sack_send_much scb fuel now force reason maxburst s b) k
unfolding sack_send_much
sack_send_much-Filled scb fuel now force reason maxburst s b answers t fast eager idle enough =
    let (k, filled) =
      sack_many-Filled scb answers fuel now force reason maxburst 0 s b t fast eager enough in
    let no_wait : (not force && s.delsnd) ≡ false = ground arith in (k, simp (no_wait) filled)
