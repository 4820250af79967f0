-- ===== src/Recovery/Events.antt =====
-- Any sequence of acknowledgements and timers.
use saps_extended.Base.{
  ℕ, ◌<◌, ◌≡◌, refl, ap, subst, ◌∙◌, List, [], ◌∷◌, ◌++◌, Option, none, some, Bool-cases, inl, inr,
  ltb,
}
use saps_extended.Base.Int.{◌≤ℤ◌, leb_ℤ, le_of_eqs, le_trans}
use saps_extended.Packet.{Packet}
use saps_extended.Cwnd.Growth.{IsKnown}
use saps_extended.Sender.{Segment}
use saps_extended.Recovery.{Setup, Sack1}
use saps_extended.Recovery.Recv.{note_ack, recv_recovery, recv}
use saps_extended.Recovery.Timeout.{
  Timer, rtx, delsnd, fb, timeout, Event, acked, expired, step, run_out,
}
use saps_extended.Recovery.Calm.{Same-refl, unmoved, Calm}
use saps_extended.Recovery.Sound.{IsValid, Calm-IsValid, Goes, Goes-refl}
use saps_extended.Recovery.Noted.{note_ack-Noted, Noted-IsValid}
use saps_extended.Recovery.Normal.{recv_normal-Goes}
use saps_extended.Recovery.Partial.{recv_recovery-Goes}
use saps_extended.Recovery.Resend.{timeout-Goes}

abbrev pub and_then :
    {A : Type 0} → List Segment → Option (A × List Segment) → Option (A × List Segment)
and_then out none = none
and_then out (some (a, more)) = some (a, out ++ more)

abbrev pub go_on :
    {A : Type 0}
    → Option (A × List Segment)
    → (A → Option (A × List Segment))
    → Option (A × List Segment)
go_on none f = none
go_on (some (a, out)) f = and_then out (f a)

abbrev pub IfSome : {A : Type 0} → Option (A × List Segment) → (A → Type 0) → Type 0
IfSome none P = Unit
IfSome (some (a, out)) P = P a

pub IfSome-all :
    {A : Type 0} {P : A → Type 0} (o : Option (A × List Segment)) → ((a : A) → P a) → IfSome o P
IfSome-all none all = tt
IfSome-all (some (a, out)) all = all a

module _ {R B : Type 0} (e : Setup R B) where
  -- The agent after the events, and all that it has sent.
  unfoldable pub run : Sack1 R B → List Event → Option (Sack1 R B × List Segment)
  run a [] = some (a, [])
  run a (x ∷ events) = go_on (step e a x) (λ b. run b events)

  -- An acknowledgement is of something sent.
  abbrev pub IsOfSent : Sack1 R B → Event → Type 0
  IsOfSent a (acked now p) = p.tcp.seqno ≤ℤ a.sender.maxseq
  IsOfSent a (expired now t) = Unit

  abbrev pub AllOfSent : Sack1 R B → List Event → Type 0
  AllOfSent a [] = Unit
  AllOfSent a (x ∷ events) = IsOfSent a x × IfSome (step e a x) (λ b. AllOfSent b events)

  module _ (known : IsKnown e.cwnd) (two : 1 < e.numdupacks) where
    recv-Goes :
        (now : ℕ) (p : Packet) (a : Sack1 R B)
        → IsValid e a
        → p.tcp.seqno ≤ℤ a.sender.maxseq
        → (r : Sack1 R B × List Segment) × (recv e now p a ≡ some r)
          × Goes e a.sender.highest_ack r.0
    unfolding recv
    recv-Goes now p a v sent =
        let noted = note_ack e p a in
        let n = note_ack-Noted e p a in
        let (v', grows) = Noted-IsValid e noted n v in
        let valid = leb_ℤ noted.sender.last_ack p.tcp.seqno in
        let sent' : p.tcp.seqno ≤ℤ noted.sender.maxseq =
          le_of_eqs p.tcp.seqno a.sender.maxseq refl n.maxseq sent in
        elim (Bool-cases (ltb p.tcp.ts e.lastreset)) [
          | inl old ↦ ((a, []), simp (old), Goes-refl e a v)
          | inr fresh ↦ elim (Bool-cases noted.sender.fastrecov) [
            | inl fast ↦
                let g = recv_recovery-Goes e valid now p noted v' fast sent' in
                (
                  recv_recovery e valid now p noted,
                  simp (fresh, fast),
                  record {
                    valid = g.valid;
                    grows = le_trans a.sender.highest_ack noted.sender.highest_ack _ grows g.grows;
                  },
                )
            | inr slow ↦
                let (r, eq, g) = recv_normal-Goes e valid now p noted known two v' slow sent' in
                (
                  r,
                  simp (fresh, slow) eq,
                  record {
                    valid = g.valid;
                    grows = le_trans a.sender.highest_ack noted.sender.highest_ack _ grows g.grows;
                  },
                )
          ]
        ]

    run_out-Calm : (t : Timer) (a : Sack1 R B) → Calm a (run_out t a)
    run_out-Calm rtx a = record {
      sender = unmoved a.sender _ refl refl refl refl refl refl refl;
      init = refl;
    }
    run_out-Calm delsnd a = record {
      sender = unmoved a.sender _ refl refl refl refl refl refl refl;
      init = refl;
    }
    run_out-Calm fb a = record { sender = Same-refl a.sender; init = refl }

    step-Goes :
        (a : Sack1 R B) (x : Event)
        → IsValid e a
        → IsOfSent a x
        → (r : Sack1 R B × List Segment) × (step e a x ≡ some r) × Goes e a.sender.highest_ack r.0
    step-Goes a (acked now p) v sent = recv-Goes now p a v sent
    step-Goes a (expired now rtx) v sent = (
      timeout e now rtx (run_out rtx a),
      refl,
      timeout-Goes e now rtx (run_out rtx a) (Calm-IsValid e (run_out-Calm rtx a) v),
    )
    step-Goes a (expired now delsnd) v sent = (
      timeout e now delsnd (run_out delsnd a),
      refl,
      timeout-Goes e now delsnd (run_out delsnd a) (Calm-IsValid e (run_out-Calm delsnd a) v),
    )
    step-Goes a (expired now fb) v sent = (
      timeout e now fb (run_out fb a),
      refl,
      timeout-Goes e now fb (run_out fb a) (Calm-IsValid e (run_out-Calm fb a) v),
    )

    -- If opencwnd knows wnd_option_ and numdupacks_ is above 1, with any fuel of send_much: from
    -- a valid state (last_ack_ ≤ highest_ack_ ≤ maxseq_; highest_ack_ not above recover_ in fast
    -- recovery and equal to last_ack_ outside; wnd_init_option_ 1 or 2; with sfrto_enabled_, no
    -- duplicate counted while frto_ is 2), every sequence of acknowledgements of sent segments
    -- and of timers runs to its end, without an abort. The state is valid again, and highest_ack_
    -- has not decreased.
    pub run-Goes :
        (a : Sack1 R B) (events : List Event)
        → IsValid e a
        → AllOfSent a events
        → (r : Sack1 R B × List Segment) × (run a events ≡ some r) × Goes e a.sender.highest_ack r.0
    unfolding run
    run-Goes a [] v all = ((a, []), refl, Goes-refl e a v)
    run-Goes a (x ∷ events) v all =
        let ((b, out), eq, g) = step-Goes a x v all.0 in
        let rest = subst (λ o. IfSome o (λ c. AllOfSent c events)) eq all.1 in
        let ((c, more), eq', g') = run-Goes b events g.valid rest in
        (
          (c, out ++ more),
          ap (λ o. go_on o (λ d. run d events)) eq ∙ ap (and_then out) eq',
          record {
            valid = g'.valid;
            grows =
                le_trans a.sender.highest_ack b.sender.highest_ack c.sender.highest_ack g.grows
                  g'.grows;
          },
        )
