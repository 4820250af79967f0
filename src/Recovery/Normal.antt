-- ===== src/Recovery/Normal.antt =====
-- Outside of fast recovery `recv` keeps the invariant, and takes back nothing that is acknowledged.
use saps_extended.Base.{
  ℕ, ◌<◌, ◌≡◌, ◌⊎◌, inl, inr, refl, ap, ◌∙◌, List, [], Bool, true, false, not, ◌&&◌, some, arith,
  Bool-cases, ltb, leb,
}
use saps_extended.Base.Int.{ℤ, pos, ◌≤ℤ◌, ltb_ℤ, eqb_ℤ, le_of_eqs}
use saps_extended.Packet.{Packet}
use saps_extended.Cwnd.Growth.{IsKnown}
use saps_extended.Sender.{Segment}
use saps_extended.Recovery.{Setup, Sack1, set_cwnd}
use saps_extended.Recovery.Recv.{
  clear_loss, initial_window, after_new, new_normal, duplicate, send_if, send_normal, recv_normal,
}
use saps_extended.Recovery.Calm.{Same-refl, unmoved, Calm, much-Calm}
use saps_extended.Recovery.Receipt.{recv_newack_helper-Settled}
use saps_extended.Recovery.Sound.{IsValid, Settled-IsValid, Goes, Goes-Calm, Goes-refl}
use saps_extended.Recovery.Duplicate.{duplicate-IsValid}

module _ {R B : Type 0} (e : Setup R B) where
  pub send_if-Goes :
      {highest : ℤ} (b : Bool) (now : ℕ) (r : Sack1 R B × List Segment)
      → Goes e highest r.0
      → Goes e highest (send_if e b now r).0
  send_if-Goes true now (a, out) g = Goes-Calm e g (much-Calm e now false 0 a)
  send_if-Goes false now (a, out) g = g

  -- The initial window is known.
  initial_known :
      (a : Sack1 R B)
      → (a.wnd_init_option ≡ 1) ⊎ (a.wnd_init_option ≡ 2)
      → (x : R) × (initial_window e a ≡ some x)
  initial_known a (inl one) = (a.wnd_init, rw one refl)
  initial_known a (inr two) = elim (Bool-cases (leb a.sender.size 1095)) [
    | inl small ↦ (e.double.num 4 1, simp (two, small))
    | inr more ↦ elim (Bool-cases (ltb a.sender.size 2190)) [
      | inl middle ↦ (e.double.num 3 1, simp (two, more, middle))
      | inr large ↦ (e.double.num 2 1, simp (two, more, large))
    ]
  ]

  cwnd-Calm : (x : R) (a : Sack1 R B) → Calm a (set_cwnd e x a)
  cwnd-Calm x a = record {
    sender = unmoved a.sender _ refl refl refl refl refl refl refl;
    init = refl;
  }

  pub clear-Calm : (a : Sack1 R B) → Calm a (clear_loss e a)
  clear-Calm a = record { sender = Same-refl a.sender; init = refl }

  after_new-Goes :
      {highest : ℤ} (a : Sack1 R B)
      → Goes e highest a
      → (b : Sack1 R B) × (after_new e (some a) ≡ some b) × Goes e highest b
  after_new-Goes a g =
      let cleared = Goes-Calm e g (clear-Calm a) in
      elim (Bool-cases (eqb_ℤ a.sender.last_ack (pos 0) && e.delay_growth)) [
        | inr no_growth ↦ (clear_loss e a, simp (no_growth), cleared)
        | inl growth ↦
            let (x, known) = initial_known (clear_loss e a) g.valid.sound.init in
            (
              set_cwnd e x (clear_loss e a),
              simp (growth, known),
              Goes-Calm e cleared (cwnd-Calm x (clear_loss e a)),
            )
      ]

  new_normal-Goes :
      (now : ℕ) (p : Packet) (a : Sack1 R B)
      → IsKnown e.cwnd
      → IsValid e a
      → a.sender.fastrecov ≡ false
      → p.tcp.seqno ≤ℤ a.sender.maxseq
      → a.sender.highest_ack ≤ℤ p.tcp.seqno
      → (b : Sack1 R B) × (new_normal e now p a ≡ some b) × Goes e a.sender.highest_ack b
  unfolding new_normal
  new_normal-Goes now p a known v slow sent above =
      let first = record a { firstpartial = false } in
      let (b, eq, settled) = recv_newack_helper-Settled e now p first known in
      let g : Goes e a.sender.highest_ack b = record {
        valid = Settled-IsValid e p.tcp.seqno settled slow sent v.sound.init;
        grows = le_of_eqs a.sender.highest_ack p.tcp.seqno refl settled.highest above;
      } in
      let (c, eq', g') = after_new-Goes b g in (c, ap (after_new e) eq ∙ eq', g')

  pub recv_normal-Goes :
      (valid : Bool) (now : ℕ) (p : Packet) (a : Sack1 R B)
      → IsKnown e.cwnd
      → 1 < e.numdupacks
      → IsValid e a
      → a.sender.fastrecov ≡ false
      → p.tcp.seqno ≤ℤ a.sender.maxseq
      → (r : Sack1 R B × List Segment) × (recv_normal e valid now p a ≡ some r)
        × Goes e a.sender.highest_ack r.0
  unfolding recv_normal
  recv_normal-Goes valid now p a known two v slow sent =
      let highest = a.sender.highest_ack in
      elim (Bool-cases (ltb_ℤ a.sender.last_ack p.tcp.seqno)) [
        | inl new ↦
            let above : highest ≤ℤ p.tcp.seqno = ground (arith, v.sound.normal slow, new) in
            let (b, eq, g) = new_normal-Goes now p a known v slow sent above in
            (send_normal e valid now (b, []), simp (new, eq), send_if-Goes _ now (b, []) g)
        | inr old ↦ elim (Bool-cases (not (ltb_ℤ p.tcp.seqno a.sender.last_ack) && not a.timeout)) [
          | inl again ↦
              let (v', grows) = duplicate-IsValid e two now p a v slow in
              (
                send_normal e valid now (duplicate e now p a),
                simp (old, again),
                send_if-Goes _ now (duplicate e now p a) (record { valid = v'; grows = grows }),
              )
          | inr none_new ↦ (
            send_normal e valid now (a, []),
            simp (old, none_new),
            send_if-Goes _ now (a, []) (Goes-refl e a v),
          )
        ]
      ]
