-- ===== src/Recovery/Sound.antt =====
-- What holds of the sender between two events.
use saps_extended.Base.{ℕ, ◌≡◌, ◌⊎◌, inl, inr, refl, sym, ◌∙◌, true, false, arith}
use saps_extended.Base.Int.{ℤ, ◌≤ℤ◌, le_of_eqs, le_trans}
use saps_extended.Recovery.{Setup, Sack1}
use saps_extended.Recovery.Calm.{Calm}
use saps_extended.Recovery.Receipt.{Settled}

-- Without what F-RTO needs.
pub record IsSound {R B : Type 0} (a : Sack1 R B) : Type 0 where
  pub below : a.sender.last_ack ≤ℤ a.sender.highest_ack
  pub sent : a.sender.highest_ack ≤ℤ a.sender.maxseq
  pub recovering : a.sender.fastrecov ≡ true → a.sender.highest_ack ≤ℤ a.sender.recover
  pub normal : a.sender.fastrecov ≡ false → a.sender.highest_ack ≤ℤ a.sender.last_ack
  pub init : (a.wnd_init_option ≡ 1) ⊎ (a.wnd_init_option ≡ 2)

-- Before the second step of F-RTO no duplicate has been counted.
pub record IsValid {R B : Type 0} (e : Setup R B) (a : Sack1 R B) : Type 0 where
  pub sound : IsSound a
  pub first : e.sfrto_enabled ≡ true → a.sender.frto ≡ 2 → a.sender.dupacks ≡ 0

-- What is acknowledged is not taken back.
abbrev pub Grows : {R B : Type 0} → Sack1 R B → Sack1 R B → Type 0
Grows a b = a.sender.highest_ack ≤ℤ b.sender.highest_ack

pub init_of : {n m : ℕ} → m ≡ n → (n ≡ 1) ⊎ (n ≡ 2) → (m ≡ 1) ⊎ (m ≡ 2)
init_of same (inl one) = inl (same ∙ one)
init_of same (inr two) = inr (same ∙ two)

pub Calm-Grows : {R B : Type 0} {a b : Sack1 R B} → Calm a b → Grows a b
Calm-Grows {a} c =
    le_of_eqs a.sender.highest_ack a.sender.highest_ack refl c.sender.highest (omega arith)

pub Calm-IsSound : {R B : Type 0} {a b : Sack1 R B} → Calm a b → IsSound a → IsSound b
Calm-IsSound {a} {b} c h =
    let s = a.sender in
    record {
      below = le_of_eqs s.last_ack s.highest_ack c.sender.last c.sender.highest h.below;
      sent =
          le_trans b.sender.highest_ack s.maxseq b.sender.maxseq
            (le_of_eqs s.highest_ack s.maxseq c.sender.highest refl h.sent) c.sender.more;
      recovering = λ fast.
          le_of_eqs s.highest_ack s.recover c.sender.highest c.sender.recover
            (h.recovering (sym c.sender.fast ∙ fast));
      normal = λ slow.
          le_of_eqs s.highest_ack s.last_ack c.sender.highest c.sender.last
            (h.normal (sym c.sender.fast ∙ slow));
      init = init_of c.init h.init;
    }

-- A new acknowledgement outside of fast recovery.
pub Settled-IsValid :
    {R B : Type 0} (e : Setup R B) (seqno : ℤ) {a b : Sack1 R B}
    → Settled seqno a b
    → a.sender.fastrecov ≡ false
    → seqno ≤ℤ a.sender.maxseq
    → (a.wnd_init_option ≡ 1) ⊎ (a.wnd_init_option ≡ 2)
    → IsValid e b
Settled-IsValid e seqno {a} {b} h slow sent init = record {
  sound = record {
    below = le_of_eqs seqno seqno h.last h.highest (omega arith);
    sent =
        le_trans b.sender.highest_ack a.sender.maxseq b.sender.maxseq
          (le_of_eqs seqno a.sender.maxseq h.highest refl sent) h.more;
    recovering = λ fast. cc (fast, h.fast, slow);
    normal = λ _. le_of_eqs seqno seqno h.highest h.last (omega arith);
    init = init_of h.init init;
  };
  first = λ _ _. h.dupacks;
}

pub Calm-IsValid :
    {R B : Type 0} (e : Setup R B) {a b : Sack1 R B} → Calm a b → IsValid e a → IsValid e b
Calm-IsValid e c h = record {
  sound = Calm-IsSound c h.sound;
  first = λ on two. c.sender.dupacks ∙ h.first on (sym c.sender.frto ∙ two);
}

-- The agent after a step.
pub record Goes {R B : Type 0} (e : Setup R B) (highest : ℤ) (b : Sack1 R B) : Type 0 where
  pub valid : IsValid e b
  pub grows : highest ≤ℤ b.sender.highest_ack

module _ {R B : Type 0} (e : Setup R B) where
  pub Goes-Calm : {highest : ℤ} {b c : Sack1 R B} → Goes e highest b → Calm b c → Goes e highest c
  Goes-Calm {highest} {b} {c} g k = record {
    valid = Calm-IsValid e k g.valid;
    grows = le_trans highest b.sender.highest_ack c.sender.highest_ack g.grows (Calm-Grows k);
  }

  pub Goes-refl : (a : Sack1 R B) → IsValid e a → Goes e a.sender.highest_ack a
  Goes-refl a v = record { valid = v; grows = omega arith }
