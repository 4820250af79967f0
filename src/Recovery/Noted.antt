-- ===== src/Recovery/Noted.antt =====
-- What `recv` does first: an answer to ECN-Echo may move `recover_`, and nothing else here.
use saps_extended.Base.{
  ℕ, ◌≡◌, ◌⊎◌, inl, inr, refl, sym, ◌∙◌, ◌+◌, Bool, true, false, ◌&&◌, arith, if◌then◌else◌, subst,
}
use saps_extended.Base.Int.{pos_part, le_of_eqs}
use saps_extended.Packet.{Packet}
use saps_extended.Cwnd.Cuts.{ecn-recover}
use saps_extended.Sender.{Sender, window}
use saps_extended.Recovery.{Setup, Sack1, settings, cut_of, ecnecho}
use saps_extended.Recovery.Recv.{count_marks, answer_echo, note_ack}
use saps_extended.Recovery.Sound.{IsValid, Grows, init_of}

pub record Noted {R B : Type 0} (s : Sender) (option : ℕ) (b : Sack1 R B) : Type 0 where
  pub highest : b.sender.highest_ack ≡ s.highest_ack
  pub last : b.sender.last_ack ≡ s.last_ack
  pub dupacks : b.sender.dupacks ≡ s.dupacks
  pub fast : b.sender.fastrecov ≡ s.fastrecov
  pub frto : b.sender.frto ≡ s.frto
  pub maxseq : b.sender.maxseq ≡ s.maxseq
  pub recover : (b.sender.recover ≡ s.recover) ⊎ (b.sender.recover ≡ s.maxseq)
  pub init : b.wnd_init_option ≡ option

module _ {R B : Type 0} (e : Setup R B) where
  answer_if :
      (b : Bool) (p : Packet) (a : Sack1 R B)
      → Noted a.sender a.wnd_init_option (if b then answer_echo e p a else a)
  unfolding answer_echo
  answer_if true p a = record {
    highest = refl;
    last = refl;
    dupacks = refl;
    fast = refl;
    frto = refl;
    maxseq = refl;
    recover =
        ecn-recover e.double e.log (settings e a) e.timing (pos_part (window a.sender)) p.tcp.seqno
          (cut_of e a);
    init = refl;
  }
  answer_if false p a = record {
    highest = refl;
    last = refl;
    dupacks = refl;
    fast = refl;
    frto = refl;
    maxseq = refl;
    recover = inl refl;
    init = refl;
  }

  marks_if :
      (b : Bool) (p : Packet) (a : Sack1 R B)
      → let c = (if b then count_marks e p a else a) in
        (c.sender ≡ a.sender) × (c.wnd_init_option ≡ a.wnd_init_option)
  unfolding count_marks
  marks_if true p a = (refl, refl)
  marks_if false p a = (refl, refl)

  pub note_ack-Noted :
      (p : Packet) (a : Sack1 R B) → Noted a.sender a.wnd_init_option (note_ack e p a)
  unfolding note_ack
  note_ack-Noted p a =
      let counted = record a {
        nackpack = a.nackpack + 1;
        dup_case1_count = p.flags.dup_case1_count;
        dup_case2_count = p.flags.dup_case2_count;
      } in
      let marked = (if e.cwnd.dctcp then count_marks e p counted else counted) in
      let (same, init) = marks_if e.cwnd.dctcp p counted in
      let noted = answer_if (ecnecho p && marked.sender.ecn) p marked in
      subst (λ n. Noted a.sender n (note_ack e p a)) init
        (subst (λ s. Noted s marked.wnd_init_option (note_ack e p a)) same noted)

  pub Noted-IsValid :
      {a : Sack1 R B} (b : Sack1 R B)
      → Noted a.sender a.wnd_init_option b
      → IsValid e a
      → IsValid e b × Grows a b
  Noted-IsValid {a} b n v =
      let s = a.sender in
      (
        record {
          sound = record {
            below = le_of_eqs s.last_ack s.highest_ack n.last n.highest v.sound.below;
            sent = le_of_eqs s.highest_ack s.maxseq n.highest n.maxseq v.sound.sent;
            recovering = λ fast. elim (n.recover) [
              | inl same ↦
                  le_of_eqs s.highest_ack s.recover n.highest same
                    (v.sound.recovering (sym n.fast ∙ fast))
              | inr moved ↦ le_of_eqs s.highest_ack s.maxseq n.highest moved v.sound.sent
            ];
            normal = λ slow.
                le_of_eqs s.highest_ack s.last_ack n.highest n.last
                  (v.sound.normal (sym n.fast ∙ slow));
            init = init_of n.init v.sound.init;
          };
          first = λ on two. n.dupacks ∙ v.first on (sym n.frto ∙ two);
        },
        le_of_eqs s.highest_ack s.highest_ack refl n.highest (omega arith),
      )
