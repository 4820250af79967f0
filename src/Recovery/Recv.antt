-- ===== src/Recovery/Recv.antt =====
-- `recv` of `class Sack1TcpAgent` (tcp/tcp-sack1.cc), with `initial_window` of tcp/tcp.cc: what an
-- acknowledgement does, and the segments that it sends, in order.
use saps_extended.Base.{
  ℕ, ◌+◌, ◌==◌, List, [], Bool, true, false, not, ◌&&◌, ◌||◌, Option, none, some, ltb, leb,
  if◌then◌else◌,
}
use saps_extended.Base.Int.{pos, ◌+ℤ◌, ◌-ℤ◌, ltb_ℤ, leb_ℤ, eqb_ℤ, pos_part}
use saps_extended.Packet.{Packet}
use saps_extended.Cwnd.{ecn}
use saps_extended.Dctcp.{Double, update_dctcp_alpha}
use saps_extended.Sender.{Segment, window, send_one}
use saps_extended.Sacked.{is_sacked}
use saps_extended.Recovery.{
  Setup, Sack1, put_sender, ecnecho, cut_of, put_cut, settings, set_cwnd, new_timer, much,
}
use saps_extended.Recovery.Newack.{newack, end_backoff, recv_newack_helper, spurious_timeout, close}
use saps_extended.Recovery.Loss.{after, num_dupacks, set_pipe, dupack_action, partial_ack_action}

module _ {R B : Type 0} (e : Setup R B) where
  abbrev pub update_board : Packet → Sack1 R B → Sack1 R B
  update_board p a = record a {
    board = e.scb.update a.sender.highest_ack p.tcp.sa_length p.tcp.sack_area a.board;
  }

  -- timeout_ = FALSE; scb_->ClearScoreBoard();
  abbrev pub clear_loss : Sack1 R B → Sack1 R B
  clear_loss a = record a { timeout = false; board = e.scb.clear a.board }

  -- `initial_window`
  abbrev pub initial_window : Sack1 R B → Option R
  initial_window a =
      if a.wnd_init_option == 1
      then some a.wnd_init
      else if a.wnd_init_option == 2
      then if leb a.sender.size 1095
        then some (e.double.num 4 1)
        else if ltb a.sender.size 2190
        then some (e.double.num 3 1)
        else some (e.double.num 2 1)
      else none

  abbrev pub put_window : Sack1 R B → Option R → Option (Sack1 R B)
  put_window a none = none
  put_window a (some x) = some (set_cwnd e x a)

  abbrev pub after_new : Option (Sack1 R B) → Option (Sack1 R B)
  after_new none = none
  after_new (some a) =
      let cleared = clear_loss a in
      if eqb_ℤ a.sender.last_ack (pos 0) && e.delay_growth
      then put_window cleared (initial_window cleared)
      else some cleared

  -- A new acknowledgement, outside of fast recovery.
  unfoldable pub new_normal : ℕ → Packet → Sack1 R B → Option (Sack1 R B)
  new_normal now p a = after_new (recv_newack_helper e now p (record a { firstpartial = false }))

  -- A duplicate is counted.
  unfoldable pub count_duplicate : ℕ → Sack1 R B → Sack1 R B × List Segment
  count_duplicate now a =
      let more = record a { sender = record a.sender { dupacks = a.sender.dupacks + 1 } } in
      if more.sender.dupacks == num_dupacks e more
      then dupack_action e now more
      else if ltb more.sender.dupacks (num_dupacks e more) && e.singledup
      then put_sender e more (send_one now more.sender)
      else (more, [])

  -- The second step of F-RTO with SACK.
  unfoldable pub sfrto_step : Packet → Sack1 R B → Sack1 R B
  sfrto_step p a =
      let s = a.sender in
      if e.sfrto_enabled && (s.frto == 2)
      then if e.scb.is_changed a.board
          && not (is_sacked p.tcp.sa_length p.tcp.sack_area s.recover s.maxseq)
        then spurious_timeout e a
        else (let back = set_cwnd e (e.double.of_int s.frto) a in
            record back {
              sender = record back.sender {
                t_seqno = s.highest_ack +ℤ pos 1;
                frto = 0;
                dupacks = 0;
              };
            })
      else a

  abbrev pub then_sfrto : Packet → Sack1 R B × List Segment → Sack1 R B × List Segment
  then_sfrto p (a, out) = (sfrto_step p a, out)

  -- A duplicate, outside of fast recovery.
  unfoldable pub duplicate : ℕ → Packet → Sack1 R B → Sack1 R B × List Segment
  duplicate now p a =
      let updated = update_board p a in
      then_sfrto p
        (if e.scb.check_update updated.board then count_duplicate now updated else (updated, []))

  -- send_much(FALSE, 0, maxburst_), if the acknowledgement is valid.
  abbrev pub send_if : Bool → ℕ → Sack1 R B × List Segment → Sack1 R B × List Segment
  send_if true now (a, out) = after out (much e now false 0 a)
  send_if false now (a, out) = (a, out)

  abbrev pub send_normal : Bool → ℕ → Sack1 R B × List Segment → Sack1 R B × List Segment
  send_normal valid now (a, out) =
      send_if ((valid || e.aggressive_maxburst) && (a.sender.dupacks == 0)) now (a, out)

  abbrev pub send_new : Bool → ℕ → Option (Sack1 R B) → Option (Sack1 R B × List Segment)
  send_new valid now none = none
  send_new valid now (some a) = some (send_normal valid now (a, []))

  -- `recv`, outside of fast recovery.
  unfoldable pub recv_normal : Bool → ℕ → Packet → Sack1 R B → Option (Sack1 R B × List Segment)
  recv_normal valid now p a =
      if ltb_ℤ a.sender.last_ack p.tcp.seqno
      then send_new valid now (new_normal now p a)
      else if not (ltb_ℤ p.tcp.seqno a.sender.last_ack) && not a.timeout
      then some (send_normal valid now (duplicate now p a))
      else some (send_normal valid now (a, []))

  -- The acknowledgement ends fast recovery.
  unfoldable pub end_recovery : ℕ → Packet → Sack1 R B → Sack1 R B
  end_recovery now p a =
      let over = record a { sender = record a.sender { recover = pos 0; fastrecov = false } } in
      clear_loss (close e (newack e now p over))

  -- A partial acknowledgement.
  unfoldable pub partial : ℕ → Packet → Sack1 R B → Sack1 R B × List Segment
  partial now p a =
      let s = a.sender in
      let high = update_board p (record a { sender = record s { highest_ack = p.tcp.seqno } }) in
      let (a1, out) = partial_ack_action e now high in
      let more = set_pipe (a1.sender.pipe +ℤ pos 1) a1 in
      let timed = end_backoff e (new_timer e now p.tcp.seqno more) in
      if e.partial_ack
      then (if more.firstpartial then more else record timed { firstpartial = true }, out)
      else (
        end_backoff e (new_timer e now p.tcp.seqno (set_pipe (high.sender.pipe -ℤ pos 1) high)),
        [],
      )

  -- One more duplicate.
  unfoldable pub another : Packet → Sack1 R B → Sack1 R B
  another p a =
      let updated = update_board p a in
      let s = a.sender in
      if e.scb.check_update updated.board && ltb 0 s.dupacks
      then record updated { sender = record s { dupacks = s.dupacks + 1 } }
      else updated

  -- `recv`, in fast recovery.
  unfoldable pub recv_recovery : Bool → ℕ → Packet → Sack1 R B → Sack1 R B × List Segment
  recv_recovery valid now p a =
      let less = set_pipe (a.sender.pipe -ℤ pos 1) a in
      send_if (valid || e.aggressive_maxburst) now (
        if leb_ℤ a.sender.recover p.tcp.seqno
        then (end_recovery now p less, [])
        else if ltb_ℤ a.sender.highest_ack p.tcp.seqno
        then partial now p less
        else if not a.timeout
        then (another p less, [])
        else (less, []))

  abbrev pub doubles : Double R
  doubles =
      let d = e.double in
      record {
        of_int = d.of_int;
        one = d.num 1 1;
        nought = d.num 0 1;
        add = d.add;
        sub = d.sub;
        mul = d.mul;
        over = d.over;
        gt = λ a b. d.lt b a;
      }

  -- `update_dctcp_alpha`
  unfoldable pub count_marks : Packet → Sack1 R B → Sack1 R B
  count_marks p a =
      let counts =
        update_dctcp_alpha doubles e.dctcp_g (record a.counts { maxseq = a.sender.dctcp_maxseq })
          (record {
            ecnecho = ecnecho p;
            seqno = p.tcp.seqno;
            highest_ack = a.sender.highest_ack;
          }) in
      record a { counts = counts; cut = record a.cut { dctcp_alpha = counts.alpha } }

  -- A call of `ecn`.
  unfoldable pub answer_echo : Packet → Sack1 R B → Sack1 R B
  answer_echo p a = put_cut e a (
      ecn e.double e.log (settings e a) e.timing (pos_part (window a.sender)) p.tcp.seqno
        (cut_of e a))

  -- What `recv` does first with every acknowledgement.
  unfoldable pub note_ack : Packet → Sack1 R B → Sack1 R B
  note_ack p a =
      let counted = record a {
        nackpack = a.nackpack + 1;
        dup_case1_count = p.flags.dup_case1_count;
        dup_case2_count = p.flags.dup_case2_count;
      } in
      let marked = (if e.cwnd.dctcp then count_marks p counted else counted) in
      if ecnecho p && marked.sender.ecn then answer_echo p marked else marked

  -- `recv`
  unfoldable pub recv : ℕ → Packet → Sack1 R B → Option (Sack1 R B × List Segment)
  recv now p a =
      let noted = note_ack p a in
      let valid = leb_ℤ noted.sender.last_ack p.tcp.seqno in
      if ltb p.tcp.ts e.lastreset
      then some (a, [])
      else if noted.sender.fastrecov
      then some (recv_recovery valid now p noted)
      else recv_normal valid now p noted
