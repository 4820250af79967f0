-- ===== src/Sender/Sack.antt =====
-- `send_much` of `class Sack1TcpAgent` (tcp/tcp-sack1.cc), over `output`; the scoreboard is a
-- parameter.
use saps_extended.Base.{
  ℕ, zero, suc, ◌+◌, List, [], ◌++◌, Bool, true, not, ◌&&◌, ◌||◌, Option, none, some, ltb, ◌==◌,
  if◌then◌else◌,
}
use saps_extended.Base.Int.{ℤ, pos, negsuc, ◌+ℤ◌, ltb_ℤ, leb_ℤ, eqb_ℤ}
use saps_extended.Sender.{Sender, Segment, window, output}

-- What the sender uses of `scb_`, the scoreboard: `GetNextRetran`, which gives -1 for none, and
-- `MarkRetran`.
pub record Board (B : Type 0) : Type 0 where
  pub next_retran : B → ℤ
  pub mark_retran : ℤ → B → B

-- output(xmit_seqno, reason), and the counters.
unfoldable pub sack_send : ℕ → ℕ → ℤ → Sender → Sender × List Segment
sack_send now reason x s =
    let (s', out) = output now x reason s in
    (
      record s' {
        t_seqno = if leb_ℤ s'.t_seqno x then x +ℤ pos 1 else s'.t_seqno;
        pipe = s'.pipe +ℤ pos 1;
      },
      out,
    )

-- The test of the loop of `Sack1TcpAgent::send_much`, but for `found`.
abbrev pub sack_may_send : Sender → Bool
sack_may_send s =
    (if s.fastrecov then ltb_ℤ s.pipe (pos s.cwnd) else leb_ℤ s.t_seqno (s.last_ack +ℤ window s))
    && ltb_ℤ (s.last_ack +ℤ pos 1) s.curseq

-- New data may be sent.
abbrev pub within : Sender → Bool
within s =
    if s.fastrecov
    then leb_ℤ s.t_seqno (s.highest_ack +ℤ pos s.wnd)
    else leb_ℤ s.t_seqno (s.highest_ack +ℤ window s)

abbrev pub add_to :
    {B : Type 0} → List Segment → Sender × B × List Segment → Sender × B × List Segment
add_to out (s, b, more) = (s, b, out ++ more)

module _ {B : Type 0} (scb : Board B) where
  open scb use {next_retran, mark_retran}

  -- `xmit_seqno`, and the state before it is sent; `none` if it is not found.
  unfoldable pub sack_choose : Sender → B → Option (ℤ × Sender × B)
  sack_choose s b =
      let x = next_retran b in
      if eqb_ℤ x (negsuc 0)
      then if within s && ltb_ℤ s.t_seqno s.curseq
        then some (s.t_seqno, record s { t_seqno = s.t_seqno +ℤ pos 1 }, b)
        else none
      else if ltb_ℤ (pos 0) s.recover && leb_ℤ x (s.highest_ack +ℤ pos s.wnd)
      then some (x, s, mark_retran x b)
      else none

  -- A round with what has been found, and the further rounds.
  unfoldable pub sack_round :
      ℕ
      → ℕ
      → ℕ
      → ℕ
      → Sender
      → B
      → Option (ℤ × Sender × B)
      → (Sender → B → Sender × B × List Segment)
      → Sender × B × List Segment
  sack_round now reason maxburst sent s b none more = (s, b, [])
  sack_round now reason maxburst sent s b (some (x, s1, b1)) more =
      let (s2, out) = sack_send now reason x s1 in
      if ltb 0 maxburst && (sent + 1 == maxburst) then (s2, b1, out) else add_to out (more s2 b1)

  -- The loop of `Sack1TcpAgent::send_much`, on fuel.
  unfoldable pub sack_many : ℕ → ℕ → Bool → ℕ → ℕ → ℕ → Sender → B → Sender × B × List Segment
  sack_many zero now force reason maxburst sent s b = (s, b, [])
  sack_many (suc fuel) now force reason maxburst sent s b =
      let more = sack_many fuel now force reason maxburst (sent + 1) in
      if sack_may_send s
      then if not s.overhead || force
        then sack_round now reason maxburst sent s b (sack_choose s b) more
        else (record s { delsnd = true }, b, [])
      else (s, b, [])

  unfoldable pub sack_send_much : ℕ → ℕ → Bool → ℕ → ℕ → Sender → B → Sender × B × List Segment
  unfolding sack_many
  sack_send_much fuel now force reason maxburst s b =
      if not force && s.delsnd then (s, b, []) else sack_many fuel now force reason maxburst 0 s b
