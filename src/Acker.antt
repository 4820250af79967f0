-- ===== src/Acker.antt =====
-- `class Acker` of tcp/tcp-sink.h and tcp/tcp-sink.cc: the receive window of a sink.
-- A packet number is a C++ `int`; those kept in the window are not negative, so they are
-- natural numbers, and the number of an arriving segment is an integer. Times are natural
-- numbers of clock ticks: the code only compares and copies them.
pub mod Window
pub mod Grow
pub mod Deliver
pub mod Refine
pub mod Update
pub mod History
pub mod Frame
mod Tests
use saps_extended.Base.{
  ℕ, zero, suc, ◌+◌, ◌-◌, ◌*◌, List, Bool, true, false, not, ◌&&◌, ◌||◌, ltb, leb, ◌==◌,
  if◌then◌else◌, replicate,
}
use saps_extended.Base.Circular.{read, write}
use saps_extended.Base.Int.{ℤ, pos, negsuc, sub_ℕ, ◌+ℤ◌, leb_ℤ, eqb_ℤ}

-- MWS and MWM
abbrev pub mws : ℕ
mws = 64

abbrev pub mwm : ℕ
mwm = mws - 1

pub record Acker : Type 0 where
  pub next : ℕ
  pub maxseen : ℕ
  pub wndmask : ℕ
  pub ecn_unacked : ℕ
  pub seen : List ℕ
  pub ts_to_echo : ℕ
  pub is_dup : Bool
  pub last_ack_sent : ℤ

-- The constructor. It leaves `is_dup_` unset; `update` writes it before anything reads it.
unfoldable pub new : Acker
new = record {
  next = 0;
  maxseen = 0;
  wndmask = mwm;
  ecn_unacked = 0;
  seen = replicate mws 0;
  ts_to_echo = 0;
  is_dup = false;
  last_ack_sent = pos 0;
}

unfoldable pub reset : Acker → Acker
reset a = record a { next = 0; maxseen = 0; seen = replicate (a.wndmask + 1) 0 }

-- `Seqno()`, the cumulative acknowledgement; -1 before packet 0 has come.
unfoldable pub seqno : Acker → ℤ
seqno a = sub_ℕ a.next 1

-- `seen_[i & wndmask_]`
unfoldable pub slot : Acker → ℕ → ℕ
slot a i = read a.seen a.wndmask i

-- `for (i = i; …; i++) new_seen[i & new_wndmask] = seen_[i & wndmask_];` with `n` rounds left
pub copy_slots : ℕ → ℕ → List ℕ → ℕ → ℕ → List ℕ → List ℕ
copy_slots zero i seen wndmask new_wndmask new_seen = new_seen
copy_slots (suc n) i seen wndmask new_wndmask new_seen =
    copy_slots n (i + 1) seen wndmask new_wndmask
      (write new_seen new_wndmask i (read seen wndmask i))

-- The loop runs from `next_` up to and with `maxseen_ + 1`. Allocation does not fail.
pub resize_buffers : Acker → ℕ → Acker
resize_buffers a sz = record a {
  seen = copy_slots (a.maxseen + 2 - a.next) a.next a.seen a.wndmask (sz - 1) (replicate sz 0);
  wndmask = sz - 1;
}

pub update_ts : Acker → ℤ → ℕ → Bool → Acker
update_ts a seq ts rfc1323 =
    if rfc1323 && eqb_ℤ seq (a.last_ack_sent +ℤ pos 1)
    then record a { ts_to_echo = ts }
    else if leb a.ts_to_echo ts && leb_ℤ seq (a.last_ack_sent +ℤ pos 1)
    then record a { ts_to_echo = ts }
    else a

unfoldable pub update_ecn_unacked : Acker → ℕ → Acker
update_ecn_unacked a value = record a { ecn_unacked = value }

-- `while (seq + 1 - next_ >= wndmask_) resize_buffers((wndmask_+1)*2);` on fuel
pub grow : ℕ → Acker → ℕ → Acker
grow zero a seq = a
grow (suc fuel) a seq =
    let rest = grow fuel (resize_buffers a ((a.wndmask + 1) * 2)) seq in
    if leb (a.next + a.wndmask) (seq + 1) then rest else a

-- `for (i = i; i < seq; ++i) seen_[i & wndmask_] = 0;` with `n` rounds left
pub clear_slots : ℕ → ℕ → ℕ → List ℕ → List ℕ
clear_slots zero i wndmask seen = seen
clear_slots (suc n) i wndmask seen = clear_slots n (i + 1) wndmask (write seen wndmask i 0)

-- The block of `update` for a packet above all that were seen.
pub extend : Acker → ℕ → ℕ → Acker
extend a seq bytes =
    let cleared = clear_slots (seq - (a.maxseen + 1)) (a.maxseen + 1) a.wndmask a.seen in
    record a {
      maxseen = seq;
      seen = write (write cleared a.wndmask seq bytes) a.wndmask (seq + 1) 0;
    }

-- `while (seen_[next & wndmask_]) { numToDeliver += seen_[next & wndmask_]; ++next; }` on fuel:
-- the number of bytes and the new left edge
pub collect : ℕ → Acker → ℕ → ℕ → ℕ × ℕ
collect zero a next total = (total, next)
collect (suc fuel) a next total =
    let rest = collect fuel a (next + 1) (total + slot a next) in
    if slot a next == 0 then (total, next) else rest

-- The block of `update` for a packet inside the window; `fresh` is `just_marked_as_seen`.
pub accept : Acker → ℕ → ℕ → Bool → Acker × ℕ
accept a seq bytes fresh =
    let dup = not (slot a seq == 0) && not fresh in
    let marked = record a { seen = write a.seen a.wndmask seq bytes; is_dup = a.is_dup || dup } in
    let (total, next') = collect (a.maxseen + 2 - a.next) marked a.next 0 in
    (record marked { next = next' }, total)

-- The end of `update`, from `int next = next_` on; `fresh` is `just_marked_as_seen`.
pub place : Acker → ℕ → ℕ → Bool → Acker × ℕ
place a seq bytes fresh =
    if ltb seq a.next
    then (record a { is_dup = true }, 0)
    else if leb seq a.maxseen
    then accept a seq bytes fresh
    else (a, 0)

-- `update` for a packet number that is not negative.
pub update_at : Acker → ℕ → ℕ → Acker × ℕ
update_at a seq bytes =
    let grown = grow (seq + 2) (record a { is_dup = false }) seq in
    if ltb grown.maxseen seq
    then place (extend grown seq bytes) seq bytes true
    else place grown seq bytes false

-- `update`: the new window and the number of bytes for the application. A negative number is
-- below every bound that the code tests, and so a duplicate.
unfoldable pub update : Acker → ℤ → ℕ → Acker × ℕ
unfolding update_at place accept collect extend clear_slots grow resize_buffers copy_slots slot read
    write
update a (pos seq) bytes = update_at a seq bytes
update a (negsuc k) bytes = (record a { is_dup = true }, 0)
