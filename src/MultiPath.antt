-- ===== src/MultiPath.antt =====
-- `class MultiPathForwarder` of classifier/classifier-mpath.cc: which of the equal-cost links a
-- switch sends a packet on.
-- The table `slot_` belongs to the base class, which is not part of the repository: a model has
-- `maxslot_` and, for every index, whether `slot_[i]` is set. Slot numbers, link numbers and
-- header fields are not negative. `unsigned int` has 32 bits, `char` is signed.
pub mod Rotate
pub mod Live
mod Tests
pub mod Ecmp
pub mod Failures
use saps_extended.Base.{
  ℕ, zero, suc, ◌+◌, ◌-◌, ◌*◌, ◌/◌, ◌%◌, ◌^◌, List, [], ◌∷◌, ◌++◌, Bool, true, false, not, ◌&&◌,
  ◌||◌, Option, none, some, ltb, leb, ◌==◌, if◌then◌else◌,
}

-- The members that are bound from Tcl, and the table.
pub record Config : Type 0 where
  pub perflow : ℕ
  pub packet_spraying : Bool
  pub flowcell_spraying : Bool
  pub selective_spraying : Bool
  pub k : ℕ
  pub failure_case : ℕ
  pub maxslot : ℕ
  pub slot : ℕ → Bool

-- The header fields that `classify` reads, and the two of `hdr_flags` that it writes.
pub record Header : Type 0 where
  pub link_id : ℕ
  pub failure_detected : Bool
  pub is_elephant : Bool
  pub visited_tor : ℕ
  pub agg_decision : ℕ
  pub is_tcp : Bool
  pub sport : ℕ
  pub dport : ℕ
  pub src : ℕ
  pub dst : ℕ
  pub flowid : ℕ
  pub ttl : ℕ

-- What a call returns and leaves behind: the slot, `ns_` and the header.
pub record Choice : Type 0 where
  pub cl : ℕ
  pub ns : ℕ
  pub header : Header

-- `HashString`: a byte as a signed `char`, converted to `unsigned int`.
abbrev pub char_value : ℕ → ℕ
char_value b = if ltb b 128 then b else 2 ^ 32 - 256 + b

pub hash_from : ℕ → List ℕ → ℕ
hash_from result [] = result
hash_from result (b ∷ bytes) = hash_from ((result + (result * 8 + char_value b)) % 2 ^ 32) bytes

pub hash_string : List ℕ → ℕ
hash_string = hash_from 0

-- A 32-bit word in memory, lowest byte first.
abbrev pub word_bytes : ℕ → List ℕ
word_bytes w = (w % 256) ∷ (w / 2 ^ 8 % 256) ∷ (w / 2 ^ 16 % 256) ∷ (w / 2 ^ 24 % 256) ∷ []

-- `struct hkey`. The member `ttl` is set for FlowBender only; otherwise it holds what was on the
-- stack, `stale`. `src` and `dst` are the addresses after `mshift`.
unfoldable pub key_bytes : Header → ℕ → List ℕ
key_bytes h ttl =
    word_bytes h.sport
    ++ (word_bytes h.dport
        ++ (word_bytes h.src ++ (word_bytes h.dst ++ (word_bytes h.flowid ++ word_bytes ttl))))

module _ (c : Config) where
  -- maxslot_ + 1
  abbrev pub slots : ℕ
  slots = c.maxslot + 1

  -- `do { cl = ns_++; ns_ %= (maxslot_ + 1); } while (slot_[cl] == 0 && ns_ != fail);` on fuel
  pub spray : ℕ → ℕ → ℕ → ℕ × ℕ
  spray zero ns fail = (ns, ns)
  spray (suc fuel) ns fail =
      let rest = spray fuel ((ns + 1) % slots) fail in
      if not (c.slot ns) && not ((ns + 1) % slots == fail) then rest else (ns, (ns + 1) % slots)

  -- `while (slot_[cl] == 0 && ns_ != fail) { cl = ns_++; ns_ %= (maxslot_ + 1); }` on fuel
  pub search_from : ℕ → ℕ → ℕ → ℕ → ℕ × ℕ
  search_from zero cl ns fail = (cl, ns)
  search_from (suc fuel) cl ns fail =
      let rest = search_from fuel ns ((ns + 1) % slots) fail in
      if not (c.slot cl) && not (ns == fail) then rest else (cl, ns)

  -- `while (slot_[cl] == 0) cl = (cl+1) % (maxslot_ + 1);` on fuel; `none` if the fuel runs out
  unfoldable pub probe : ℕ → ℕ → Option ℕ
  probe zero cl = none
  probe (suc fuel) cl =
      let rest = probe fuel ((cl + 1) % slots) in if c.slot cl then some cl else rest

  -- The branch of selective spraying. No search takes more than `slots` rounds.
  pub selective : Header → ℕ × ℕ
  selective h =
      let fail = (if h.link_id == 0 then c.maxslot else h.link_id - 1) in
      search_from (slots + 1) h.link_id h.link_id fail

  -- The branch of flowcell spraying for a full failure.
  pub flowcell_full : Header → ℕ × ℕ
  flowcell_full h = search_from (slots + 1) h.link_id (h.link_id + 1) h.link_id

  -- `ms_` as it comes from `HashString`.
  pub ecmp_hash : Header → ℕ → ℕ
  ecmp_hash h stale =
      hash_string (key_bytes h (if c.perflow == 2 && h.is_tcp then h.ttl else stale))

  -- `ms_` as it is in the end, with the header that it leaves.
  pub ecmp_slot : Header → ℕ → ℕ × Header
  ecmp_slot h ms =
      if c.perflow == 0 && not (c.k == 0)
      then if h.visited_tor == 1
        then (h.agg_decision, record h { visited_tor = 0 })
        else (ms % c.k % slots, record h { visited_tor = 1; agg_decision = ms % c.k / slots })
      else (ms % slots, h)

  -- The slot that a probe has found, if it ends.
  abbrev pub found : ℕ → Header → Option ℕ → Option Choice
  found ns h none = none
  found ns h (some cl) = some (record { cl = cl; ns = ns; header = h })

  -- `classify`. `stale` is an uninitialised `ttl`, `unset` an uninitialised `cl`; `none` says that
  -- a probe does not end within one round over the table.
  pub classify : ℕ → Header → ℕ → ℕ → Option Choice
  classify ns h stale unset =
      let ecmp = ecmp_slot h (ecmp_hash h stale) in
      let picked : ℕ × ℕ → Option Choice = λ r. some (record { cl = r.0; ns = r.1; header = h }) in
      if c.packet_spraying
      then if c.selective_spraying && h.failure_detected
        then picked (selective h)
        else picked (spray slots ns ns)
      else if c.flowcell_spraying
      then if c.failure_case == 2
        then picked (flowcell_full h)
        else found h.link_id h (probe slots h.link_id)
      else if not (c.perflow == 0) || (not c.packet_spraying && not h.is_elephant)
      then found ns ecmp.1 (probe slots ecmp.0)
      else picked (unset, ns)
