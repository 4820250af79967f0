-- ===== src/Acker/History.antt =====
-- A whole history of packets, in any order and with repetitions: what `update` has handed to the
-- application, and what `Seqno()` says.
use mathlib.Core.Path.{fun_ext}
use native.Mathlib.Nat.{zero-add, add-zero, suc-add}
use saps_extended.Base.{
  ℕ, zero, suc, ◌+◌, ◌≤◌, ◌<◌, ◌≡◌, refl, ◌∙◌, ap, subst, Bool, true, false, ◌||◌, ◌==◌, arith,
  if◌then◌else◌, List, [], ◌∷◌,
}
use saps_extended.Base.Circular.{read-replicate}
use saps_extended.Base.Int.{pos}
use saps_extended.Acker.{Acker, new, slot, mws, update}
use saps_extended.Acker.Deliver.{sum_range, sum_range-ext}
use saps_extended.Acker.Update.{update-Updated}
use saps_extended.Acker.Refine.{IsValid, new-IsValid, held, held-next, arrive, Updated}

-- Packet `i` has come.
abbrev pub contains : ℕ → List ℕ → Bool
contains i [] = false
contains i (s ∷ seqs) = i == s || contains i seqs

sum_range-append :
    (f : ℕ → ℕ) (n k m : ℕ) → sum_range f n (k + m) ≡ sum_range f n k + sum_range f (n + k) m
sum_range-append f n zero m = simp (zero-add, add-zero)
sum_range-append f n (suc k) m = omega (
  arith,
  ap (sum_range f n) (suc-add k m),
  sum_range-append f (n + 1) k m,
  ap (λ i. sum_range f i m) (let e : n + suc k ≡ n + 1 + k = omega arith in e),
)

module _ (size : ℕ → ℕ) where
  -- The packets come one after the other, packet `i` with `size i` bytes: the window at the end
  -- and all the bytes that were handed over.
  pub receive : Acker → List ℕ → ℕ → Acker × ℕ
  receive a [] total = (a, total)
  receive a (s ∷ seqs) total =
      let (a', n) = update a (pos s) (size s) in receive a' seqs (total + n)

  -- `got` says which packets have come.
  record IsHistory (got : ℕ → Bool) (a : Acker) (total : ℕ) : Type 0 where
    valid : IsValid a
    bytes : total ≡ sum_range size 0 a.next
    below : (i : ℕ) → i < a.next → got i ≡ true
    above : (i : ℕ) → a.next ≤ i → held a i ≡ (if got i then size i else 0)

  arrive_history :
      (got : ℕ → Bool) (a : Acker) (total s i : ℕ)
      → IsHistory got a total
      → a.next ≤ i
      → arrive (held a) a.next s (size s) i ≡ (if i == s || got i then size i else 0)
  arrive_history got a total s i h p = ground (arith, h.above i p)

  module _ (pos_size : (i : ℕ) → 0 < size i) (got : ℕ → Bool) (a : Acker) (total s : ℕ)
      (h : IsHistory got a total) (r : Acker × ℕ) (u : Updated a s (size s) r) where
    taken_size : (i : ℕ) → a.next ≤ i → i < a.next + u.taken.count → (i == s || got i) ≡ true
    taken_size i p q = ground (arith, u.taken.full i p q, arrive_history got a total s i h p)

    Updated-bytes : total + r.1 ≡ sum_range size 0 r.0.next
    Updated-bytes = omega (
      arith,
      h.bytes,
      u.taken.sum,
      sum_range-ext (arrive (held a) a.next s (size s)) size a.next u.taken.count
          (λ i p q. ground (arith, taken_size i p q, arrive_history got a total s i h p)),
      sum_range-append size 0 a.next u.taken.count,
      ap (λ i. sum_range size i u.taken.count) (zero-add a.next),
      ap (sum_range size 0) u.taken.edge,
    )

    Updated-IsHistory : IsHistory (λ i. i == s || got i) r.0 (total + r.1)
    Updated-IsHistory = record {
      valid = u.valid;
      bytes = Updated-bytes;
      below = λ i k. ground (arith, h.below i, u.taken.edge, taken_size i);
      above = λ i k. u.kept i k ∙ arrive_history got a total s i h (omega (arith, u.taken.edge));
    }

  regroup :
      (s : ℕ) (seqs : List ℕ) (got : ℕ → Bool) (i : ℕ)
      → (contains i seqs || (i == s || got i)) ≡ ((i == s || contains i seqs) || got i)
  regroup s seqs got i = ground arith

  receive-IsHistory :
      ((i : ℕ) → 0 < size i)
      → (seqs : List ℕ) (got : ℕ → Bool) (a : Acker) (total : ℕ) → IsHistory got a total
      → let r = receive a seqs total in IsHistory (λ i. contains i seqs || got i) r.0 r.1
  unfolding receive
  receive-IsHistory p [] got a total h = h
  receive-IsHistory p (s ∷ seqs) got a total h =
      let (a', n) = update a (pos s) (size s) in
      subst (λ g. let r = receive a' seqs (total + n) in IsHistory g r.0 r.1)
        (fun_ext (regroup s seqs got))
        (receive-IsHistory p seqs (λ i. i == s || got i) a' (total + n)
          (Updated-IsHistory p got a total s h (update a (pos s) (size s))
            (update-Updated a s (size s) h.valid)))

  new-IsHistory : IsHistory (λ _. false) new 0
  unfolding new held slot
  new-IsHistory = record {
    valid = unfold new slot in new-IsValid;
    bytes = refl;
    below = λ i k. absurd (omega arith);
    above = λ i k. ground (arith, read-replicate mws 63 i);
  }

  -- From a new window on, whatever packets come, in any order and however often, if each has at
  -- least one byte: the bytes handed over are those of the packets below the left edge, each
  -- once; all of these have come, and the packet at the left edge has not. What is held are the
  -- sizes of the packets above it that have come.
  pub receive-new :
      (seqs : List ℕ)
      → ((i : ℕ) → 0 < size i)
      → let (a, total) = receive new seqs 0 in
        (total ≡ sum_range size 0 a.next)
        × ((i : ℕ) → i < a.next → contains i seqs ≡ true)
        × (contains a.next seqs ≡ false)
        × ((i : ℕ) → a.next ≤ i → held a i ≡ (if contains i seqs then size i else 0))
  receive-new seqs p =
      let h = receive-IsHistory p seqs (λ _. false) new 0 new-IsHistory in
      (
        h.bytes,
        λ i k. ground (arith, h.below i k),
        ground (
          arith,
          h.above (receive new seqs 0).0.next (omega arith),
          held-next (receive new seqs 0).0 h.valid,
          p (receive new seqs 0).0.next,
        ),
        λ i k. ground (arith, h.above i k),
      )
