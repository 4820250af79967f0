-- ===== src/SackStack/Laws.antt =====
-- The stack as the sequence of its entries: `push` moves every entry down by one, `pop` closes the
-- gap, and what is past the count is unused.
use saps_extended.Base.{
  length-replicate, get_or-replicate, ℕ, zero, suc, ◌+◌, ◌-◌, ◌≤◌, ◌<◌, ◌≡◌, refl, ◌∙◌, List, ltb,
  leb, ◌==◌, ◌&&◌, if◌then◌else◌, arith, get_or, set, length, length-set, get_or-set_self,
  get_or-set_ne,
}
use saps_extended.Base.Int.{pos}
use saps_extended.SackStack.{
  Block, unused, SackStack, new, head, set_head, blank_from, reset, shift_up, push, shift_down, pop,
}

pub record IsStack (s : SackStack) : Type 0 where
  pub sized : length s.sfe ≡ s.size
  pub bounded : s.cnt ≤ s.size
  pub past : (i : ℕ) → s.cnt ≤ i → get_or s.sfe i unused ≡ unused

get_or-set :
    (xs : List Block) (i j : ℕ) (b : Block)
    → i < length xs
    → get_or (set xs i b) j unused ≡ (if i == j then b else get_or xs j unused)
get_or-set xs i j b h =
    ground (arith, get_or-set_self xs i b unused h, get_or-set_ne xs i j b unused)

length-blank_from : (n i : ℕ) (sfe : List Block) → length (blank_from n i sfe) ≡ length sfe
unfolding blank_from
length-blank_from zero i sfe = refl
length-blank_from (suc n) i sfe =
    length-blank_from n (i + 1) (set sfe i unused) ∙ length-set sfe i unused

get_or-blank_from :
    (n i j : ℕ) (sfe : List Block)
    → i + n ≤ length sfe
    → get_or (blank_from n i sfe) j unused
      ≡ (if leb i j && ltb j (i + n) then unused else get_or sfe j unused)
unfolding blank_from
get_or-blank_from zero i j sfe h = ground arith
get_or-blank_from (suc n) i j sfe h = ground (
  arith,
  length-set sfe i unused,
  get_or-blank_from n (i + 1) j (set sfe i unused),
  get_or-set sfe i j unused,
)

length-shift_up : (k n : ℕ) (sfe : List Block) → length (shift_up k n sfe) ≡ length sfe
unfolding shift_up
length-shift_up zero n sfe = refl
length-shift_up (suc k) n sfe =
    length-shift_up k n (set sfe (n + k + 1) (get_or sfe (n + k) unused))
    ∙ length-set sfe (n + k + 1) (get_or sfe (n + k) unused)

-- The entries n+1 … n+k are the old n … n+k-1, and the others are left.
get_or-shift_up :
    (k n j : ℕ) (sfe : List Block)
    → n + k < length sfe
    → get_or (shift_up k n sfe) j unused
      ≡ (if ltb n j && leb j (n + k) then get_or sfe (j - 1) unused else get_or sfe j unused)
unfolding shift_up
get_or-shift_up zero n j sfe h = ground arith
get_or-shift_up (suc k) n j sfe h = ground (
  arith,
  length-set sfe (n + k + 1) (get_or sfe (n + k) unused),
  get_or-shift_up k n j (set sfe (n + k + 1) (get_or sfe (n + k) unused)),
  get_or-set sfe (n + k + 1) j (get_or sfe (n + k) unused),
  get_or-set sfe (n + k + 1) (j - 1) (get_or sfe (n + k) unused),
)

length-shift_down : (k i : ℕ) (sfe : List Block) → length (shift_down k i sfe) ≡ length sfe
unfolding shift_down
length-shift_down zero i sfe = refl
length-shift_down (suc k) i sfe =
    length-shift_down k (i + 1) (set sfe i (get_or sfe (i + 1) unused))
    ∙ length-set sfe i (get_or sfe (i + 1) unused)

get_or-shift_down :
    (k i j : ℕ) (sfe : List Block)
    → i + k < length sfe
    → get_or (shift_down k i sfe) j unused
      ≡ (if leb i j && ltb j (i + k) then get_or sfe (j + 1) unused else get_or sfe j unused)
unfolding shift_down
get_or-shift_down zero i j sfe h = ground arith
get_or-shift_down (suc k) i j sfe h = ground (
  arith,
  length-set sfe i (get_or sfe (i + 1) unused),
  get_or-shift_down k (i + 1) j (set sfe i (get_or sfe (i + 1) unused)),
  get_or-set sfe i j (get_or sfe (i + 1) unused),
  get_or-set sfe i (j + 1) (get_or sfe (i + 1) unused),
)

pub new-IsStack : (sz : ℕ) → IsStack (new sz)
unfolding new head
new-IsStack sz = record {
  sized = length-replicate sz unused;
  bounded = omega arith;
  past = λ i h. get_or-replicate sz i unused;
}

-- For a stack in order: reset leaves a stack in order in which every entry is unused.
pub reset_lem :
    (s : SackStack) → IsStack s → IsStack (reset s) × ((i : ℕ) → head (reset s) i ≡ unused)
unfolding reset head
reset_lem s v = (
  record {
    sized = length-blank_from s.cnt 0 s.sfe ∙ v.sized;
    bounded = omega arith;
    past = λ i h. blank i;
  },
  blank,
)
  where
    blank : (i : ℕ) → get_or (blank_from s.cnt 0 s.sfe) i unused ≡ unused
    blank i = ground (arith, v.sized, v.bounded, get_or-blank_from s.cnt 0 i s.sfe, v.past i)

-- The stack after `push` and a store to its head.
abbrev pub push_front : SackStack → Block → SackStack
push_front s b = set_head (push s) b

module _ (s : SackStack) (v : IsStack s) (h : 0 < s.size) where
  -- how many entries `push` moves
  moved : ℕ
  moved = if leb s.size s.cnt then s.size - 1 else s.cnt

  moved_lt : moved < length s.sfe
  unfolding moved
  moved_lt = ground (arith, v.sized, v.bounded)

  get_or-moved :
      (i : ℕ)
      → get_or (shift_up moved 0 s.sfe) i unused
        ≡ (if ltb 0 i && ltb i s.size then get_or s.sfe (i - 1) unused else get_or s.sfe i unused)
  unfolding moved head
  get_or-moved i = ground (
    arith,
    v.sized,
    v.bounded,
    get_or-shift_up moved 0 i s.sfe (omega (arith, moved_lt)),
    v.past i,
    v.past (i - 1),
  )

  get_or-push_front :
      (b : Block) (i : ℕ)
      → get_or (push_front s b).sfe i unused
        ≡ (if i == 0 then b else if ltb i s.size then get_or s.sfe (i - 1) unused else unused)
  unfolding push set_head moved
  get_or-push_front b i = ground (
    arith,
    v.sized,
    v.bounded,
    v.past i,
    get_or-moved i,
    length-shift_up moved 0 s.sfe,
    get_or-set (shift_up moved 0 s.sfe) 0 i b,
  )

  -- For a stack in order with at least one entry: push and the store into the head put a block in
  -- front and shift the others by one, where the oldest of a full stack is dropped, and the stack
  -- stays in order.
  pub push_front_lem :
      (b : Block)
      → IsStack (push_front s b)
        × ((i : ℕ)
            → head (push_front s b) i
              ≡ (if i == 0 then b else if ltb i s.size then head s (i - 1) else unused))
  unfolding head push set_head moved
  push_front_lem b = (
    record {
      sized = length-set (shift_up moved 0 s.sfe) 0 b ∙ length-shift_up moved 0 s.sfe ∙ v.sized;
      bounded = ground (arith, v.bounded);
      past = λ i p. ground (arith, v.bounded, v.past (i - 1), get_or-push_front b i);
    },
    get_or-push_front b,
  )

module _ (s : SackStack) (k : ℕ) (v : IsStack s) (h : k < s.cnt) where
  get_or-pop :
      (i : ℕ)
      → get_or (pop s k).sfe i unused
        ≡ (if ltb i k then get_or s.sfe i unused else get_or s.sfe (i + 1) unused)
  unfolding pop
  get_or-pop i = ground (
    arith,
    v.sized,
    v.bounded,
    v.past i,
    v.past (i + 1),
    length-shift_down (s.cnt - 1 - k) k s.sfe,
    get_or-shift_down (s.cnt - 1 - k) k i s.sfe (omega (arith, v.sized, v.bounded)),
    get_or-set (shift_down (s.cnt - 1 - k) k s.sfe) (k + (s.cnt - 1 - k)) i unused,
  )

  -- For a stack in order and an index in use: pop takes the block at the index out and closes the
  -- gap, and the stack stays in order.
  pub pop_lem :
      IsStack (pop s k)
      × ((i : ℕ) → head (pop s k) i ≡ (if ltb i k then head s i else head s (i + 1)))
  unfolding pop head
  pop_lem = (
    record {
      sized =
          length-set (shift_down (s.cnt - 1 - k) k s.sfe) (k + (s.cnt - 1 - k)) unused
          ∙ (length-shift_down (s.cnt - 1 - k) k s.sfe ∙ v.sized);
      bounded = omega (arith, v.bounded);
      past = λ i p. ground (arith, v.past (i + 1), get_or-pop i);
    },
    get_or-pop,
  )

pub size-pop : (s : SackStack) (k : ℕ) → ((pop s k).size ≡ s.size) × ((pop s k).cnt ≡ s.cnt - 1)
unfolding pop
size-pop s k = (refl, refl)

-- A block with a non-negative edge is in use.
pub in_use : (s : SackStack) (k n : ℕ) → IsStack s → (head s k).left ≡ pos n → k < s.cnt
unfolding head
in_use s k n v e = ground (arith, v.past k)

pub size-new : (n : ℕ) → (new n).size ≡ n
unfolding new
size-new n = refl

pub size-reset : (s : SackStack) → (reset s).size ≡ s.size
unfolding reset
size-reset s = refl

pub size-push_front : (s : SackStack) (b : Block) → (push_front s b).size ≡ s.size
unfolding push set_head
size-push_front s b = refl
