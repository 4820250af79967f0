-- ===== src/SackStack.antt =====
-- `class SackStack` of tcp/tcp-sink.cc: the recent SACK blocks of a receiver, newest first, in an
-- array of fixed size.
pub mod Laws
mod Tests
use saps_extended.Base.{
  ℕ, zero, suc, ◌+◌, ◌-◌, List, ltb, leb, if◌then◌else◌, get_or, set, replicate,
}
use saps_extended.Base.Int.{ℤ, negsuc}

-- `Sf_Entry`, and a row of `sack_area_`
pub record Block : Type 0 where
  pub left : ℤ
  pub right : ℤ

-- left_ = right_ = -1
abbrev pub unused : Block
unused = record { left = negsuc 0; right = negsuc 0 }

pub record SackStack : Type 0 where
  pub size : ℕ
  pub cnt : ℕ
  pub sfe : List Block

unfoldable pub new : ℕ → SackStack
new sz = record { size = sz; cnt = 0; sfe = replicate sz unused }

-- `head_left(n)` and `head_right(n)`
unfoldable pub head : SackStack → ℕ → Block
head s n = get_or s.sfe n unused

-- `head_left() = left; head_right() = right;`
unfoldable pub set_head : SackStack → Block → SackStack
set_head s b = record s { sfe = set s.sfe 0 b }

-- `for (…; i < cnt_; i++) SFE_[i].left_ = SFE_[i].right_ = -1;` with `n` rounds left
pub blank_from : ℕ → ℕ → List Block → List Block
blank_from zero i sfe = sfe
blank_from (suc n) i sfe = blank_from n (i + 1) (set sfe i unused)

pub reset : SackStack → SackStack
reset s = record s { sfe = blank_from s.cnt 0 s.sfe; cnt = 0 }

-- `for (…; i >= n; i--) SFE_[i+1] = SFE_[i];` for the `k` entries from `n` on
pub shift_up : ℕ → ℕ → List Block → List Block
shift_up zero n sfe = sfe
shift_up (suc k) n sfe = shift_up k n (set sfe (n + k + 1) (get_or sfe (n + k) unused))

-- `push()`, at n = 0. The overflow check `cnt_ = size_ - 1` and `cnt_++` are taken together, so
-- that the count stays a natural number for the stack of size 0 too.
unfoldable pub push : SackStack → SackStack
push s =
    let full = leb s.size s.cnt in
    record s {
      sfe = shift_up (if full then s.size - 1 else s.cnt) 0 s.sfe;
      cnt = if full then s.size else s.cnt + 1;
    }

-- `for (…; i < cnt_-1; i++) SFE_[i] = SFE_[i+1];` with `k` rounds left
pub shift_down : ℕ → ℕ → List Block → List Block
shift_down zero i sfe = sfe
shift_down (suc k) i sfe = shift_down k (i + 1) (set sfe i (get_or sfe (i + 1) unused))

-- `pop(n)`, which is called for an entry in use, n < cnt_ only: the loop ends at cnt_ - 1.
pub pop : SackStack → ℕ → SackStack
pop s n = record s {
  sfe = set (shift_down (s.cnt - 1 - n) n s.sfe) (n + (s.cnt - 1 - n)) unused;
  cnt = s.cnt - 1;
}
