-- ===== src/Allocator/Layout.antt =====
-- How the heap of C-Allocator/src/balloc.c divides into pieces: the blocks with their boundary tags,
-- the prologue of a chunk as a piece of 8 bytes and its epilogue as a piece of size 0; and what
-- stays true of the heap between two calls.
pub mod Pieces
pub mod Listing
pub mod Recut
pub mod Reads
pub mod Keeps
pub mod Cuts
pub mod Merge
pub mod Retag
pub mod Halves
pub mod Chunks
pub mod Payload
use foundations_lab.Base.{
  ℕ, ◌+◌, ◌-◌, ◌%◌, ◌≤◌, ◌<◌, ◌≡◌, ◌≢◌, ◌⊎◌, inl, inr, Bool, true, false, if◌then◌else◌, List,
  Among,
}
use Prim.Native.Nat.{max}
use foundations_lab.Allocator.Words.{word_end}
use foundations_lab.Allocator.Memory.{Ptr, Memory, Heap}
use foundations_lab.Allocator.FreeLists.{size_class}
use foundations_lab.Allocator.FreeLists.Filed.{Files, Filed}

-- A piece with its payload at `at`: its header stands 8 bytes before.
pub record Piece : Type 0 where
  pub at : Ptr
  pub size : ℕ
  pub used : Bool

abbrev pub piece : Ptr → ℕ → Bool → Piece
piece p s b = record { at = p; size = s; used = b }

abbrev pub tag : Piece → ℕ
tag p = p.size + (if p.used then 1 else 0)

-- Where the next piece has its payload; an epilogue is a header alone.
abbrev pub end_of : Piece → ℕ
end_of p = p.at + max p.size 8

-- The header, and the footer of all but an epilogue, hold the size and whether the piece is in use.
pub record Tagged (m : Memory) (p : Piece) : Type 0 where
  pub header : m (p.at - 8) ≡ tag p
  pub footer : 0 < p.size → m (p.at + p.size - 16) ≡ tag p

abbrev pub IsBlock : Piece → Type 0
IsBlock p = (32 ≤ p.size) × (p.size % 16 ≡ 0) × (p.at % 16 ≡ 0)

abbrev pub IsSentinel : Piece → Type 0
IsSentinel p = (p.used ≡ true) × ((p.size ≡ 0) ⊎ (p.size ≡ 8)) × (p.at % 16 ≡ p.size)

pub record Fits (p : Piece) : Type 0 where
  pub kind : IsSentinel p ⊎ IsBlock p
  pub low : 16 ≤ p.at
  pub high : end_of p < word_end

abbrev pub Apart : Piece → Piece → Type 0
Apart p q = (end_of p ≤ q.at) ⊎ (end_of q ≤ p.at)

abbrev pub Pieces : Type 1
Pieces = Piece → Type 0

abbrev pub After : Pieces → Piece → Type 0
After ps p = (q : Piece) × ps q × (q.at ≡ p.at + p.size)

abbrev pub Before : Pieces → Piece → Type 0
Before ps p = (q : Piece) × ps q × (0 < q.size) × (q.at + q.size ≡ p.at)

-- The pieces do not overlap, and each but an epilogue has a piece after it and each but a prologue
-- one before it.
pub record Layout (ps : Pieces) : Type 0 where
  pub fits : (p : Piece) → ps p → Fits p
  pub separate : (p q : Piece) → ps p → ps q → (p ≡ q) ⊎ Apart p q
  pub next : (p : Piece) → ps p → 0 < p.size → After ps p
  pub prev : (p : Piece) → ps p → p.size ≢ 8 → Before ps p

abbrev pub Adjacent : Piece → Piece → Type 0
Adjacent p q = (0 < p.size) × (q.at ≡ p.at + p.size)

-- The state of the heap. The pieces `out` are free blocks that are on no list at the moment: between
-- two calls there are none.
pub record State (m : Memory) (heads : List Ptr) (ps : Pieces) (fs : Files) (out : Pieces)
    : Type 0 where
  pub layout : Layout ps
  pub tags : (p : Piece) → ps p → Tagged m p
  pub filed : Filed m heads fs
  pub listed : (p : Piece) → ps p → p.used ≡ false → out p ⊎ Among p.at (fs (size_class p.size))
  pub owned :
      (c : ℕ) (n : Ptr)
      → Among n (fs c)
      → (p : Piece) × ps p × (p.used ≡ false) × (p.at ≡ n) × (size_class p.size ≡ c) × (out p → ⊥)
  pub merged :
      (p q : Piece)
      → ps p
      → ps q
      → Adjacent p q
      → out p ⊎ (out q ⊎ ((p.used ≡ true) ⊎ (q.used ≡ true)))

abbrev pub none_out : Pieces
none_out p = ⊥
