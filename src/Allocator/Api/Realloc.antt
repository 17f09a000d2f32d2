-- ===== src/Allocator/Api/Realloc.antt =====
-- `brealloc` of C-Allocator/src/balloc.c, branch by branch.
use foundations_lab.Base.{
  ℕ, ◌+◌, ◌-◌, ◌≤◌, ◌<◌, ◌≡◌, ◌≢◌, ◌⊎◌, refl, ap, arith, ◌∙◌, Option, some, le→leb, lt→leb, ne→==,
}
use foundations_lab.Allocator.Words.{sub64, sub64-exact}
use foundations_lab.Allocator.Memory.{Ptr, Memory, Heap, blk_size, hdrp}
use foundations_lab.Allocator.Api.{balloc, bfree, brealloc, copy_words}
use foundations_lab.Allocator.Layout.{Piece, IsBlock, Fits, Tagged}
use foundations_lab.Allocator.Layout.Reads.{header_size}

module _ (mmap : ℕ → Option Ptr) (fuel : ℕ) (h : Heap) (b : Piece) (f : Fits b)
    (t : Tagged h.memory b) (room : IsBlock b) where
  old_payload : sub64 (blk_size h.memory (hdrp b.at)) 16 ≡ b.size - 16
  old_payload =
      let high = f.high in
      ap (λ (n : ℕ). sub64 n 16) (header_size f t)
      ∙ sub64-exact b.size 16 (omega arith) (omega arith)

  real : b.at ≢ 0
  real z = let low = f.low in omega arith

  -- A request that fits the block gets the block.
  pub brealloc-shrink :
      (size : ℕ) → 0 < size → size + 16 ≤ b.size → brealloc mmap fuel b.at size h ≡ some (b.at, h)
  unfolding brealloc
  brealloc-shrink size asked fits =
      rw
        (
          ne→== b.at 0 real,
          ne→== size 0 (λ z. omega arith),
          old_payload,
          le→leb size (b.size - 16) (omega arith),
        )
        refl

  -- A larger one gets a new block with the old payload copied, and the old block is given back.
  pub brealloc-move :
      (size : ℕ) (p : Ptr) (h1 : Heap)
      → b.size < size + 16
      → balloc mmap fuel size h ≡ some (p, h1)
      → p ≢ 0
      → brealloc mmap fuel b.at size h
        ≡ some (p, bfree b.at (record h1 { memory = copy_words p b.at (b.size - 16) h1.memory }))
  unfolding brealloc
  brealloc-move size p h1 large result new =
      rw
        (
          ne→== b.at 0 real,
          ne→== size 0 (λ z. omega arith),
          old_payload,
          lt→leb size (b.size - 16) (omega arith),
          result,
          ne→== p 0 new,
        )
        refl

  -- Where `balloc` gives NULL, so does `brealloc`, and the old block stays.
  pub brealloc-fails :
      (size : ℕ) (h1 : Heap)
      → b.size < size + 16
      → balloc mmap fuel size h ≡ some (0, h1)
      → brealloc mmap fuel b.at size h ≡ some (0, h1)
  unfolding brealloc
  brealloc-fails size h1 large result =
      rw
        (
          ne→== b.at 0 real,
          ne→== size 0 (λ z. omega arith),
          old_payload,
          lt→leb size (b.size - 16) (omega arith),
          result,
        )
        refl

module _ (np ptr n : ℕ) (m : Memory) where
  pub copy_words-inside :
      (x : Ptr) → np ≤ x → x < np + n → copy_words np ptr n m x ≡ m (ptr + (x - np))
  unfolding copy_words
  copy_words-inside x lo hi = ground arith

  pub copy_words-outside : (x : Ptr) → (x < np) ⊎ (np + n ≤ x) → copy_words np ptr n m x ≡ m x
  unfolding copy_words
  copy_words-outside x side = ground arith
