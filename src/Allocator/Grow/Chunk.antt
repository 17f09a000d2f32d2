-- ===== src/Allocator/Grow/Chunk.antt =====
-- The layout that `grow` of C-Allocator/src/balloc.c gives to a region of memory.
use foundations_lab.Base.{
  ℕ, ◌+◌, ◌-◌, ◌%◌, ◌≤◌, ◌<◌, ◌≡◌, ◌⊎◌, true, false, refl, ap, ap₂, arith, ◌∙◌, bit_and,
}
use foundations_lab.Allocator.Words.{
  word_end, sub64, sub64-exact, size_bits, size_bits-eq, align_up_sixteen, pack, pack-used,
  pack-free, not64,
}
use foundations_lab.Allocator.Memory.{Ptr, Memory, Heap, put, hdrp}
use foundations_lab.Allocator.Coalesce.{write}
use foundations_lab.Allocator.Grow.{first_payload, chunk_block, lay_out}
use foundations_lab.Allocator.Layout.{Piece, piece, Tagged, Pieces}

-- A region of memory as `mmap` gives it.
pub record IsRegion (region total : ℕ) : Type 0 where
  pub aligned : region % 4096 ≡ 0
  pub real : 0 < region
  pub pages : total % 4096 ≡ 0
  pub wide : 4096 ≤ total
  pub high : region + total + 8 < word_end

module _ (region total : ℕ) where
  abbrev pub prologue : Piece
  prologue = piece (region + 24) 8 true

  abbrev pub body : Piece
  body = piece (region + 32) (total - 32) false

  abbrev pub epilogue : Piece
  epilogue = piece (region + total) 0 true

  abbrev pub Chunk : Pieces
  Chunk p = (p ≡ prologue) ⊎ ((p ≡ body) ⊎ (p ≡ epilogue))

module _ {region total : ℕ} (r : IsRegion region total) where
  pub first_payload-eq : first_payload region ≡ region + 32
  unfolding first_payload
  first_payload-eq =
      let aligned = r.aligned in
      let high = r.high in
      let wide = r.wide in omega (arith, align_up_sixteen (region + 16 + 8 + 8) (omega arith))

  pub chunk_block-eq : chunk_block region total ≡ total - 32
  unfolding chunk_block size_bits
  chunk_block-eq =
      let pages = r.pages in
      let high = r.high in
      let wide = r.wide in
      let start : hdrp (first_payload region) ≡ region + 24 = omega (arith, first_payload-eq) in
      let span : sub64 (region + total - 8) (hdrp (first_payload region)) ≡ total - 32 =
        ap (sub64 (region + total - 8)) start
        ∙ sub64-exact (region + total - 8) (region + 24) (omega arith) (omega arith)
        ∙ omega arith in
      ap (λ (t : ℕ). bit_and t (not64 7)) span ∙ kept (total - 32) (omega arith) (omega arith)
    where
      kept : (n : ℕ) → n < word_end → n % 8 ≡ 0 → bit_and n (not64 7) ≡ n
      kept n h k = let all = size_bits-eq n h in omega (arith, all)

  -- The words that `lay_out` writes.
  abbrev pub laid : Memory → Memory
  laid m = put (region + total - 8) 1 (
      put (region + total - 16) (total - 32)
        (put (region + 24) (total - 32) (put (region + 16) 9 m)))

  pub lay_out-laid : (h : Heap) → lay_out region total h ≡ record h { memory = laid h.memory }
  unfolding lay_out write
  lay_out-laid h =
      let wide = r.wide in
      let pages = r.pages in
      let start = first_payload-eq in
      let foot : region + 32 - 8 + (total - 32) - 8 ≡ region + total - 16 = omega arith in
      let head : region + 32 - 8 ≡ region + 24 = omega arith in
      let first_word : region + 24 - 8 ≡ region + 16 = omega arith in
      let ended : pack 0 1 ≡ 1 = pack-used 0 refl in
      let started : pack 8 1 ≡ 9 = pack-used 8 refl in
      ap (λ (m : Memory). record h { memory = m })
        (ap₂
            (λ (fp bsize : ℕ). put (region + total - 8) (pack 0 1) (
              put (fp - 8 + bsize - 8) (pack bsize 0)
                (put (fp - 8) (pack bsize 0) (put (fp - 8 - 8) (pack 8 1) h.memory))))
            start chunk_block-eq
          ∙ rw (foot, head, first_word, pack-free (total - 32), ended, started) refl)

  laid_words :
      (m : Memory)
      → (laid m (region + 16) ≡ 9)
        × (laid m (region + 24) ≡ total - 32)
        × (laid m (region + total - 16) ≡ total - 32)
        × (laid m (region + total - 8) ≡ 1)
  unfolding put
  laid_words m =
      let high = r.high in
      let wide = r.wide in (ground arith, ground arith, ground arith, ground arith)

  pub laid_tags :
      (m : Memory)
      → Tagged (laid m) (prologue region total)
        × Tagged (laid m) (body region total)
        × Tagged (laid m) (epilogue region total)
  laid_tags m =
      let wide = r.wide in
      let (w16, w24, w_foot, w_end) = laid_words m in
      let at : (x y v : ℕ) → x ≡ y → laid m y ≡ v → laid m x ≡ v = λ x y v e w. ap (laid m) e ∙ w in
      (
        record {
          header = at (region + 24 - 8) (region + 16) 9 (omega arith) w16;
          footer = λ _. at (region + 24 + 8 - 16) (region + 16) 9 (omega arith) w16;
        },
        record {
          header = at (region + 32 - 8) (region + 24) (total - 32) (omega arith) w24 ∙ omega arith;
          footer = λ _.
              at (region + 32 + (total - 32) - 16) (region + total - 16) (total - 32) (omega arith)
                w_foot
              ∙ omega arith;
        },
        record { header = w_end; footer = λ none. absurd (omega arith) },
      )

  -- The words outside the region stay.
  pub laid_other :
      (m : Memory) (x : Ptr) → (x < region + 16) ⊎ (region + total ≤ x) → laid m x ≡ m x
  unfolding put
  laid_other m x side = let wide = r.wide in ground arith
