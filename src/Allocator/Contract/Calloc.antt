-- ===== src/Allocator/Contract/Calloc.antt =====
-- The contract of `bcalloc` of C-Allocator/src/balloc.c.
use foundations_lab.Base.{
  ℕ, ◌+◌, ◌*◌, ◌^◌, ◌≤◌, ◌<◌, ◌≡◌, ◌⊎◌, ◌↔◌, inl, inr, refl, ap, ap₂, arith, ◌∙◌, subst, ne→==,
  Option, some, none, false, length, ◌-◌, ◌%◌,
}
use foundations_lab.Allocator.Words.{word_end}
use foundations_lab.Allocator.Memory.{Ptr, Heap}
use foundations_lab.Allocator.Grow.{chunk_total}
use foundations_lab.Allocator.Api.{adjusted, bcalloc, zero_bytes}
use foundations_lab.Allocator.Api.Alloc.{IsMapping}
use foundations_lab.Allocator.Api.Calloc.{
  bcalloc-overflow, bcalloc-fits, cleared, zero_bytes-inside, zero_bytes-part, zero_bytes-outside,
}
use foundations_lab.Allocator.Layout.{Piece}
use foundations_lab.Allocator.Layout.Payload.{Beside}
use foundations_lab.Allocator.Layout.Keeps.{SameContents}
use foundations_lab.Allocator.Contract.{
  Sound, InUse, balloc-InUse, overwritten, overwritten_contents,
}

-- `bcalloc` on a sound heap, where the product of its arguments is from 1 to 2 ^ 62 - 1 or does
-- not fit 64 bits, with fuel for the longest free list and an mmap that gives page-aligned regions
-- apart from the pieces and the chunks, ends. Either it gives NULL and the heap as it was, and the
-- product does not fit 64 bits, or mmap has failed and every free block is smaller than the block
-- asked for; or the product fits, the heap is sound, the blocks in use are those before, with the
-- same contents, and a new one at the result with room for the product, whose first bytes, as many
-- as the product, are 0: every word that lies in them, and the low bytes of a last one that lies
-- in them in part.
pub bcalloc-InUse :
    (mmap : ℕ → Option Ptr) (h : Heap) (s : Sound h) (fuel nmemb size : ℕ)
    → 0 < nmemb * size
    → (nmemb * size < 2 ^ 62) ⊎ (word_end ≤ nmemb * size)
    → ((d : ℕ) → length (s.files d) < fuel)
    → ((region : ℕ)
        → mmap (chunk_total (adjusted (nmemb * size))) ≡ some region
        → IsMapping s.pieces s.chunks region (chunk_total (adjusted (nmemb * size))))
    → (p : Ptr) × (h' : Heap) × (bcalloc mmap fuel nmemb size h ≡ some (p, h'))
      × (((p ≡ 0)
            × (h' ≡ h)
            × ((word_end ≤ nmemb * size)
                ⊎ ((mmap (chunk_total (adjusted (nmemb * size))) ≡ none)
                    × ((c : Piece)
                        → s.pieces c
                        → c.used ≡ false
                        → c.size < adjusted (nmemb * size)))))
          ⊎ ((nmemb * size < word_end)
              × ((s' : Sound h') × (b : Piece) × (b.at ≡ p)
                  × (nmemb * size + 16 ≤ b.size)
                  × (InUse h s b → ⊥)
                  × ((q : Piece) → InUse h' s' q ↔ (InUse h s q ⊎ (q ≡ b)))
                  × ((q : Piece) → InUse h s q → SameContents h.memory h'.memory q)
                  × ((x : Ptr) → p ≤ x → x + 8 ≤ p + nmemb * size → h'.memory x ≡ 0)
                  × ((x : Ptr)
                      → p ≤ x
                      → x < p + nmemb * size
                      → p + nmemb * size < x + 8
                      → h'.memory x % 2 ^ (8 * (p + nmemb * size - x)) ≡ 0))))
bcalloc-InUse mmap h s fuel nmemb size asked (inr big) enough maps =
    (0, h, bcalloc-overflow mmap fuel nmemb size h big, inl (refl, refl, inl big))
bcalloc-InUse mmap h s fuel nmemb size asked (inl small) enough maps =
    let total = nmemb * size in
    let (p, h1, result, outcome) = balloc-InUse mmap h s fuel total asked small enough maps in
    let called = bcalloc-fits mmap fuel nmemb size h (p, h1) (omega arith) result in
    elim outcome [
      | inl (z, same, failed, none_fits) ↦ (
        0,
        h,
        called
            ∙ ap (λ (t : Ptr × Heap). some (cleared total t)) {x = (p, h1)} {y = (0, h)}
                (ap₂ (λ (a : Ptr) (b : Heap). (a, b)) z same),
        inl (refl, refl, inr (failed, none_fits)),
      )
      | inr (s1, b, at, aligned, wide, new, both, contents) ↦
          let m' = zero_bytes p total h1.memory in
          let h' : Heap = record h1 { memory = m' } in
          let (b_is, b_room, b_used) = (both b).1 (inr refl) in
          let low = (s1.state.layout.fits b b_is).low in
          let b_use : InUse h1 s1 b = (b_is, b_room, b_used) in
          let same : (x : Ptr) → Beside b x → m' x ≡ h1.memory x = λ x side.
            zero_bytes-outside p total h1.memory x
              (elim side [ inl low ↦ inl (omega arith) | inr high ↦ inr (omega arith) ]) in
          let s' : Sound h' = overwritten h1 s1 b b_use m' same in
          (
            p,
            h',
            called ∙ rw (ne→== p 0 (λ z. omega arith)) refl,
            inr (
              omega arith,
              (
                s',
                b,
                at,
                wide,
                new,
                both,
                (λ q q_use x lo hi.
                    overwritten_contents h1 s1 b q b_use ((both q).1 (inl q_use))
                      (λ e. new (subst (InUse h s) e q_use)) m' same x lo hi
                    ∙ contents q q_use x lo hi),
                (λ x lo hi. zero_bytes-inside p total h1.memory x lo hi),
                (λ x lo hi part. zero_bytes-part p total h1.memory x lo hi part),
              ),
            ),
          )
    ]
