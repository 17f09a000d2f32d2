-- ===== src/Allocator/Contract/Realloc.antt =====
-- The contract of `brealloc` of C-Allocator/src/balloc.c.
use foundations_lab.Base.{
  ℕ, ◌+◌, ◌-◌, ◌^◌, ◌≤◌, ◌<◌, ◌≡◌, ◌≢◌, ◌⊎◌, ◌↔◌, inl, inr, refl, ap, sym, arith, ◌∙◌, subst,
  Option, some, none, false, length,
}
use foundations_lab.Allocator.Memory.{Ptr, Heap}
use foundations_lab.Allocator.Grow.{chunk_total}
use foundations_lab.Allocator.Api.{adjusted, bfree, brealloc, copy_words}
use foundations_lab.Allocator.Api.Alloc.{IsMapping}
use foundations_lab.Allocator.Layout.{Piece}
use foundations_lab.Allocator.Layout.Payload.{Beside}
use foundations_lab.Allocator.Layout.Keeps.{SameContents}
use foundations_lab.Allocator.Contract.{
  Sound, InUse, bfree-InUse, balloc-InUse, overwritten, overwritten_contents,
}
use foundations_lab.Allocator.Api.Realloc.{
  brealloc-shrink, brealloc-move, brealloc-fails, copy_words-inside, copy_words-outside,
}
use foundations_lab.Base.{leb, leb→le, leb→lt, Bool-cases}

-- `brealloc` of a block in use to 1 to 2 ^ 62 - 1 bytes, in a sound heap, with fuel for the
-- longest free list and an mmap that gives page-aligned regions apart from the pieces and the
-- chunks, ends. Either the block has room and is the result, with the heap as it was; or it has no
-- room, and one of two: the result is NULL with the heap as it was, mmap has failed, and every
-- free block is smaller than the block asked for; or the heap is sound, the blocks in use are the
-- others and a block at the result with room for the request, the others have the same contents,
-- and the new block starts with the words of the old payload.
pub brealloc-InUse :
    (mmap : ℕ → Option Ptr) (h : Heap) (s : Sound h) (fuel size : ℕ) (b : Piece)
    → InUse h s b
    → 0 < size
    → size < 2 ^ 62
    → ((d : ℕ) → length (s.files d) < fuel)
    → ((region : ℕ)
        → mmap (chunk_total (adjusted size)) ≡ some region
        → IsMapping s.pieces s.chunks region (chunk_total (adjusted size)))
    → (p : Ptr) × (h' : Heap) × (brealloc mmap fuel b.at size h ≡ some (p, h'))
      × (((size + 16 ≤ b.size) × (p ≡ b.at) × (h' ≡ h))
          ⊎ ((b.size < size + 16)
              × (((p ≡ 0)
                    × (h' ≡ h)
                    × (mmap (chunk_total (adjusted size)) ≡ none)
                    × ((c : Piece) → s.pieces c → c.used ≡ false → c.size < adjusted size))
                  ⊎ ((s' : Sound h') × (new : Piece) × (new.at ≡ p)
                      × (size + 16 ≤ new.size)
                      × ((q : Piece) → InUse h' s' q ↔ ((InUse h s q × (q ≢ b)) ⊎ (q ≡ new)))
                      × ((q : Piece) → InUse h s q → q ≢ b → SameContents h.memory h'.memory q)
                      × ((i : ℕ) → i + 16 < b.size → h'.memory (p + i) ≡ h.memory (b.at + i))))))
brealloc-InUse mmap h s fuel size b b_use asked small enough maps =
    let (b_is, b_room, b_used) = b_use in
    let f = s.state.layout.fits b b_is in
    let t = s.state.tags b b_is in
    elim (Bool-cases (leb (size + 16) b.size)) [
      | inl fits ↦
          let wide = leb→le (size + 16) b.size fits in
          (
            b.at,
            h,
            brealloc-shrink mmap fuel h b f t b_room size asked wide,
            inl (wide, refl, refl),
          )
      | inr tight ↦
          let large = leb→lt (size + 16) b.size tight in
          let (p, h1, result, outcome) = balloc-InUse mmap h s fuel size asked small enough maps in
          elim outcome [
            | inl (z, same, failed, none_fits) ↦ (
              0,
              h1,
              brealloc-fails mmap fuel h b f t b_room size h1 large
                  (result ∙ ap (λ (n : Ptr). some (n, h1)) z),
              inr (large, inl (refl, same, failed, none_fits)),
            )
            | inr (s1, new, at, aligned, wide, fresh, both, contents) ↦
                let low = (s1.state.layout.fits new ((both new).1 (inr refl)).0).low in
                let m2 = copy_words p b.at (b.size - 16) h1.memory in
                let h2 : Heap = record h1 { memory = m2 } in
                let new_use : InUse h1 s1 new = (both new).1 (inr refl) in
                let b_use1 : InUse h1 s1 b = (both b).1 (inl b_use) in
                let new_b : new ≢ b = λ e. fresh (subst (InUse h s) (sym e) b_use) in
                let same : (x : Ptr) → Beside new x → m2 x ≡ h1.memory x = λ x side.
                  copy_words-outside p b.at (b.size - 16) h1.memory x
                    (elim side [ inl below ↦ inl (omega arith) | inr above ↦ inr (omega arith) ]) in
                let s2 : Sound h2 = overwritten h1 s1 new new_use m2 same in
                let (s3, both3, contents3) = bfree-InUse h2 s2 b b_use1 in
                let stays : (q : Piece) → InUse h1 s1 q → q ≢ b → InUse (bfree b.at h2) s3 q =
                  λ q q_use q_b. (both3 q).1 (q_use, q_b) in
                (
                  p,
                  bfree b.at h2,
                  brealloc-move mmap fuel h b f t b_room size p h1 large result (λ z. omega arith),
                  inr (
                    large,
                    inr (
                      s3,
                      new,
                      at,
                      wide,
                      (λ q. (
                        (λ q_use.
                            let (q_use1, q_b) = (both3 q).0 q_use in
                            elim ((both q).0 q_use1) [ inl old ↦ inl (old, q_b) | inr e ↦ inr e ]),
                        (λ c. elim c [
                          | inl (q_use, q_b) ↦ stays q ((both q).1 (inl q_use)) q_b
                          | inr e ↦
                              subst (InUse (bfree b.at h2) s3) (sym e) (stays new new_use new_b)
                        ]),
                      )),
                      (λ q q_use q_b x lo hi.
                          let q_use1 = (both q).1 (inl q_use) in
                          contents3 q (stays q q_use1 q_b) x lo hi
                          ∙ overwritten_contents h1 s1 new q new_use q_use1
                              (λ e. fresh (subst (InUse h s) e q_use)) m2 same x lo hi
                          ∙ contents q q_use x lo hi),
                      (λ i inside.
                          contents3 new (stays new new_use new_b) (p + i) (omega arith)
                            (omega arith)
                          ∙ copy_words-inside p b.at (b.size - 16) h1.memory (p + i) (omega arith)
                              (omega arith)
                          ∙ ap (λ (n : ℕ). h1.memory (b.at + n)) {x = p + i - p} {y = i}
                              (omega arith)
                          ∙ contents b b_use (b.at + i) (omega arith) (omega arith)),
                    ),
                  ),
                )
          ]
    ]
