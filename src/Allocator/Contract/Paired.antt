-- ===== src/Allocator/Contract/Paired.antt =====
-- A call of `balloc` and the call of `bfree` on its result, from C-Allocator/src/balloc.c.
use foundations_lab.Base.{
  ℕ, ◌^◌, ◌<◌, ◌≡◌, ◌≢◌, ◌⊎◌, ◌↔◌, inl, inr, ◌∙◌, subst, refl, Option, some, length,
}
use foundations_lab.Allocator.Memory.{Ptr, Heap}
use foundations_lab.Allocator.Grow.{chunk_total}
use foundations_lab.Allocator.Api.{adjusted, balloc, bfree}
use foundations_lab.Allocator.Api.Alloc.{IsMapping}
use foundations_lab.Allocator.Layout.{Piece}
use foundations_lab.Allocator.Layout.Keeps.{SameContents}
use foundations_lab.Allocator.Contract.{Sound, InUse, balloc-InUse, bfree-InUse}

-- For a request of 1 to 2 ^ 62 - 1 bytes on a sound heap, with fuel for the longest free list and
-- an mmap that gives page-aligned regions apart from the pieces and the chunks, `balloc` ends, and
-- gives NULL and the heap as it was, or a pointer such that `bfree` of it leaves a sound heap
-- whose blocks in use are the ones from before the two calls, with the same contents.
pub bfree-balloc :
    (mmap : ℕ → Option Ptr) (h : Heap) (s : Sound h) (fuel size : ℕ)
    → 0 < size
    → size < 2 ^ 62
    → ((d : ℕ) → length (s.files d) < fuel)
    → ((region : ℕ)
        → mmap (chunk_total (adjusted size)) ≡ some region
        → IsMapping s.pieces s.chunks region (chunk_total (adjusted size)))
    → (p : Ptr) × (h' : Heap) × (balloc mmap fuel size h ≡ some (p, h'))
      × (((p ≡ 0) × (h' ≡ h))
          ⊎ ((s' : Sound (bfree p h')) × ((q : Piece) → InUse (bfree p h') s' q ↔ InUse h s q)
              × ((q : Piece) → InUse h s q → SameContents h.memory (bfree p h').memory q)))
bfree-balloc mmap h s fuel size asked small enough maps =
    let (p, h1, result, outcome) = balloc-InUse mmap h s fuel size asked small enough maps in
    (
      p,
      h1,
      result,
      elim outcome [
        | inl (z, same, _, _) ↦ inl (z, same)
        | inr (s1, b, at, _, _, fresh, both, kept) ↦
            let taken : InUse h1 s1 b = (both b).1 (inr refl) in
            let (s2, after, stays) = bfree-InUse h1 s1 b taken in
            let other : (q : Piece) → InUse h s q → q ≢ b =
              λ q old e. fresh (subst (InUse h s) e old) in
            let back : (q : Piece) → InUse (bfree b.at h1) s2 q ↔ InUse h s q = λ q. (
              (λ now.
                  let (was, apart) = (after q).0 now in
                  elim ((both q).0 was) [ inl old ↦ old | inr e ↦ absurd (apart e) ]),
              (λ old. (after q).1 ((both q).1 (inl old), other q old)),
            ) in
            subst
              (λ (t : Ptr).
                ((p ≡ 0) × (h1 ≡ h))
                ⊎ ((s' : Sound (bfree t h1)) × ((q : Piece) → InUse (bfree t h1) s' q ↔ InUse h s q)
                    × ((q : Piece) → InUse h s q → SameContents h.memory (bfree t h1).memory q)))
              at
              (inr
                (s2, back, λ q old x lo hi. stays q ((back q).1 old) x lo hi ∙ kept q old x lo hi))
      ],
    )
