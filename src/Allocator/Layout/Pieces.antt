-- ===== src/Allocator/Layout/Pieces.antt =====
-- The addresses that a piece owns, against those of the others.
use foundations_lab.Base.{
  ℕ, ◌+◌, ◌-◌, ◌≤◌, ◌<◌, ◌≡◌, ◌≢◌, inl, inr, false, ap, sym, arith, Among, ◌∙◌, false≢true,
}
use foundations_lab.Allocator.Memory.{Ptr, Memory}
use foundations_lab.Allocator.FreeLists.Filed.{Files}
use foundations_lab.Allocator.FreeLists.Refiled.{OffLinks}
use foundations_lab.Allocator.Layout.{Piece, end_of, Tagged, IsBlock, Fits, Pieces, Layout}

-- Every listed node is a free block.
abbrev pub Owned : Pieces → Files → Type 0
Owned ps fs =
    (c : ℕ) (n : Ptr) → Among n (fs c) → (p : Piece) × ps p × (p.used ≡ false) × (p.at ≡ n)

-- A free piece is a block.
pub free-IsBlock : {p : Piece} → Fits p → p.used ≡ false → IsBlock p
free-IsBlock {p} f free = elim f.kind [ inl s ↦ absurd (false≢true (sym free ∙ s.0)) | inr b ↦ b ]

-- A word of a piece is no link, except the first two words of the payload of a free block.
pub piece-OffLinks :
    {ps : Pieces} {fs : Files} (p : Piece) (x : Ptr)
    → Layout ps
    → Owned ps fs
    → ps p
    → p.at ≤ x + 8
    → x + 8 < end_of p
    → (p.used ≡ false → (x ≢ p.at) × (x ≢ p.at + 8))
    → OffLinks fs x
piece-OffLinks p x l o is low high free c n i =
    let (q, q_is, q_free, q_at) = o c n i in
    let f = l.fits q q_is in
    let room = free-IsBlock f q_free in
    elim (l.separate p q is q_is) [
      | inl same ↦
          let h = free (ap (λ (t : Piece). t.used) same ∙ q_free) in
          let at = ap (λ (t : Piece). t.at) same in
          ((λ e. h.0 (omega (arith, at))), (λ e. h.1 (omega (arith, at))))
      | inr (inl before) ↦ ((λ e. omega arith), (λ e. omega arith))
      | inr (inr after) ↦ ((λ e. omega arith), (λ e. omega arith))
    ]

module _ {ps : Pieces} {fs : Files} (p : Piece) (l : Layout ps) (o : Owned ps fs) (is : ps p) where
  pub header-OffLinks : OffLinks fs (p.at - 8)
  header-OffLinks =
      let low = (l.fits p is).low in
      piece-OffLinks p (p.at - 8) l o is (omega arith) (omega arith)
        (λ free. ((λ e. omega arith), (λ e. omega arith)))

  pub footer-OffLinks : 0 < p.size → OffLinks fs (p.at + p.size - 16)
  footer-OffLinks some =
      let f = l.fits p is in
      let low = f.low in
      elim f.kind [
        | inl (used, size, at) ↦
            piece-OffLinks p (p.at + p.size - 16) l o is (omega arith) (omega arith)
              (λ free. absurd (false≢true (sym free ∙ used)))
        | inr (wide, size, at) ↦
            piece-OffLinks p (p.at + p.size - 16) l o is (omega arith) (omega arith)
              (λ free. ((λ e. omega arith), (λ e. omega arith)))
      ]

  -- Tags survive a change of link words alone.
  pub Tagged-OffLinks :
      {m : Memory} (m' : Memory)
      → ((x : Ptr) → OffLinks fs x → m' x ≡ m x)
      → Tagged m p
      → Tagged m' p
  Tagged-OffLinks m' same t = record {
    header = same (p.at - 8) header-OffLinks ∙ t.header;
    footer = λ some. same (p.at + p.size - 16) (footer-OffLinks some) ∙ t.footer some;
  }
