-- ===== src/Allocator/Coalesce/Absorb.antt =====
-- `absorb` of C-Allocator/src/balloc.c, and what `coalesce` promises.
use foundations_lab.Base.{
  ◌≡◌, ◌≢◌, ◌⊎◌, inl, inr, Bool, true, false, refl, sym, arith, ◌∙◌, List, false≢true, ◌==◌, not,
}
use foundations_lab.Allocator.Memory.{Ptr, Memory, Heap}
use foundations_lab.Allocator.FreeLists.{list_remove}
use foundations_lab.Allocator.FreeLists.Filed.{Files}
use foundations_lab.Allocator.Coalesce.{absorb}
use foundations_lab.Allocator.Layout.{Piece, Pieces, Layout, Adjacent, State}
use foundations_lab.Allocator.Layout.Listing.{State-Owned, State-remove}
use foundations_lab.Allocator.Layout.Reads.{bit, header_size}
use foundations_lab.Allocator.Layout.Keeps.{Keeps, Keeps-OffLinks, no_piece}
use foundations_lab.Allocator.Layout.Cuts.{just}

-- A heap with one free block `whole` off the lists, whose neighbours are in use, where the heap
-- before had the pieces `ps`.
pub record Coalesced (h : Heap) (ps : Pieces) (bp : Ptr) (h' : Heap) : Type 1 where
  pub pieces : Pieces
  pub files : Files
  pub whole : Piece
  pub state : State h'.memory h'.g_class pieces files (just whole)
  pub is : pieces whole
  pub free : whole.used ≡ false
  pub at : whole.at ≡ bp
  pub lone : (p : Piece) → pieces p → Adjacent p whole ⊎ Adjacent whole p → p.used ≡ true
  pub keeps : Keeps h.memory ps h'.memory pieces no_piece no_piece
  pub chunks : h'.g_chunks ≡ h.g_chunks

pub absorb-State :
    (h : Heap) {ps : Pieces} {fs : Files} {out : Pieces}
    → State h.memory h.g_class ps fs out
    → (q : Piece) → ps q
    → q.used ≡ false
    → (out q → ⊥)
    → let h' = absorb q.at h in
      (fs' : Files) × State h'.memory h'.g_class ps fs' (λ p. out p ⊎ (p ≡ q))
      × Keeps h.memory ps h'.memory ps no_piece no_piece
      × (h'.g_chunks ≡ h.g_chunks)
unfolding absorb list_remove
absorb-State h s q is free still =
    let size = header_size (s.layout.fits q is) (s.tags q is) in
    let (fs', s', same, _) = State-remove h s q is free still in
    rw size (
      fs',
      s',
      Keeps-OffLinks h.memory (list_remove q.at q.size h).memory s.layout (State-Owned s) same,
      refl,
    )

-- The test of an allocation bit.
pub bit_test : (b : Bool) → not (bit b == 0) ≡ b
bit_test true = refl
bit_test false = refl

-- Two pieces with the same neighbour on one side are one.
pub same_prev :
    {ps : Pieces} (p q d : Piece) → Layout ps → ps p → ps q → Adjacent p d → Adjacent q d → p ≡ q
same_prev p q d l p_is q_is (p_some, p_end) (q_some, q_end) = elim (l.separate p q p_is q_is) [
  | inl same ↦ same
  | inr (inl before) ↦ absurd (omega arith)
  | inr (inr after) ↦ absurd (omega arith)
]

-- The neighbours of a listed free block are in use, but for a block that is out.
pub around :
    {m : Memory} {heads : List Ptr} {ps : Pieces} {fs : Files} {d : Piece}
    → State m heads ps fs (just d)
    → (q : Piece) → ps q
    → q.used ≡ false
    → q ≢ d
    → (p : Piece) → ps p
    → p ≢ d
    → Adjacent p q ⊎ Adjacent q p
    → p.used ≡ true
around s q q_is free q_d p p_is p_d (inl adj) = elim (s.merged p q p_is q_is adj) [
  | inl o ↦ absurd (p_d o)
  | inr (inl o) ↦ absurd (q_d o)
  | inr (inr (inl u)) ↦ u
  | inr (inr (inr u)) ↦ absurd (false≢true (sym free ∙ u))
]
around s q q_is free q_d p p_is p_d (inr adj) = elim (s.merged q p q_is p_is adj) [
  | inl o ↦ absurd (q_d o)
  | inr (inl o) ↦ absurd (p_d o)
  | inr (inr (inl u)) ↦ absurd (false≢true (sym free ∙ u))
  | inr (inr (inr u)) ↦ u
]
