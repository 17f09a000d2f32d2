-- ===== src/Allocator/Coalesce/Whole.antt =====
-- `coalesce` of C-Allocator/src/balloc.c: whichever neighbours of the block are free, the block and
-- they become one free block whose neighbours are in use.
use foundations_lab.Base.{
  ℕ, ◌≡◌, inl, inr, Bool, true, false, refl, ap, ap₂, sym, arith, ◌∙◌, subst, ◌==◌, not,
}
use foundations_lab.Allocator.Memory.{Ptr, Heap, blk_alloc, hdrp, ftrp}
use foundations_lab.Allocator.FreeLists.Filed.{Files}
use foundations_lab.Allocator.Coalesce.{coalesce, merge_by}
use foundations_lab.Allocator.Coalesce.Absorb.{Coalesced, bit_test, same_prev}
use foundations_lab.Allocator.Coalesce.Next.{merge_next-Coalesced}
use foundations_lab.Allocator.Coalesce.Prev.{merge_prev-Coalesced}
use foundations_lab.Allocator.Coalesce.Both.{merge_both-Coalesced}
use foundations_lab.Allocator.Layout.{Piece, Pieces, Adjacent, State}
use foundations_lab.Allocator.Layout.Pieces.{free-IsBlock}
use foundations_lab.Allocator.Layout.Listing.{same_piece}
use foundations_lab.Allocator.Layout.Reads.{next_blkp-eq, prev_blkp-eq, header_alloc, footer_alloc}
use foundations_lab.Allocator.Layout.Cuts.{just}

module _ (h : Heap) {ps : Pieces} {fs : Files} (d q r : Piece)
    (s : State h.memory h.g_class ps fs (just d)) (d_is : ps d) (d_free : d.used ≡ false)
    (q_is : ps q) (before : Adjacent q d) (r_is : ps r) (after : Adjacent d r) where
  used_before : q.used ≡ true → (p : Piece) → ps p → Adjacent p d → p.used ≡ true
  used_before u p p_is adj =
      ap (λ (t : Piece). t.used) (same_prev p q d s.layout p_is q_is adj before) ∙ u

  used_after : r.used ≡ true → (p : Piece) → ps p → Adjacent d p → p.used ≡ true
  used_after u p p_is adj =
      ap (λ (t : Piece). t.used) (same_piece s.layout p_is r_is (adj.1 ∙ sym after.1)) ∙ u

  -- The four cases.
  merge_by-Coalesced :
      (prev next : Bool)
      → q.used ≡ prev
      → r.used ≡ next
      → let (bp, h') = merge_by prev next d.at h in Coalesced h ps bp h'
  unfolding merge_by
  merge_by-Coalesced true true q_used r_used = record {
    pieces = ps;
    files = fs;
    whole = d;
    state = s;
    is = d_is;
    free = d_free;
    at = refl;
    lone = λ p is adj. elim adj [
      | inl b ↦ used_before q_used p is b
      | inr a ↦ used_after r_used p is a
    ];
    keeps = record {
      kept = λ p is _ _. (is, λ x _ _. refl);
      only = λ p is _. inr is;
      rest = λ x off. (off, refl);
    };
    chunks = refl;
  }
  merge_by-Coalesced true false q_used r_free =
      merge_next-Coalesced h d r s d_is d_free r_is r_free after (used_before q_used)
  merge_by-Coalesced false true q_free r_used =
      merge_prev-Coalesced h d q s d_is d_free q_is q_free before (used_after r_used)
  merge_by-Coalesced false false q_free r_free =
      merge_both-Coalesced h d q r s d_is d_free q_is q_free before r_is r_free after

  -- The tests read the allocation bits of the neighbours.
  coalesce-merge_by : coalesce d.at h ≡ merge_by q.used r.used d.at h
  unfolding coalesce
  coalesce-merge_by =
      let q_fits = s.layout.fits q q_is in
      let q_tags = s.tags q q_is in
      let prev = prev_blkp-eq q_fits q_tags d.at before.0 (sym before.1) in
      let next = next_blkp-eq (s.layout.fits d d_is) (s.tags d d_is) ∙ sym after.1 in
      ap₂ (λ (a b : Bool). merge_by a b d.at h)
        (ap (λ (t : Ptr). not (blk_alloc h.memory (ftrp h.memory t) == 0)) prev
          ∙ ap (λ (t : ℕ). not (t == 0)) (footer_alloc q_fits q_tags before.0)
          ∙ bit_test q.used)
        (ap (λ (t : Ptr). not (blk_alloc h.memory (hdrp t) == 0)) next
          ∙ ap (λ (t : ℕ). not (t == 0)) (header_alloc (s.layout.fits r r_is) (s.tags r r_is))
          ∙ bit_test r.used)

-- For a free block that is on no list, in a heap that is else sound, `coalesce` returns the
-- payload of a free block that is on no list and whose neighbours are all in use, in a heap that
-- is else sound. The pieces in use and their contents, the words outside the pieces and the list
-- of chunks stay.
pub coalesce-Coalesced :
    (h : Heap) {ps : Pieces} {fs : Files} (d : Piece)
    → State h.memory h.g_class ps fs (just d)
    → ps d
    → d.used ≡ false
    → let (bp, h') = coalesce d.at h in Coalesced h ps bp h'
coalesce-Coalesced h {ps} {fs} d s d_is d_free =
    let room = free-IsBlock (s.layout.fits d d_is) d_free in
    let (q, q_is, q_some, q_end) = s.layout.prev d d_is (λ e. omega arith) in
    let (r, r_is, r_at) = s.layout.next d d_is (omega arith) in
    let before : Adjacent q d = (q_some, sym q_end) in
    let after : Adjacent d r = (omega arith, r_at) in
    subst (λ (t : Ptr × Heap). Coalesced h ps t.0 t.1)
      (sym (coalesce-merge_by h d q r s d_is d_free q_is before r_is after))
      (merge_by-Coalesced h d q r s d_is d_free q_is before r_is after q.used r.used refl refl)
