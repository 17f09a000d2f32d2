-- ===== src/Allocator/Api/Free.antt =====
-- `bfree` of C-Allocator/src/balloc.c on a block in use.
use foundations_lab.Base.{
  ◌≡◌, ◌⊎◌, inl, inr, true, false, refl, ap, sym, arith, ◌∙◌, subst, false≢true, ne→==,
}
use foundations_lab.Allocator.Memory.{Ptr, Heap}
use foundations_lab.Allocator.FreeLists.{list_insert}
use foundations_lab.Allocator.FreeLists.Filed.{Files}
use foundations_lab.Allocator.Coalesce.{put_tags, coalesce}
use foundations_lab.Allocator.Coalesce.Absorb.{Coalesced}
use foundations_lab.Allocator.Coalesce.Whole.{coalesce-Coalesced}
use foundations_lab.Allocator.Api.{bfree, mark_free, list_free, drop_used}
use foundations_lab.Allocator.Layout.{Piece, piece, IsBlock, Pieces, Adjacent, State, none_out}
use foundations_lab.Allocator.Layout.Listing.{State-insert, State-Owned}
use foundations_lab.Allocator.Layout.Reads.{header_size}
use foundations_lab.Allocator.Layout.Keeps.{Keeps, Keeps-after, Keeps-OffLinks, no_piece}
use foundations_lab.Allocator.Layout.Cuts.{just}
use foundations_lab.Allocator.Layout.Retag.{retagged, put_tags-State}

-- The heap with a free block put on its list, after a call that ended with the block `whole` off
-- the lists.
list_free-State :
    (h : Heap) {ps : Pieces} {fs : Files} (d : Piece)
    → State h.memory h.g_class ps fs (just d)
    → ps d
    → d.used ≡ false
    → ((p : Piece) → ps p → Adjacent p d ⊎ Adjacent d p → p.used ≡ true)
    → let h' = list_free d.at h in
      (fs' : Files) × State h'.memory h'.g_class ps fs' none_out
      × Keeps h.memory ps h'.memory ps no_piece no_piece
      × (h'.g_chunks ≡ h.g_chunks)
unfolding list_free list_insert
list_free-State h d s is free lone =
    let size = header_size (s.layout.fits d is) (s.tags d is) in
    let (fs', s', same) = State-insert h d s is free lone in
    rw size (
      fs',
      s',
      Keeps-OffLinks h.memory (list_insert d.at d.size h).memory s.layout (State-Owned s') same,
      refl,
    )

module _ (h h' : Heap) {ps : Pieces} {bp : Ptr} (c : Coalesced h ps bp h') where
  freed-State :
      let h'' = list_free bp h' in
      (ps' : Pieces) × (fs' : Files) × State h''.memory h''.g_class ps' fs' none_out
      × Keeps h.memory ps h''.memory ps' no_piece no_piece
      × (h''.g_chunks ≡ h.g_chunks)
  freed-State =
      let (fs', s', keeps, chunks) = list_free-State h' c.whole c.state c.is c.free c.lone in
      subst
        (λ (t : Ptr).
          let h'' = list_free t h' in
          (ps' : Pieces) × (fs' : Files) × State h''.memory h''.g_class ps' fs' none_out
          × Keeps h.memory ps h''.memory ps' no_piece no_piece
          × (h''.g_chunks ≡ h.g_chunks))
        c.at (c.pieces, fs', s', Keeps-after c.keeps keeps, chunks ∙ c.chunks)

-- The block marked anew is no longer one of the pieces.
retagged_gone : (ps : Pieces) (b : Piece) → IsBlock b → b.used ≡ true → retagged ps b false b → ⊥
retagged_gone ps b room used (inl e) = false≢true (sym (ap (λ (t : Piece). t.used) e) ∙ used)
retagged_gone ps b room used (inr (is, inl before)) = omega arith
retagged_gone ps b room used (inr (is, inr after)) = omega arith

-- A block given back is no longer in use, every other block in use stays with its contents, and the
-- heap is sound again.
pub bfree-State :
    (h : Heap) {ps : Pieces} {fs : Files} (b : Piece)
    → State h.memory h.g_class ps fs none_out
    → ps b
    → b.used ≡ true
    → IsBlock b
    → let h' = bfree b.at h in
      (ps' : Pieces) × (fs' : Files) × State h'.memory h'.g_class ps' fs' none_out
      × Keeps h.memory ps h'.memory ps' (just b) no_piece
      × (ps' b → ⊥)
      × (h'.g_chunks ≡ h.g_chunks)
unfolding bfree mark_free list_free
bfree-State h {ps} b s is used room =
    let d = piece b.at b.size false in
    let low = (s.layout.fits b is).low in
    let size = header_size (s.layout.fits b is) (s.tags b is) in
    let h0 : Heap = record h { g_stats = drop_used b.size h.g_stats } in
    let marked = put_tags b.at b.size 0 h0 in
    let (s1, chunks1, _, keeps1) =
      put_tags-State h0 b s is room (inr used) (λ p o. absurd o) false (just d) (inl refl)
        (λ p e. e) in
    rw (ne→== b.at 0 (λ e. omega arith), size)
      (let (ps', fs', s', keeps, chunks) =
          freed-State marked (coalesce b.at marked).1
            (coalesce-Coalesced marked d s1 (inl refl) refl) in
        (
          ps',
          fs',
          s',
          Keeps-after (keeps1 (just b) no_piece (λ _. refl) (λ e. false≢true e)) keeps,
          (λ still. elim (keeps.only b still used) [
            | inl none ↦ none
            | inr old ↦ retagged_gone ps b room used old
          ]),
          chunks ∙ chunks1,
        ))
