-- ===== src/Allocator/Grow/Whole.antt =====
-- `grow` of C-Allocator/src/balloc.c where `mmap` gives a region: a sound heap with one more chunk,
-- whose free block is on its list.
use foundations_lab.Base.{
  ℕ, ◌+◌, ◌-◌, ◌≤◌, ◌<◌, ◌≡◌, ◌⊎◌, inl, inr, true, refl, ap, sym, arith, ◌∙◌, subst, Option, some,
}
use foundations_lab.Allocator.Words.{word_end}
use foundations_lab.Allocator.Memory.{Ptr, Heap, Stats, put, put_self, put_other, hdrp}
use foundations_lab.Allocator.FreeLists.{list_insert}
use foundations_lab.Allocator.FreeLists.Filed.{Files}
use foundations_lab.Allocator.Coalesce.{write, count_free}
use foundations_lab.Allocator.Grow.{
  chunk_total, open_chunk, chunk_block, first_payload, add_chunk, lay_out, grow,
}
use foundations_lab.Allocator.Grow.Chunk.{
  IsRegion, body, laid, laid_other, lay_out-laid, first_payload-eq, chunk_block-eq,
}
use foundations_lab.Allocator.Grow.Grown.{grown, Clear, chunk_far, chunk-State, body_lone}
use foundations_lab.Allocator.Layout.{Piece, end_of, Pieces, State, none_out}
use foundations_lab.Allocator.Layout.Listing.{State-insert, State-Owned}
use foundations_lab.Allocator.Layout.Keeps.{Keeps-OffLinks, SameContents, Off}

-- What `grow` leaves: the pieces of the chunk besides those before, the words outside the region as
-- they were, and the chunk in front of the list of chunks.
pub record Grown (h : Heap) (ps : Pieces) (region total : ℕ) (h' : Heap) : Type 0 where
  pub files : Files
  pub state : State h'.memory h'.g_class (grown ps region total) files none_out
  pub kept :
      (p : Piece)
      → ps p
      → p.used ≡ true
      → grown ps region total p × SameContents h.memory h'.memory p
  pub rest :
      (x : Ptr)
      → Off ps x
      → (x + 8 < region) ⊎ (region + total ≤ x)
      → Off (grown ps region total) x × (h'.memory x ≡ h.memory x)
  pub chunks : h'.g_chunks ≡ region
  pub linked : (h'.memory region ≡ h.g_chunks) × (h'.memory (region + 8) ≡ total)
  pub header : Off (grown ps region total) region × Off (grown ps region total) (region + 8)

module _ (h : Heap) {ps : Pieces} {fs : Files} {region total : ℕ}
    (s : State h.memory h.g_class ps fs none_out) (r : IsRegion region total)
    (clear : Clear ps region total) (linkable : h.g_chunks < word_end) where
  off_chunk :
      (x : Ptr)
      → ((p : Piece) → ps p → (x + 8 < p.at) ⊎ (end_of p ≤ x + 8))
      → (x + 8 < region + 24) ⊎ (region + total + 8 ≤ x + 8)
      → Off (grown ps region total) x
  off_chunk x old side p (inr (is, _)) = old p is
  off_chunk x old (inl low) p (inl (inl e)) =
      let at = ap (λ (t : Piece). t.at) e in inl (omega arith)
  off_chunk x old (inl low) p (inl (inr (inl e))) =
      let at = ap (λ (t : Piece). t.at) e in inl (omega arith)
  off_chunk x old (inl low) p (inl (inr (inr e))) =
      let wide = r.wide in let at = ap (λ (t : Piece). t.at) e in inl (omega arith)
  off_chunk x old (inr high) p (inl (inl e)) =
      let wide = r.wide in
      let at = ap (λ (t : Piece). t.at) e in
      let size = ap (λ (t : Piece). t.size) e in inr (omega arith)
  off_chunk x old (inr high) p (inl (inr (inl e))) =
      let wide = r.wide in
      let at = ap (λ (t : Piece). t.at) e in
      let size = ap (λ (t : Piece). t.size) e in inr (omega arith)
  off_chunk x old (inr high) p (inl (inr (inr e))) =
      let at = ap (λ (t : Piece). t.at) e in
      let size = ap (λ (t : Piece). t.size) e in inr (omega arith)

  -- The header of the chunk is beside the pieces.
  off_header : (x : Ptr) → (region ≤ x) → (x ≤ region + 8) → Off (grown ps region total) x
  off_header x lo hi =
      off_chunk x
        (λ p is. elim (clear p is) [
          | inl before ↦ inr (omega arith)
          | inr after ↦ inl (let wide = r.wide in omega arith)
        ])
        (inl (omega arith))

  pub lay_out-Grown :
      let laid_heap = lay_out region total (add_chunk region total h) in
      let listed = list_insert (region + 32) (total - 32) laid_heap in
      Grown h ps region total listed
  unfolding add_chunk write list_insert
  lay_out-Grown =
      let wide = r.wide in
      let high = r.high in
      let m1 = put region h.g_chunks (put (region + 8) total h.memory) in
      let m2 = laid r m1 in
      let s2 = chunk-State r clear h.g_chunks s in
      let h2 : Heap = record (add_chunk region total h) { memory = m2 } in
      let (fs3, s3, same3) =
        State-insert h2 (body region total) s2 (inl (inr (inl refl))) refl (body_lone r clear) in
      let h3 = list_insert (region + 32) (total - 32) h2 in
      let keeps = Keeps-OffLinks m2 h3.memory s2.layout (State-Owned s3) same3 in
      let head : Grown h ps region total h3 = record {
        files = fs3;
        state = s3;
        kept = λ p is used.
            let p_is : grown ps region total p = inr (is, clear p is) in
            (
              p_is,
              λ x lo hi.
                  (keeps.kept p p_is used (λ n. n)).1 x lo hi
                  ∙ chunk_far r clear h.memory h.g_chunks x (elim (clear p is) [
                    | inl before ↦ inl (omega arith)
                    | inr after ↦ inr (omega arith)
                  ]),
            );
        rest = λ x off side.
            let x_off =
              off_chunk x off
                (elim side [ inl low ↦ inl (omega arith) | inr up ↦ inr (omega arith) ]) in
            (
              x_off,
              (keeps.rest x x_off).1
                  ∙ chunk_far r clear h.memory h.g_chunks x
                      (elim side [ inl low ↦ inl (omega arith) | inr up ↦ inr up ]),
            );
        chunks = refl;
        linked = (
          (keeps.rest region (off_header region (omega arith) (omega arith))).1
              ∙ laid_other r m1 region (inl (omega arith))
              ∙ put_self (put (region + 8) total h.memory) region h.g_chunks linkable,
          (keeps.rest (region + 8) (off_header (region + 8) (omega arith) (omega arith))).1
              ∙ laid_other r m1 (region + 8) (inl (omega arith))
              ∙ put_other (put (region + 8) total h.memory) region h.g_chunks (region + 8)
                  (λ e. omega arith)
              ∙ put_self h.memory (region + 8) total (omega arith),
        );
        header = (
          off_header region (omega arith) (omega arith),
          off_header (region + 8) (omega arith) (omega arith),
        );
      } in
      subst (λ (t : Heap). Grown h ps region total (list_insert (region + 32) (total - 32) t))
        (sym (lay_out-laid r (add_chunk region total h))) head

Grown-stats :
    {h : Heap} {ps : Pieces} {region total : ℕ} (h' : Heap) (t : Stats)
    → Grown h ps region total h'
    → Grown h ps region total (record h' { g_stats = t })
Grown-stats h' t g = record {
  files = g.files;
  state = g.state;
  kept = g.kept;
  rest = g.rest;
  chunks = g.chunks;
  linked = g.linked;
  header = g.header;
}

open_chunk-Grown :
    (h : Heap) {ps : Pieces} {region total : ℕ}
    → IsRegion region total
    → Grown h ps region total
        (list_insert (region + 32) (total - 32) (lay_out region total (add_chunk region total h)))
    → let (bp, h') = open_chunk region total h in (bp ≡ region + 32) × Grown h ps region total h'
unfolding open_chunk
open_chunk-Grown h {ps} {region} {total} r g =
    let bp : hdrp (first_payload region) + 8 ≡ region + 32 = omega (arith, first_payload-eq r) in
    let laid_heap = lay_out region total (add_chunk region total h) in
    let listed =
      list_insert (hdrp (first_payload region) + 8) (chunk_block region total) laid_heap in
    (
      bp,
      Grown-stats listed (count_free (chunk_block region total) listed.g_stats) (
          subst
            (λ (t : Ptr).
              Grown h ps region total (list_insert t (chunk_block region total) laid_heap))
            (sym bp)
            (subst (λ (t : ℕ). Grown h ps region total (list_insert (region + 32) t laid_heap))
              (sym (chunk_block-eq r)) g)),
    )

-- The free block of the new chunk is what `grow` returns.
pub grow-Grown :
    (mmap : ℕ → Option Ptr) (need : ℕ) (h : Heap) {ps : Pieces} {fs : Files} (region : ℕ)
    → State h.memory h.g_class ps fs none_out
    → mmap (chunk_total need) ≡ some region
    → IsRegion region (chunk_total need)
    → Clear ps region (chunk_total need)
    → h.g_chunks < word_end
    → let (bp, h') = grow mmap need h in
      (bp ≡ region + 32) × Grown h ps region (chunk_total need) h'
unfolding grow
grow-Grown mmap need h region s given r clear linkable =
    rw (given, grow) (open_chunk-Grown h r (lay_out-Grown h s r clear linkable))
