-- ===== src/Allocator/Place/Placed.antt =====
-- `place` of C-Allocator/src/balloc.c takes a block of the asked size out of a free block.
use foundations_lab.Base.{
  ℕ, ◌+◌, ◌-◌, ◌%◌, ◌≤◌, ◌≡◌, ◌⊎◌, inl, inr, true, false, refl, ap, sym, arith, ◌∙◌, subst,
  false≢true, leb, leb→le, Bool-cases,
}
use foundations_lab.Allocator.Words.{sub64, sub64-exact}
use foundations_lab.Allocator.Memory.{Ptr, Heap, Stats, blk_size, hdrp, next_blkp}
use foundations_lab.Allocator.FreeLists.{list_remove, list_insert}
use foundations_lab.Allocator.FreeLists.Filed.{Files}
use foundations_lab.Allocator.Coalesce.{put_tags}
use foundations_lab.Allocator.Place.{take_free, split, carve, count_used, place}
use foundations_lab.Allocator.Layout.{Piece, piece, IsBlock, Pieces, State, Adjacent, none_out}
use foundations_lab.Allocator.Layout.Pieces.{free-IsBlock}
use foundations_lab.Allocator.Layout.Listing.{State-remove, State-insert, State-Owned}
use foundations_lab.Allocator.Layout.Reads.{header_size, next_blkp-eq, put_tags-Tagged}
use foundations_lab.Allocator.Layout.Keeps.{
  Keeps, Keeps-trans, Keeps-after, Keeps-OffLinks, no_piece,
}
use foundations_lab.Allocator.Layout.Cuts.{just}
use foundations_lab.Allocator.Layout.Retag.{put_tags-State}
use foundations_lab.Allocator.Layout.Halves.{
  Parts, front, rest, halved, halves-State, halves_fit, halves_room,
}

-- A heap with one more block in use, of at least `asize` bytes with its tags.
pub record Placed (h : Heap) (ps : Pieces) (asize : ℕ) (bp : Ptr) (h' : Heap) : Type 1 where
  pub pieces : Pieces
  pub files : Files
  pub taken : Piece
  pub state : State h'.memory h'.g_class pieces files none_out
  pub is : pieces taken
  pub used : taken.used ≡ true
  pub at : taken.at ≡ bp
  pub room : IsBlock taken
  pub wide : asize ≤ taken.size
  pub keeps : Keeps h.memory ps h'.memory pieces no_piece (just taken)
  pub fresh : ps taken → ⊥
  pub chunks : h'.g_chunks ≡ h.g_chunks

Placed-stats :
    (h h' : Heap) {ps : Pieces} {asize : ℕ} {bp : Ptr} (t : Stats)
    → Placed h ps asize bp h'
    → Placed h ps asize bp (record h' { g_stats = t })
Placed-stats h h' t p = record {
  pieces = p.pieces;
  files = p.files;
  taken = p.taken;
  state = p.state;
  is = p.is;
  used = p.used;
  at = p.at;
  room = p.room;
  wide = p.wide;
  keeps = p.keeps;
  fresh = p.fresh;
  chunks = p.chunks;
}

module _ (h : Heap) {ps : Pieces} {fs : Files} (b : Piece) (asize : ℕ)
    (s : State h.memory h.g_class ps fs none_out) (is : ps b) (free : b.used ≡ false)
    (aligned : asize % 16 ≡ 0) (wide : 32 ≤ asize) (fits : asize ≤ b.size) where
  size_read : blk_size h.memory (hdrp b.at) ≡ b.size
  size_read = header_size (s.layout.fits b is) (s.tags b is)

  room : IsBlock b
  room = free-IsBlock (s.layout.fits b is) free

  take_free-State :
      let h' = take_free b.at h in
      (fs' : Files) × State h'.memory h'.g_class ps fs' (λ p. none_out p ⊎ (p ≡ b))
      × Keeps h.memory ps h'.memory ps no_piece no_piece
      × (h'.g_chunks ≡ h.g_chunks)
  unfolding take_free list_remove
  take_free-State =
      let (fs', s', same, _) = State-remove h s b is free (λ n. n) in
      rw size_read (
        fs',
        s',
        Keeps-OffLinks h.memory (list_remove b.at b.size h).memory s.layout (State-Owned s) same,
        refl,
      )

  only_b : (p : Piece) → none_out p ⊎ (p ≡ b) → p ≡ b
  only_b p (inl none) = absurd none
  only_b p (inr e) = e

  left_exact : sub64 b.size asize ≡ b.size - asize
  left_exact = let high = (s.layout.fits b is).high in sub64-exact b.size asize fits (omega arith)

  -- No block of the heap before starts where the block did and is in use.
  not_before : (u : Piece) → u.at ≡ b.at → u.used ≡ true → ps u → ⊥
  not_before u at u_used u_is = elim (s.layout.separate u b u_is is) [
    | inl e ↦ false≢true (sym free ∙ sym (ap (λ (t : Piece). t.used) e) ∙ u_used)
    | inr (inl before) ↦ omega arith
    | inr (inr after) ↦ omega arith
  ]

  -- The neighbours of the free rest are in use.
  lone :
      32 ≤ b.size - asize
      → (p : Piece) → halved b asize ps p
      → Adjacent p (rest b asize) ⊎ Adjacent (rest b asize) p
      → p.used ≡ true
  lone left p (inl (inl e)) adj = ap (λ (t : Piece). t.used) e
  lone left p (inl (inr e)) adj =
      let at = ap (λ (t : Piece). t.at) e in
      let size = ap (λ (t : Piece). t.size) e in
      elim adj [
        | inl (some, before) ↦ absurd (omega arith)
        | inr (some, after) ↦ absurd (omega arith)
      ]
  lone left p (inr (p_is, outside)) (inl (some, before)) = elim outside [
    | inl low ↦ absurd (omega arith)
    | inr high ↦ absurd (omega arith)
  ]
  lone left p (inr (p_is, outside)) (inr (some, after)) =
      elim (s.merged b p is p_is (omega arith, omega arith)) [
        | inl none ↦ absurd none
        | inr (inl none) ↦ absurd none
        | inr (inr (inl u)) ↦ absurd (false≢true (sym free ∙ u))
        | inr (inr (inr u)) ↦ u
      ]

  split-Placed :
      32 ≤ b.size - asize → Placed h ps asize b.at (split b.at b.size asize (take_free b.at h))
  unfolding split list_insert
  split-Placed left =
      let parts : Parts b asize = record {
        room = room;
        aligned = aligned;
        wide = wide;
        left = left;
      } in
      let room = room in
      let (fs', s1, keeps1, chunks1) = take_free-State in
      let taken = take_free b.at h in
      let u = front b asize in
      let r = rest b asize in
      let (u_room, r_room) = halves_room b asize s.layout is parts in
      let (u_fits, r_fits) = halves_fit b asize s.layout is parts in
      let (u_tagged, _, _, _, _) = put_tags-Tagged taken u 1 u_fits u_room refl in
      let next : next_blkp (put_tags b.at asize 1 taken).memory b.at ≡ b.at + asize =
        next_blkp-eq u_fits u_tagged in
      let (s2, keeps2, chunks2) = halves-State taken b asize s1 is parts free (inr refl) only_b in
      let tagged = put_tags (b.at + asize) (b.size - asize) 0 (put_tags b.at asize 1 taken) in
      let (fs3, s3, same3) = State-insert tagged r s2 (inl (inr refl)) refl (lone left) in
      let keeps3 =
        Keeps-OffLinks tagged.memory (list_insert r.at r.size tagged).memory s2.layout
          (State-Owned s3) same3 in
      rw (next, left_exact)
        (record {
          pieces = _;
          files = fs3;
          taken = u;
          state = s3;
          is = inl (inl refl);
          used = refl;
          at = refl;
          room = u_room;
          wide = omega arith;
          keeps = Keeps-after (Keeps-trans keeps1 keeps2) keeps3;
          fresh = not_before u refl refl;
          chunks = chunks2 ∙ chunks1;
        })

  whole-Placed : Placed h ps asize b.at (put_tags b.at b.size 1 (take_free b.at h))
  whole-Placed =
      let (fs', s1, keeps1, chunks1) = take_free-State in
      let taken = take_free b.at h in
      let (s2, chunks2, _, keeps2) =
        put_tags-State taken b s1 is room (inl (inr refl)) only_b true none_out (inr refl)
          (λ p o. absurd o) in
      record {
        pieces = _;
        files = fs';
        taken = piece b.at b.size true;
        state = s2;
        is = inl refl;
        used = refl;
        at = refl;
        room = room;
        wide = fits;
        keeps = Keeps-trans keeps1 (
            keeps2 no_piece (just (piece b.at b.size true)) (λ u. false≢true (sym free ∙ u))
              (λ _. refl));
        fresh = not_before (piece b.at b.size true) refl refl;
        chunks = chunks2 ∙ chunks1;
      }

  carve-Placed : Placed h ps asize b.at (carve b.at b.size asize (take_free b.at h))
  unfolding carve
  carve-Placed = elim (Bool-cases (leb 32 (sub64 b.size asize))) [
    | inl left ↦
        simp left (split-Placed (omega (arith, leb→le 32 (sub64 b.size asize) left, left_exact)))
    | inr none ↦ simp none whole-Placed
  ]

  pub place-Placed : let (bp, h') = place b.at asize h in Placed h ps asize bp h'
  unfolding place
  place-Placed =
      let tagged = carve b.at (blk_size h.memory (hdrp b.at)) asize (take_free b.at h) in
      Placed-stats h tagged (count_used (blk_size tagged.memory (hdrp b.at)) tagged.g_stats) (
        subst (λ (t : ℕ). Placed h ps asize b.at (carve b.at t asize (take_free b.at h)))
          (sym size_read) carve-Placed)
