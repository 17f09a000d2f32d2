-- ===== src/Allocator/Grow/Grown.antt =====
-- `grow` of C-Allocator/src/balloc.c: the heap with the pieces of a new chunk.
use foundations_lab.Base.{
  ℕ, ◌+◌, ◌≤◌, ◌<◌, ◌≡◌, ◌≢◌, ◌⊎◌, inl, inr, true, refl, sym, arith, ◌∙◌, subst, List,
}
use foundations_lab.Allocator.Memory.{Ptr, Memory, put, put_other}
use foundations_lab.Allocator.FreeLists.Filed.{Files}
use foundations_lab.Allocator.Grow.Chunk.{
  IsRegion, prologue, body, epilogue, Chunk, laid, laid_tags, laid_other,
}
use foundations_lab.Allocator.Layout.{
  Piece, Tagged, Fits, Apart, Pieces, After, Before, State, Adjacent, none_out,
}
use foundations_lab.Allocator.Layout.Recut.{Outside, Inside, Recut, Cut, State-Recut}
use foundations_lab.Allocator.Layout.Cuts.{just}
use foundations_lab.Allocator.Layout.Merge.{not_both}

-- The pieces with those of a new chunk.
abbrev pub grown : Pieces → (region total : ℕ) → Pieces
grown ps region total = Recut ps (Chunk region total) (region + 8) (region + total + 8)

-- The region overlaps none of the pieces.
abbrev pub Clear : Pieces → (region total : ℕ) → Type 0
Clear ps region total = (p : Piece) → ps p → Outside (region + 8) (region + total + 8) p

module _ {ps : Pieces} {region total : ℕ} (r : IsRegion region total)
    (clear : Clear ps region total) where
  chunk_elim :
      (P : Pieces)
      → P (prologue region total)
      → P (body region total)
      → P (epilogue region total)
      → (p : Piece) → Chunk region total p
      → P p
  chunk_elim P a b c p (inl e) = subst P (sym e) a
  chunk_elim P a b c p (inr (inl e)) = subst P (sym e) b
  chunk_elim P a b c p (inr (inr e)) = subst P (sym e) c

  Cut-chunk : Cut ps (Chunk region total) (region + 8) (region + total + 8)
  Cut-chunk =
      let aligned = r.aligned in
      let pages = r.pages in
      let wide = r.wide in
      let high = r.high in
      let a = prologue region total in
      let b = body region total in
      let c = epilogue region total in
      record {
        parts = λ p is. inl (clear p is);
        fits =
            chunk_elim Fits
              record {
                kind = inl (refl, inr refl, omega arith);
                low = omega arith;
                high = omega arith;
              }
              record {
                kind = inr (omega arith, omega arith, omega arith);
                low = omega arith;
                high = omega arith;
              }
              record {
                kind = inl (refl, inl refl, omega arith);
                low = omega arith;
                high = omega arith;
              };
        within =
            chunk_elim (Inside (region + 8) (region + total + 8)) (omega arith, omega arith)
              (omega arith, omega arith) (omega arith, omega arith);
        separate = λ p q p_is q_is.
            chunk_elim (λ p. (p ≡ q) ⊎ Apart p q)
              (chunk_elim (λ q. (a ≡ q) ⊎ Apart a q) (inl refl) (inr (inl (omega arith)))
                (inr (inl (omega arith))) q q_is)
              (chunk_elim (λ q. (b ≡ q) ⊎ Apart b q) (inr (inr (omega arith))) (inl refl)
                (inr (inl (omega arith))) q q_is)
              (chunk_elim (λ q. (c ≡ q) ⊎ Apart c q) (inr (inr (omega arith)))
                (inr (inr (omega arith))) (inl refl) q q_is)
              p p_is;
        next =
            chunk_elim (λ p. 0 < p.size → After (grown ps region total) p)
              (λ _. (b, inl (inr (inl refl)), omega arith))
              (λ _. (c, inl (inr (inr refl)), omega arith)) (λ none. absurd (omega arith));
        prev =
            chunk_elim (λ p. p.size ≢ 8 → Before (grown ps region total) p)
              (λ other. absurd (other refl)) (λ _. (a, inl (inl refl), omega arith, omega arith))
              (λ _. (b, inl (inr (inl refl)), omega arith, omega arith));
        starts = λ q is inside _. absurd (not_both q (clear q is) inside);
        ends = λ q is inside _ _. absurd (not_both q (clear q is) inside);
      }

  -- The neighbours of the free block of the chunk are its prologue and its epilogue.
  pub body_lone :
      (p : Piece)
      → grown ps region total p
      → Adjacent p (body region total) ⊎ Adjacent (body region total) p
      → p.used ≡ true
  body_lone p (inl c) adjacent =
      chunk_elim
        (λ p. Adjacent p (body region total) ⊎ Adjacent (body region total) p → p.used ≡ true)
        (λ _. refl)
        (λ adj. elim adj [
          | inl (h, before) ↦ absurd (omega arith)
          | inr (h, after) ↦ absurd (let wide = r.wide in omega arith)
        ])
        (λ _. refl) p c adjacent
  body_lone p (inr (is, outside)) (inl (h, before)) =
      let wide = r.wide in
      elim outside [ inl low ↦ absurd (omega arith) | inr high ↦ absurd (omega arith) ]
  body_lone p (inr (is, outside)) (inr (h, after)) =
      let wide = r.wide in
      elim outside [ inl low ↦ absurd (omega arith) | inr high ↦ absurd (omega arith) ]

  -- No word outside the region is written.
  pub chunk_far :
      (m : Memory) (g x : Ptr)
      → (x < region) ⊎ (region + total ≤ x)
      → laid r (put region g (put (region + 8) total m)) x ≡ m x
  chunk_far m g x side =
      let wide = r.wide in
      let m1 = put (region + 8) total m in
      let m2 = put region g m1 in
      elim side [
        | inl low ↦
            laid_other r m2 x (inl (omega arith))
            ∙ put_other m1 region g x (λ e. omega arith)
            ∙ put_other m (region + 8) total x (λ e. omega arith)
        | inr high ↦
            laid_other r m2 x (inr high)
            ∙ put_other m1 region g x (λ e. omega arith)
            ∙ put_other m (region + 8) total x (λ e. omega arith)
      ]

  -- The heap while the free block of the chunk is not on its list yet.
  pub chunk-State :
      {m : Memory} {heads : List Ptr} {fs : Files} (g : Ptr)
      → State m heads ps fs none_out
      → State
          (laid r (put region g (put (region + 8) total m)))
          heads
          (grown ps region total)
          fs
          (just (body region total))
  chunk-State {m} g s =
      let wide = r.wide in
      let m' = laid r (put region g (put (region + 8) total m)) in
      let (a_tags, b_tags, c_tags) = laid_tags r (put region g (put (region + 8) total m)) in
      State-Recut m' (just (body region total)) s Cut-chunk
        (λ p is inside. absurd (not_both p (clear p is) inside))
        (λ p rest o. elim o [
          | inl out ↦ out
          | inr e ↦
              not_both (body region total)
                (subst (Outside (region + 8) (region + total + 8)) e rest.1)
                (omega arith, omega arith)
        ])
        (chunk_elim (λ p. (p ≡ body region total) ⊎ (p.used ≡ true)) (inr refl) (inl refl)
          (inr refl))
        (chunk_elim (Tagged m') a_tags b_tags c_tags)
        (λ x side.
          chunk_far m g x
            (elim side [ inl low ↦ inl (omega arith) | inr high ↦ inr (omega arith) ]))
