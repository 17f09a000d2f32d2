-- ===== src/Allocator/Layout/Listing.antt =====
-- The heap of C-Allocator/src/balloc.c when a free block is taken off its list, and when it is put
-- on it.
use foundations_lab.Base.{
  ℕ, ◌≡◌, ◌≢◌, ◌⊎◌, inl, inr, true, false, ap, sym, arith, List, ◌∙◌, Among, subst,
}
use foundations_lab.Allocator.Memory.{Ptr, Memory, Heap}
use foundations_lab.Allocator.FreeLists.{size_class, list_insert, list_remove}
use foundations_lab.Allocator.FreeLists.Filed.{Files}
use foundations_lab.Allocator.FreeLists.Refiled.{OffLinks}
use foundations_lab.Allocator.FreeLists.Membership.{list_insert-Added, list_remove-Taken}
use foundations_lab.Allocator.Layout.{Piece, Apart, Pieces, Layout, Adjacent, State, none_out}
use foundations_lab.Allocator.Layout.Pieces.{Owned, free-IsBlock, Tagged-OffLinks}

-- Two pieces of one layout with the same payload are one.
pub same_piece : {ps : Pieces} {p q : Piece} → Layout ps → ps p → ps q → p.at ≡ q.at → p ≡ q
same_piece {p} {q} l p_is q_is e = elim (l.separate p q p_is q_is) [
  | inl same ↦ same
  | inr (inl before) ↦ absurd (omega arith)
  | inr (inr after) ↦ absurd (omega arith)
]

Apart-at : (p q : Piece) → Apart p q → p.at ≢ q.at
Apart-at p q (inl before) e = omega arith
Apart-at p q (inr after) e = omega arith

pub State-Owned :
    {m : Memory} {heads : List Ptr} {ps : Pieces} {fs : Files} {out : Pieces}
    → State m heads ps fs out
    → Owned ps fs
State-Owned s c n i = let (p, is, free, at, _, _) = s.owned c n i in (p, is, free, at)

module _ (h : Heap) {ps : Pieces} {fs : Files} {out : Pieces}
    (s : State h.memory h.g_class ps fs out) (q : Piece) (is : ps q) (free : q.used ≡ false) where
  -- A listed block off its list.
  pub State-remove :
      (out q → ⊥)
      → let h' = list_remove q.at q.size h in
        (fs' : Files) × State h'.memory h'.g_class ps fs' (λ p. out p ⊎ (p ≡ q))
        × ((x : Ptr) → OffLinks fs x → h'.memory x ≡ h.memory x)
        × ((x : Ptr) → OffLinks fs x → OffLinks fs' x)
  State-remove still =
      let h' = list_remove q.at q.size h in
      let on_list : Among q.at (fs (size_class q.size)) = elim (s.listed q is free) [
        | inl o ↦ absurd (still o)
        | inr i ↦ i
      ] in
      let (fs', f, t, same) = list_remove-Taken h fs q.at q.size s.filed on_list in
      (
        fs',
        record {
          layout = s.layout;
          tags = λ p p_is.
              Tagged-OffLinks p s.layout (State-Owned s) p_is h'.memory same (s.tags p p_is);
          filed = f;
          listed = λ p p_is p_free. elim (s.listed p p_is p_free) [
            | inl o ↦ inl (inl o)
            | inr i ↦ elim (s.layout.separate p q p_is is) [
              | inl e ↦ inl (inr e)
              | inr apart ↦ inr (t.kept (size_class p.size) p.at (Apart-at p q apart) i)
            ]
          ];
          owned = λ d n i.
              let (p, p_is, p_free, at, class, in_list) = s.owned d n (t.was d n i) in
              (
                p,
                p_is,
                p_free,
                at,
                class,
                λ o. elim o [
                  | inl o' ↦ in_list o'
                  | inr e ↦
                      t.gone d (
                        subst (λ (t : Ptr). Among t (fs' d)) (sym at ∙ ap (λ (t : Piece). t.at) e)
                          i)
                ],
              );
          merged = λ p p' p_is p'_is adj. elim (s.merged p p' p_is p'_is adj) [
            | inl o ↦ inl (inl o)
            | inr (inl o) ↦ inr (inl (inl o))
            | inr (inr u) ↦ inr (inr u)
          ];
        },
        same,
        λ x off d n i. off d n (t.was d n i),
      )

-- A free block that is out, on its list again: the neighbours of the block are in use.
pub State-insert :
    (h : Heap) {ps : Pieces} {fs : Files} (q : Piece)
    → State h.memory h.g_class ps fs (λ p. p ≡ q)
    → ps q
    → q.used ≡ false
    → ((p : Piece) → ps p → Adjacent p q ⊎ Adjacent q p → p.used ≡ true)
    → let h' = list_insert q.at q.size h in
      (fs' : Files) × State h'.memory h'.g_class ps fs' none_out
      × ((x : Ptr) → OffLinks fs' x → h'.memory x ≡ h.memory x)
State-insert h {ps} {fs} q s is free lone =
    let h' = list_insert q.at q.size h in
    let fit = s.layout.fits q is in
    let low = fit.low in
    let high = fit.high in
    let room = free-IsBlock fit free in
    let unlisted : (d : ℕ) → Among q.at (fs d) → ⊥ = λ d i.
      let (p, p_is, p_free, at, class, in_list) = s.owned d q.at i in
      in_list (same_piece s.layout p_is is at) in
    let (fs', f, t, same) =
      list_insert-Added h fs q.at q.size s.filed (room.2, omega arith, omega arith) unlisted in
    let owned : (d : ℕ) (n : Ptr)
        → Among n (fs' d)
        → (p : Piece) × ps p
          × (p.used ≡ false)
          × (p.at ≡ n)
          × (size_class p.size ≡ d)
          × (none_out p → ⊥) =
      λ d n i. elim (t.came d n i) [
        | inl (n_is, d_is) ↦ (q, is, free, sym n_is, sym d_is, λ o. o)
        | inr j ↦
            let (p, p_is, p_free, at, class, _) = s.owned d n j in
            (p, p_is, p_free, at, class, λ o. o)
      ] in
    let of : Owned ps fs' =
      λ d n i. let (p, p_is, p_free, at, _, _) = owned d n i in (p, p_is, p_free, at) in
    (
      fs',
      record {
        layout = s.layout;
        tags = λ p p_is. Tagged-OffLinks p s.layout of p_is h'.memory same (s.tags p p_is);
        filed = f;
        listed = λ p p_is p_free. elim (s.listed p p_is p_free) [
          | inl e ↦ inr (subst (λ (t : Piece). Among t.at (fs' (size_class t.size))) (sym e) t.here)
          | inr i ↦ inr (t.kept (size_class p.size) p.at i)
        ];
        owned = owned;
        merged = λ p p' p_is p'_is adj. elim (s.merged p p' p_is p'_is adj) [
          | inl e ↦
              inr (inr (inr (lone p' p'_is (inr (subst (λ (t : Piece). Adjacent t p') e adj)))))
          | inr (inl e) ↦
              inr (inr (inl (lone p p_is (inl (subst (λ (t : Piece). Adjacent p t) e adj)))))
          | inr (inr u) ↦ inr (inr u)
        ];
      },
      same,
    )
