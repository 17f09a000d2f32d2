-- ===== src/Allocator/Layout/Cuts.antt =====
-- One block in the place of a row of pieces: a block marked anew, and blocks merged.
use foundations_lab.Base.{◌+◌, ◌≤◌, ◌≡◌, ◌⊎◌, inl, inr, Bool, refl, sym, arith, ◌∙◌, subst}
use foundations_lab.Allocator.Layout.{
  Piece, piece, IsBlock, Fits, Apart, Pieces, Layout, After, Before,
}
use foundations_lab.Allocator.Layout.Recut.{Outside, Inside, Recut, Cut}

abbrev pub just : Piece → Pieces
just d p = p ≡ d

-- A piece that does not overlap a row of blocks is beside it.
pub Outside-Apart : (p q : Piece) → 8 ≤ q.size → Apart p q → Outside q.at (q.at + q.size) p
Outside-Apart p q some (inl before) = inl before
Outside-Apart p q some (inr after) = inr (omega arith)

pub Cut-one :
    {ps : Pieces} (d a z : Piece)
    → Layout ps
    → Fits d
    → IsBlock d
    → ((p : Piece) → ps p → Outside d.at (d.at + d.size) p ⊎ Inside d.at (d.at + d.size) p)
    → ps a × IsBlock a × (a.at ≡ d.at)
    → ps z × IsBlock z × (z.at + z.size ≡ d.at + d.size)
    → Cut ps (just d) d.at (d.at + d.size)
Cut-one {ps} d a z l f room parts (a_is, a_room, a_at) (z_is, z_room, z_end) = record {
  parts = parts;
  fits = λ p e. subst Fits (sym e) f;
  within = λ p e. subst (Inside d.at (d.at + d.size)) (sym e) (omega arith, omega arith);
  separate = λ p q e e'. inl (e ∙ sym e');
  next = λ p e _. subst (After (Recut ps (just d) d.at (d.at + d.size))) (sym e) after;
  prev = λ p e _. subst (Before (Recut ps (just d) d.at (d.at + d.size))) (sym e) before;
  starts = λ q q_is q_in q_at. (d, refl, refl);
  ends = λ q q_is q_in some q_end. (d, refl, omega arith, refl);
}
  where
    after : After (Recut ps (just d) d.at (d.at + d.size)) d
    after =
        let (q, q_is, q_at) = l.next z z_is (omega arith) in
        elim (parts q q_is) [
          | inl out ↦ (q, inr (q_is, out), omega arith)
          | inr q_in ↦ absurd (omega arith)
        ]

    before : Before (Recut ps (just d) d.at (d.at + d.size)) d
    before =
        let (q, q_is, some, q_end) = l.prev a a_is (λ e. omega arith) in
        elim (parts q q_is) [
          | inl out ↦ (q, inr (q_is, out), some, omega arith)
          | inr q_in ↦ absurd (omega arith)
        ]

-- The parts of a heap around one of its blocks.
pub block_parts :
    {ps : Pieces} (b : Piece)
    → Layout ps
    → ps b
    → IsBlock b
    → (p : Piece) → ps p
    → Outside b.at (b.at + b.size) p ⊎ Inside b.at (b.at + b.size) p
block_parts b l b_is room p is = elim (l.separate p b is b_is) [
  | inl e ↦ inr (subst (Inside b.at (b.at + b.size)) (sym e) (omega arith, omega arith))
  | inr apart ↦ inl (Outside-Apart p b (omega arith) apart)
]

-- A piece within one of the blocks is that block.
pub inside_block :
    {ps : Pieces} (b p : Piece)
    → Layout ps
    → ps b
    → IsBlock b
    → ps p
    → Inside b.at (b.at + b.size) p
    → p ≡ b
inside_block b p l b_is room is inside = elim (l.separate p b is b_is) [
  | inl e ↦ e
  | inr (inl before) ↦ absurd (omega arith)
  | inr (inr after) ↦ absurd (omega arith)
]

-- Another tag on one of the blocks.
pub Cut-retag :
    {ps : Pieces} (b : Piece) (used : Bool)
    → Layout ps
    → ps b
    → IsBlock b
    → let d = piece b.at b.size used in Fits d × Cut ps (just d) b.at (b.at + b.size)
Cut-retag b used l is room =
    let f = l.fits b is in
    let fits : Fits (piece b.at b.size used) = record {
      kind = inr room;
      low = f.low;
      high = f.high;
    } in
    (
      fits,
      Cut-one (piece b.at b.size used) b b l fits room (block_parts b l is room) (is, room, refl)
          (is, room, refl),
    )
