-- ===== src/Allocator/Layout/Keeps.antt =====
-- What the callers of C-Allocator/src/balloc.c see of a change of the heap: the pieces in use, and
-- the words of their payloads.
use foundations_lab.Base.{ℕ, ◌+◌, ◌≤◌, ◌<◌, ◌≡◌, ◌⊎◌, inl, inr, true, sym, arith, ◌∙◌, false≢true}
use foundations_lab.Allocator.Memory.{Ptr, Memory}
use foundations_lab.Allocator.FreeLists.Filed.{Files}
use foundations_lab.Allocator.FreeLists.Refiled.{OffLinks}
use foundations_lab.Allocator.Layout.{Piece, end_of, Pieces, Layout}
use foundations_lab.Allocator.Layout.Pieces.{Owned, free-IsBlock, piece-OffLinks}
use foundations_lab.Allocator.Layout.Recut.{Inside, Recut, Cut}

-- The words of the payload are the same.
abbrev pub SameContents : Memory → Memory → Piece → Type 0
SameContents m m' p = (x : Ptr) → p.at ≤ x → x + 16 < p.at + p.size → m' x ≡ m x

-- An address of no piece: of the list of chunks, or outside the heap.
abbrev pub Off : Pieces → Ptr → Type 0
Off ps x = (p : Piece) → ps p → (x + 8 < p.at) ⊎ (end_of p ≤ x + 8)

-- Every piece in use but those of `but` stays with its contents, no others come but `more`, and
-- the words outside the pieces stay as well.
pub record Keeps (m : Memory) (ps : Pieces) (m' : Memory) (ps' : Pieces) (but more : Pieces)
    : Type 0 where
  pub kept : (p : Piece) → ps p → p.used ≡ true → (but p → ⊥) → ps' p × SameContents m m' p
  pub only : (p : Piece) → ps' p → p.used ≡ true → more p ⊎ ps p
  pub rest : (x : Ptr) → Off ps x → Off ps' x × (m' x ≡ m x)

abbrev pub no_piece : Pieces
no_piece p = ⊥

pub Keeps-trans :
    {m1 m2 m3 : Memory} {a b c but more : Pieces}
    → Keeps m1 a m2 b no_piece no_piece
    → Keeps m2 b m3 c but more
    → Keeps m1 a m3 c but more
Keeps-trans k l = record {
  kept = λ p is used stays.
      let (is', same) = k.kept p is used (λ n. n) in
      let (is'', same') = l.kept p is' used stays in
      (is'', λ x lo hi. same' x lo hi ∙ same x lo hi);
  only = λ p is used. elim (l.only p is used) [
    | inl new ↦ inl new
    | inr old ↦ elim (k.only p old used) [ inl none ↦ absurd none | inr older ↦ inr older ]
  ];
  rest =
      λ x off. let (off', e) = k.rest x off in let (off'', e') = l.rest x off' in (off'', e' ∙ e);
}

pub Keeps-after :
    {m1 m2 m3 : Memory} {a b c but more : Pieces}
    → Keeps m1 a m2 b but more
    → Keeps m2 b m3 c no_piece no_piece
    → Keeps m1 a m3 c but more
Keeps-after k l = record {
  kept = λ p is used stays.
      let (is', same) = k.kept p is used stays in
      let (is'', same') = l.kept p is' used (λ n. n) in
      (is'', λ x lo hi. same' x lo hi ∙ same x lo hi);
  only =
      λ p is used. elim (l.only p is used) [ inl none ↦ absurd none | inr old ↦ k.only p old used ];
  rest =
      λ x off. let (off', e) = k.rest x off in let (off'', e') = l.rest x off' in (off'', e' ∙ e);
}

-- A word outside the pieces is no link.
Off-OffLinks :
    {ps : Pieces} {fs : Files} (x : Ptr) → Layout ps → Owned ps fs → Off ps x → OffLinks fs x
Off-OffLinks x l o off c n i =
    let (p, is, free, at) = o c n i in
    let room = free-IsBlock (l.fits p is) free in
    elim (off p is) [
      | inl below ↦ ((λ e. omega arith), (λ e. omega arith))
      | inr above ↦ ((λ e. omega arith), (λ e. omega arith))
    ]

-- A change of links alone.
pub Keeps-OffLinks :
    {ps : Pieces} {fs : Files} (m m' : Memory)
    → Layout ps
    → Owned ps fs
    → ((x : Ptr) → OffLinks fs x → m' x ≡ m x)
    → Keeps m ps m' ps no_piece no_piece
Keeps-OffLinks m m' l o same = record {
  kept = λ p is used _. (
    is,
    λ x lo hi. same x (
        piece-OffLinks p x l o is (omega arith) (omega arith)
          (λ free. absurd (false≢true (sym free ∙ used)))),
  );
  only = λ p is _. inr is;
  rest = λ x off. (off, same x (Off-OffLinks x l o off));
}

-- A change of the tags within a stretch.
pub Keeps-Recut :
    {ps new but more : Pieces} {lo hi : ℕ} (m m' : Memory)
    → Cut ps new lo hi
    → ((p : Piece) → ps p → Inside lo hi p → p.used ≡ true → but p)
    → ((p : Piece) → new p → p.used ≡ true → more p)
    → ((x : Ptr) → (x + 8 < lo) ⊎ (hi ≤ x + 8) → m' x ≡ m x)
    → ((x : Ptr) → Off ps x → (x + 8 < lo) ⊎ (hi ≤ x + 8))
    → Keeps m ps m' (Recut ps new lo hi) but more
Keeps-Recut {lo} {hi} m m' c cleared news same covers = record {
  kept = λ p is used stays. elim (c.parts p is) [
    | inl (inl before) ↦ (inr (is, inl before), λ x lo hi. same x (inl (omega arith)))
    | inl (inr after) ↦ (inr (is, inr after), λ x lo hi. same x (inr (omega arith)))
    | inr inside ↦ absurd (stays (cleared p is inside used))
  ];
  only = λ p is used. elim is [ inl n ↦ inl (news p n used) | inr r ↦ inr r.0 ];
  rest = λ x off. (
    (λ p is. elim is [
      | inl n ↦
          let (low, high) = c.within p n in
          elim (covers x off) [ inl below ↦ inl (omega arith) | inr above ↦ inr (omega arith) ]
      | inr r ↦ off p r.0
    ]),
    same x (covers x off),
  );
}
