-- ===== src/Allocator/Layout/Halves.antt =====
-- A block of C-Allocator/src/balloc.c parted in two: a front block in use and a free rest.
use foundations_lab.Base.{
  ℕ, ◌+◌, ◌-◌, ◌%◌, ◌≤◌, ◌<◌, ◌≡◌, ◌≢◌, ◌⊎◌, inl, inr, true, false, refl, ap, sym, arith, ◌∙◌,
  subst, List, false≢true,
}
use foundations_lab.Allocator.Memory.{Ptr, Heap}
use foundations_lab.Allocator.FreeLists.Filed.{Files}
use foundations_lab.Allocator.Coalesce.{put_tags}
use foundations_lab.Allocator.Layout.{
  Piece, piece, Tagged, IsBlock, Fits, Apart, Pieces, Layout, After, Before, State,
}
use foundations_lab.Allocator.Layout.Recut.{Outside, Inside, Rest, Recut, Cut, State-Recut}
use foundations_lab.Allocator.Layout.Reads.{put_tags-Tagged}
use foundations_lab.Allocator.Layout.Keeps.{Keeps, Keeps-Recut, no_piece}
use foundations_lab.Allocator.Layout.Cuts.{just, block_parts, inside_block}
use foundations_lab.Allocator.Layout.Merge.{Off-block, not_both}

module _ (b : Piece) (asize : ℕ) where
  abbrev pub front : Piece
  front = piece b.at asize true

  abbrev pub rest : Piece
  rest = piece (b.at + asize) (b.size - asize) false

  abbrev pub Halves : Pieces
  Halves p = (p ≡ front) ⊎ (p ≡ rest)

  abbrev pub halved : Pieces → Pieces
  halved ps = Recut ps Halves b.at (b.at + b.size)

-- The sizes with which the code parts a block.
pub record Parts (b : Piece) (asize : ℕ) : Type 0 where
  pub room : IsBlock b
  pub aligned : asize % 16 ≡ 0
  pub wide : 32 ≤ asize
  pub left : 32 ≤ b.size - asize

module _ {ps : Pieces} (b : Piece) (asize : ℕ) (l : Layout ps) (is : ps b) (c : Parts b asize) where
  pub halves_room : IsBlock (front b asize) × IsBlock (rest b asize)
  halves_room =
      let aligned = c.aligned in
      let wide = c.wide in
      let left = c.left in
      let room = c.room in
      ((omega arith, omega arith, omega arith), (omega arith, omega arith, omega arith))

  pub halves_fit : Fits (front b asize) × Fits (rest b asize)
  halves_fit =
      let (front_room, rest_room) = halves_room in
      let low = (l.fits b is).low in
      let high = (l.fits b is).high in
      let left = c.left in
      (
        record { kind = inr front_room; low = low; high = omega arith },
        record { kind = inr rest_room; low = omega arith; high = omega arith },
      )

  halves_elim :
      (P : Pieces) → P (front b asize) → P (rest b asize) → (p : Piece) → Halves b asize p → P p
  halves_elim P f r p (inl e) = subst P (sym e) f
  halves_elim P f r p (inr e) = subst P (sym e) r

  pub Cut-halves : Cut ps (Halves b asize) b.at (b.at + b.size)
  Cut-halves =
      let room = c.room in
      let wide = c.wide in
      let left = c.left in
      let (front_fits, rest_fits) = halves_fit in
      let all = halves_elim in
      record {
        parts = block_parts b l is room;
        fits = all Fits front_fits rest_fits;
        within =
            all (Inside b.at (b.at + b.size)) (omega arith, omega arith) (omega arith, omega arith);
        separate = λ p q p_is q_is.
            all (λ p. (p ≡ q) ⊎ Apart p q)
              (all (λ q. (front b asize ≡ q) ⊎ Apart (front b asize) q) (inl refl)
                (inr (inl (omega arith))) q q_is)
              (all (λ q. (rest b asize ≡ q) ⊎ Apart (rest b asize) q) (inr (inr (omega arith)))
                (inl refl) q q_is)
              p p_is;
        next =
            all (λ p. 0 < p.size → After (halved b asize ps) p)
              (λ _. (rest b asize, inl (inr refl), refl))
              (λ _.
                let (q, q_is, q_at) = l.next b is (omega arith) in
                elim (block_parts b l is room q q_is) [
                  | inl out ↦ (q, inr (q_is, out), omega arith)
                  | inr q_in ↦ absurd (omega arith)
                ]);
        prev =
            all (λ p. p.size ≢ 8 → Before (halved b asize ps) p)
              (λ _.
                let (q, q_is, some, q_end) = l.prev b is (λ e. omega arith) in
                elim (block_parts b l is room q q_is) [
                  | inl out ↦ (q, inr (q_is, out), some, q_end)
                  | inr q_in ↦ absurd (omega arith)
                ])
              (λ _. (front b asize, inl (inl refl), omega arith, refl));
        starts = λ q q_is q_in q_at. (front b asize, inl refl, refl);
        ends = λ q q_is q_in some q_end. (rest b asize, inr refl, omega arith, omega arith);
      }

module _ (h : Heap) {ps : Pieces} {fs : Files} {out : Pieces} (b : Piece) (asize : ℕ)
    (s : State h.memory h.g_class ps fs out) (is : ps b) (c : Parts b asize) (free : b.used ≡ false)
    (ready : out b) (alone : (p : Piece) → out p → p ≡ b) where
  pub halves-State :
      let h' = put_tags (b.at + asize) (b.size - asize) 0 (put_tags b.at asize 1 h) in
      State h'.memory h'.g_class (halved b asize ps) fs (just (rest b asize))
      × Keeps h.memory ps h'.memory (halved b asize ps) no_piece (just (front b asize))
      × (h'.g_chunks ≡ h.g_chunks)
  halves-State =
      let u = front b asize in
      let r = rest b asize in
      let wide = c.wide in
      let left = c.left in
      let low = (s.layout.fits b is).low in
      let (u_room, r_room) = halves_room b asize s.layout is c in
      let (u_fits, r_fits) = halves_fit b asize s.layout is c in
      let cut = Cut-halves b asize s.layout is c in
      let h1 = put_tags b.at asize 1 h in
      let h2 = put_tags (b.at + asize) (b.size - asize) 0 h1 in
      let (u_tagged, same1, heads1, _, chunks1) = put_tags-Tagged h u 1 u_fits u_room refl in
      let (r_tagged, same2, heads2, _, chunks2) = put_tags-Tagged h1 r 0 r_fits r_room refl in
      let u_still : Tagged h2.memory u = record {
        header = same2 (b.at - 8) (λ e. omega arith) (λ e. omega arith) ∙ u_tagged.header;
        footer = λ some.
            same2 (b.at + asize - 16) (λ e. omega arith) (λ e. omega arith) ∙ u_tagged.footer some;
      } in
      let far : (x : Ptr) → (x + 8 < b.at) ⊎ (b.at + b.size ≤ x + 8) → h2.memory x ≡ h.memory x =
        λ x side. elim side [
          | inl below ↦
              same2 x (λ e. omega arith) (λ e. omega arith)
              ∙ same1 x (λ e. omega arith) (λ e. omega arith)
          | inr above ↦
              same2 x (λ e. omega arith) (λ e. omega arith)
              ∙ same1 x (λ e. omega arith) (λ e. omega arith)
        ] in
      let beside : (p d : Piece)
          → Rest ps b.at (b.at + b.size) p
          → p ≡ d
          → Inside b.at (b.at + b.size) d
          → ⊥ =
        λ p d (_, outside) e inside.
          not_both d (subst (Outside b.at (b.at + b.size)) e outside) inside in
      let state =
        State-Recut h2.memory (just r) s cut
          (λ p p_is inside.
            inl (subst out (sym (inside_block b p s.layout is c.room p_is inside)) ready))
          (λ p p_rest o. elim o [
            | inl old ↦ beside p b p_rest (alone p old) (omega arith, omega arith)
            | inr new ↦ beside p r p_rest new (omega arith, omega arith)
          ])
          (halves_elim b asize s.layout is c (λ p. (p ≡ r) ⊎ (p.used ≡ true)) (inr refl) (inl refl))
          (halves_elim b asize s.layout is c (Tagged h2.memory) u_still r_tagged) far in
      let keeps =
        Keeps-Recut h.memory h2.memory cut
          (λ p p_is inside used. false≢true (
            sym free
            ∙ sym (ap (λ (t : Piece). t.used) (inside_block b p s.layout is c.room p_is inside))
            ∙ used))
          (halves_elim b asize s.layout is c (λ p. p.used ≡ true → p ≡ u) (λ _. refl)
            (λ e. absurd (false≢true e)))
          far (λ x off. Off-block b x is c.room off) in
      (
        subst (λ (t : List Ptr). State h2.memory t (halved b asize ps) fs (just r))
            (sym (heads2 ∙ heads1)) state,
        keeps,
        chunks2 ∙ chunks1,
      )
