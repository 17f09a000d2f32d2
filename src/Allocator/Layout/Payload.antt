-- ===== src/Allocator/Layout/Payload.antt =====
-- The heap of C-Allocator/src/balloc.c when the payload of a block in use is written: `memset`, `memcpy`
-- and whatever the callers do with their blocks.
use foundations_lab.Base.{
  ◌+◌, ◌-◌, ◌≤◌, ◌<◌, ◌≡◌, ◌⊎◌, inl, inr, true, ap, sym, arith, ◌∙◌, List, false≢true,
}
use foundations_lab.Allocator.Memory.{Ptr, Memory}
use foundations_lab.Allocator.FreeLists.Chain.{Chain-frame}
use foundations_lab.Allocator.FreeLists.Filed.{Files}
use foundations_lab.Allocator.Layout.{Piece, IsBlock, Pieces, State}
use foundations_lab.Allocator.Layout.Pieces.{free-IsBlock}

-- The words outside the payload of `b`.
abbrev pub Beside : Piece → Ptr → Type 0
Beside b x = (x < b.at) ⊎ (b.at + b.size ≤ x + 16)

module _ {m : Memory} {heads : List Ptr} {ps : Pieces} {fs : Files} {out : Pieces}
    (s : State m heads ps fs out) (b : Piece) (is : ps b) (used : b.used ≡ true)
    (room : IsBlock b) where
  tags-Beside :
      (p : Piece) → ps p → Beside b (p.at - 8) × (0 < p.size → Beside b (p.at + p.size - 16))
  tags-Beside p p_is =
      let low = (s.layout.fits p p_is).low in
      elim (s.layout.separate p b p_is is) [
        | inl e ↦
            let at = ap (λ (t : Piece). t.at) e in
            let size = ap (λ (t : Piece). t.size) e in (inl (omega arith), λ _. inr (omega arith))
        | inr (inl before) ↦ (inl (omega arith), λ _. inl (omega arith))
        | inr (inr after) ↦ (inr (omega arith), λ _. inr (omega arith))
      ]

  -- The heap keeps its pieces.
  pub State-payload :
      (m' : Memory) → ((x : Ptr) → Beside b x → m' x ≡ m x) → State m' heads ps fs out
  State-payload m' same = record {
    layout = s.layout;
    tags = λ p p_is.
        let t = s.tags p p_is in
        let (head, foot) = tags-Beside p p_is in
        record {
          header = same (p.at - 8) head ∙ t.header;
          footer = λ real. same (p.at + p.size - 16) (foot real) ∙ t.footer real;
        };
    filed = record {
      count = s.filed.count;
      chains = λ d. Chain-frame m' (s.filed.chains d) (λ n i.
          let (p, p_is, p_free, at, _, _) = s.owned d n i in
          let p_room = free-IsBlock (s.layout.fits p p_is) p_free in
          elim (s.layout.separate p b p_is is) [
            | inl e ↦ absurd (false≢true (sym p_free ∙ ap (λ (t : Piece). t.used) e ∙ used))
            | inr (inl before) ↦ (same n (inl (omega arith)), same (n + 8) (inl (omega arith)))
            | inr (inr after) ↦ (same n (inr (omega arith)), same (n + 8) (inr (omega arith)))
          ]);
      nodes = s.filed.nodes;
      alone = s.filed.alone;
      apart = s.filed.apart;
    };
    listed = s.listed;
    owned = s.owned;
    merged = s.merged;
  }
