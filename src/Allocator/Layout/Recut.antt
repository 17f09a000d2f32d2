-- ===== src/Allocator/Layout/Recut.antt =====
-- The heap of C-Allocator/src/balloc.c when the tags within one stretch of memory are written anew:
-- the pieces outside the stretch stay, and those inside give way to new ones.
use foundations_lab.Base.{
  ℕ, ◌+◌, ◌-◌, ◌≤◌, ◌<◌, ◌≡◌, ◌≢◌, ◌⊎◌, inl, inr, true, false, sym, arith, List, ◌∙◌, false≢true,
}
use foundations_lab.Allocator.Memory.{Ptr, Memory}
use foundations_lab.Allocator.FreeLists.Chain.{Chain-frame}
use foundations_lab.Allocator.FreeLists.Filed.{Files}
use foundations_lab.Allocator.Layout.{
  Piece, end_of, Tagged, Fits, Apart, Pieces, Layout, After, Before, State,
}
use foundations_lab.Allocator.Layout.Pieces.{free-IsBlock}

abbrev pub Outside : (lo hi : ℕ) → Piece → Type 0
Outside lo hi p = (end_of p ≤ lo) ⊎ (hi ≤ p.at)

abbrev pub Inside : (lo hi : ℕ) → Piece → Type 0
Inside lo hi p = (lo ≤ p.at) × (end_of p ≤ hi)

abbrev pub Rest : Pieces → (lo hi : ℕ) → Pieces
Rest ps lo hi p = ps p × Outside lo hi p

abbrev pub Recut : Pieces → Pieces → (lo hi : ℕ) → Pieces
Recut ps new lo hi p = new p ⊎ Rest ps lo hi p

-- The pieces `new` fill the stretch from `lo` to `hi` as the pieces `ps` did.
pub record Cut (ps new : Pieces) (lo hi : ℕ) : Type 0 where
  pub parts : (p : Piece) → ps p → Outside lo hi p ⊎ Inside lo hi p
  pub fits : (p : Piece) → new p → Fits p
  pub within : (p : Piece) → new p → Inside lo hi p
  pub separate : (p q : Piece) → new p → new q → (p ≡ q) ⊎ Apart p q
  pub next : (p : Piece) → new p → 0 < p.size → After (Recut ps new lo hi) p
  pub prev : (p : Piece) → new p → p.size ≢ 8 → Before (Recut ps new lo hi) p
  pub starts : (q : Piece) → ps q → Inside lo hi q → q.at ≡ lo → (r : Piece) × new r × (r.at ≡ lo)
  pub ends :
      (q : Piece)
      → ps q
      → Inside lo hi q
      → 0 < q.size
      → q.at + q.size ≡ hi
      → (r : Piece) × new r × (0 < r.size) × (r.at + r.size ≡ hi)

module _ {ps new : Pieces} {lo hi : ℕ} (l : Layout ps) (c : Cut ps new lo hi) where
  rest_next : (p : Piece) → Rest ps lo hi p → 0 < p.size → After (Recut ps new lo hi) p
  rest_next p (is, out) some =
      let (q, q_is, q_at) = l.next p is some in
      elim (c.parts q q_is) [
        | inl q_out ↦ (q, inr (q_is, q_out), q_at)
        | inr q_in ↦ elim out [
          | inl before ↦
              let (r, r_is, r_at) = c.starts q q_is q_in (omega arith) in (r, inl r_is, omega arith)
          | inr after ↦ absurd (omega arith)
        ]
      ]

  rest_prev : (p : Piece) → Rest ps lo hi p → p.size ≢ 8 → Before (Recut ps new lo hi) p
  rest_prev p (is, out) no_prologue =
      let (q, q_is, q_some, q_end) = l.prev p is no_prologue in
      elim (c.parts q q_is) [
        | inl q_out ↦ (q, inr (q_is, q_out), q_some, q_end)
        | inr q_in ↦ elim out [
          | inl before ↦ absurd (omega arith)
          | inr after ↦
              let (r, r_is, r_some, r_end) = c.ends q q_is q_in q_some (omega arith) in
              (r, inl r_is, r_some, omega arith)
        ]
      ]

  crossed : (p q : Piece) → new p → Rest ps lo hi q → Apart p q
  crossed p q p_is (q_is, inl before) = let w = c.within p p_is in inr (omega arith)
  crossed p q p_is (q_is, inr after) = let w = c.within p p_is in inl (omega arith)

  pub Layout-Recut : Layout (Recut ps new lo hi)
  Layout-Recut = record {
    fits = λ p is. elim is [ inl n ↦ c.fits p n | inr r ↦ l.fits p r.0 ];
    separate = λ p q p_is q_is. elim p_is [
      | inl n ↦ elim q_is [ inl n' ↦ c.separate p q n n' | inr r' ↦ inr (crossed p q n r') ]
      | inr r ↦ elim q_is [
        | inl n' ↦ inr (elim (crossed q p n' r) [ inl b ↦ inr b | inr a ↦ inl a ])
        | inr r' ↦ l.separate p q r.0 r'.0
      ]
    ];
    next = λ p is some. elim is [ inl n ↦ c.next p n some | inr r ↦ rest_next p r some ];
    prev = λ p is other. elim is [ inl n ↦ c.prev p n other | inr r ↦ rest_prev p r other ];
  }

-- The tags of a piece outside the stretch are.
module _ {lo hi : ℕ} (p : Piece) (f : Fits p) where
  header-Outside : Outside lo hi p → (p.at - 8 + 8 < lo) ⊎ (hi ≤ p.at - 8 + 8)
  header-Outside (inl before) = let low = f.low in inl (omega arith)
  header-Outside (inr after) = let low = f.low in inr (omega arith)

  footer-Outside :
      0 < p.size → Outside lo hi p → (p.at + p.size - 16 + 8 < lo) ⊎ (hi ≤ p.at + p.size - 16 + 8)
  footer-Outside some out =
      let low = f.low in
      elim f.kind [
        | inl (_, inl none, _) ↦ absurd (omega arith)
        | inl (_, inr eight, _) ↦ elim out [ inl b ↦ inl (omega arith) | inr a ↦ inr (omega arith) ]
        | inr block ↦ elim out [ inl b ↦ inl (omega arith) | inr a ↦ inr (omega arith) ]
      ]

-- The tags of the new pieces are written, and no word outside the stretch.
pub State-Recut :
    {m : Memory} {heads : List Ptr} {ps new : Pieces} {fs : Files} {out : Pieces} {lo hi : ℕ}
    (m' : Memory) (out' : Pieces)
    → State m heads ps fs out
    → Cut ps new lo hi
    → ((p : Piece) → ps p → Inside lo hi p → out p ⊎ (p.used ≡ true))
    → ((p : Piece) → Rest ps lo hi p → out p ⊎ out' p → ⊥)
    → ((p : Piece) → new p → out' p ⊎ (p.used ≡ true))
    → ((p : Piece) → new p → Tagged m' p)
    → ((x : Ptr) → (x + 8 < lo) ⊎ (hi ≤ x + 8) → m' x ≡ m x)
    → State m' heads (Recut ps new lo hi) fs out'
State-Recut {m} {heads} {ps} {new} {fs} {out} {lo} {hi} m' out' s c cleared outer busy tagged same =
    record {
      layout = Layout-Recut s.layout c;
      tags = λ p is. elim is [
        | inl n ↦ tagged p n
        | inr (p_is, p_out) ↦
            let t = s.tags p p_is in
            record {
              header = same (p.at - 8) (header-Outside p (s.layout.fits p p_is) p_out) ∙ t.header;
              footer = λ some.
                  same (p.at + p.size - 16) (footer-Outside p (s.layout.fits p p_is) some p_out)
                  ∙ t.footer some;
            }
      ];
      filed = record {
        count = s.filed.count;
        chains = λ d. Chain-frame m' (s.filed.chains d) (λ n i.
            let (p, p_is, p_free, at, class, in_list) = s.owned d n i in
            let room = free-IsBlock (s.layout.fits p p_is) p_free in
            elim (kept p p_is p_free in_list) [
              | inl b ↦ (same n (inl (omega arith)), same (n + 8) (inl (omega arith)))
              | inr a ↦ (same n (inr (omega arith)), same (n + 8) (inr (omega arith)))
            ]);
        nodes = s.filed.nodes;
        alone = s.filed.alone;
        apart = s.filed.apart;
      };
      listed = λ p is free. elim is [
        | inl n ↦ elim (busy p n) [ inl o ↦ inl o | inr u ↦ absurd (false≢true (sym free ∙ u)) ]
        | inr r ↦ elim (s.listed p r.0 free) [ inl o ↦ absurd (outer p r (inl o)) | inr i ↦ inr i ]
      ];
      owned = λ d n i.
          let (p, p_is, p_free, at, class, in_list) = s.owned d n i in
          let r : Rest ps lo hi p = (p_is, kept p p_is p_free in_list) in
          (p, inr r, p_free, at, class, λ o. outer p r (inr o));
      merged = λ p q p_is q_is adj. elim p_is [
        | inl n ↦ elim (busy p n) [ inl o ↦ inl o | inr u ↦ inr (inr (inl u)) ]
        | inr r ↦ elim q_is [
          | inl n ↦ elim (busy q n) [ inl o ↦ inr (inl o) | inr u ↦ inr (inr (inr u)) ]
          | inr r' ↦ elim (s.merged p q r.0 r'.0 adj) [
            | inl o ↦ absurd (outer p r (inl o))
            | inr (inl o) ↦ absurd (outer q r' (inl o))
            | inr (inr u) ↦ inr (inr u)
          ]
        ]
      ];
    }
  where
    -- A listed block is outside the stretch.
    kept : (p : Piece) → ps p → p.used ≡ false → (out p → ⊥) → Outside lo hi p
    kept p is free in_list = elim (c.parts p is) [
      | inl o ↦ o
      | inr i ↦ elim (cleared p is i) [
        | inl o ↦ absurd (in_list o)
        | inr u ↦ absurd (false≢true (sym free ∙ u))
      ]
    ]
