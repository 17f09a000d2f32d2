-- ===== src/Allocator/Layout/Merge.antt =====
-- Free blocks in a row, off their lists, become one.
use foundations_lab.Base.{
  ℕ, ◌+◌, ◌-◌, ◌≤◌, ◌<◌, ◌≡◌, ◌≢◌, ◌⊎◌, inl, inr, false, ap, sym, arith, ◌∙◌, subst, List,
  false≢true,
}
use foundations_lab.Allocator.Memory.{Ptr, Memory}
use foundations_lab.Allocator.FreeLists.Filed.{Files}
use foundations_lab.Allocator.Layout.{Piece, Tagged, IsBlock, Fits, Pieces, State}
use foundations_lab.Allocator.Layout.Recut.{Outside, Inside, Recut, Cut, State-Recut}
use foundations_lab.Allocator.Layout.Keeps.{Keeps, Off, Keeps-Recut, no_piece}
use foundations_lab.Allocator.Layout.Cuts.{just, Cut-one}

-- Beside two stretches in a row is beside both.
pub Outside-join :
    {lo mid hi : ℕ} (p : Piece)
    → lo < mid
    → mid < hi
    → Outside lo mid p
    → Outside mid hi p
    → Outside lo hi p
Outside-join p h k (inl before) other = inl before
Outside-join p h k (inr after) (inl before) = absurd (omega arith)
Outside-join p h k (inr after) (inr after') = inr after'

-- No piece is both beside a stretch and in it.
pub not_both : {lo hi : ℕ} (p : Piece) → Outside lo hi p → Inside lo hi p → ⊥
not_both p (inl before) (low, high) = omega arith
not_both p (inr after) (low, high) = omega arith

-- The addresses outside two pieces in a row, below and above them.
pub Off-join :
    {lo mid hi : ℕ} (x : Ptr)
    → (x + 8 < lo) ⊎ (mid ≤ x + 8)
    → (x + 8 < mid) ⊎ (hi ≤ x + 8)
    → (x + 8 < lo) ⊎ (hi ≤ x + 8)
Off-join x (inl below) other = inl below
Off-join x (inr above) (inl below) = absurd (omega arith)
Off-join x (inr above) (inr above') = inr above'

-- And outside one of the blocks.
pub Off-block :
    {ps : Pieces} (b : Piece) (x : Ptr)
    → ps b
    → IsBlock b
    → Off ps x
    → (x + 8 < b.at) ⊎ (b.at + b.size ≤ x + 8)
Off-block b x is room off = elim (off b is) [
  | inl below ↦ inl below
  | inr above ↦ inr (omega arith)
]

module _ {m : Memory} {heads : List Ptr} {ps : Pieces} {fs : Files} {out : Pieces}
    (s : State m heads ps fs out) (d a z : Piece) (room : IsBlock d) (free : d.used ≡ false)
    (a_is : ps a) (a_room : IsBlock a) (a_at : a.at ≡ d.at) (z_is : ps z) (z_room : IsBlock z)
    (z_end : z.at + z.size ≡ d.at + d.size)
    (row : (p : Piece)
      → ps p
      → Outside d.at (d.at + d.size) p ⊎ (Inside d.at (d.at + d.size) p × out p))
    (held : (p : Piece) → ps p → out p → Inside d.at (d.at + d.size) p × (p.used ≡ false)) where
  merged-Fits : Fits d
  merged-Fits =
      let low = (s.layout.fits a a_is).low in
      let high = (s.layout.fits z z_is).high in
      record { kind = inr room; low = omega arith; high = omega arith }

  merged-Cut : Cut ps (just d) d.at (d.at + d.size)
  merged-Cut =
      Cut-one d a z s.layout merged-Fits room
        (λ p is. elim (row p is) [ inl o ↦ inl o | inr i ↦ inr i.0 ]) (a_is, a_room, a_at)
        (z_is, z_room, z_end)

  module _ (m' : Memory) (tagged : Tagged m' d)
      (same : (x : Ptr) → x ≢ d.at - 8 → x ≢ d.at + d.size - 16 → m' x ≡ m x) where
    far : (x : Ptr) → (x + 8 < d.at) ⊎ (d.at + d.size ≤ x + 8) → m' x ≡ m x
    far x (inl low) = same x (λ e. omega arith) (λ e. omega arith)
    far x (inr high) = same x (λ e. omega arith) (λ e. omega arith)

    pub State-merge : State m' heads (Recut ps (just d) d.at (d.at + d.size)) fs (just d)
    State-merge =
        State-Recut m' (just d) s merged-Cut
          (λ p is inside. elim (row p is) [
            | inl outside ↦ absurd (not_both p outside inside)
            | inr i ↦ inl i.1
          ])
          (λ p (is, outside) o. elim o [
            | inl old ↦ not_both p outside (held p is old).0
            | inr new ↦
                not_both p outside
                  (subst (Inside d.at (d.at + d.size)) (sym new) (omega arith, omega arith))
          ])
          (λ p e. inl e) (λ p e. subst (Tagged m') (sym e) tagged) far

    pub Keeps-merge :
        ((x : Ptr) → Off ps x → (x + 8 < d.at) ⊎ (d.at + d.size ≤ x + 8))
        → Keeps m ps m' (Recut ps (just d) d.at (d.at + d.size)) no_piece no_piece
    Keeps-merge covers =
        Keeps-Recut m m' merged-Cut
          (λ p is inside used. elim (row p is) [
            | inl outside ↦ not_both p outside inside
            | inr i ↦ false≢true (sym (held p is i.1).1 ∙ used)
          ])
          (λ p e used. false≢true (sym free ∙ sym (ap (λ (t : Piece). t.used) e) ∙ used)) far covers
