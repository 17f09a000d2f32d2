-- ===== src/Allocator/Layout/Chunks.antt =====
-- The list of chunks of C-Allocator/src/balloc.c, and what a change of the pieces leaves of it.
use foundations_lab.Base.{
  ℕ, ◌+◌, ◌%◌, ◌<◌, ◌≡◌, ◌⊎◌, inl, inr, true, refl, sym, arith, ◌∙◌, subst, List, [], ◌∷◌, Among,
  first, later,
}
use foundations_lab.Allocator.Memory.{Ptr, Memory}
use foundations_lab.Allocator.Layout.{Piece, piece, IsBlock, Pieces}
use foundations_lab.Allocator.Layout.Keeps.{Keeps, Off}

-- A chunk of the heap: its prologue is a piece, and no piece overlaps its header.
pub record IsChunk (ps : Pieces) (region : Ptr) : Type 0 where
  pub aligned : region % 16 ≡ 0
  pub real : 0 < region
  pub prologue : ps (piece (region + 24) 8 true)
  pub header : Off ps region × Off ps (region + 8)

-- The chunks from the pointer `at` on, each with the size of its region.
pub data Chunks (m : Memory) (ps : Pieces) : Ptr → List (Ptr × ℕ) → Type 0 where
  ends : {at : Ptr} → at ≡ 0 → Chunks m ps at []
  chunk :
      {at region total : Ptr} {rest : List (Ptr × ℕ)}
      → at ≡ region
      → IsChunk ps region
      → m (region + 8) ≡ total
      → Chunks m ps (m region) rest
      → Chunks m ps at ((region, total) ∷ rest)

-- The chunks stay where their prologues do and the words of their headers.
pub Chunks-stay :
    {m : Memory} {ps : Pieces} {at : Ptr} {cs : List (Ptr × ℕ)} (m' : Memory) (ps' : Pieces)
    → Chunks m ps at cs
    → ((c : Ptr × ℕ) (x : Ptr)
        → Among c cs
        → (x ≡ c.0) ⊎ (x ≡ c.0 + 8)
        → Off ps x
        → Off ps' x × (m' x ≡ m x))
    → ((c : Ptr) → ps (piece (c + 24) 8 true) → ps' (piece (c + 24) 8 true))
    → Chunks m' ps' at cs
Chunks-stay m' ps' (ends e) words prologues = ends e
Chunks-stay {m} m' ps' (chunk {region} {total} {rest} e c size more) words prologues =
    let (off, same) = words (region, total) region (first refl) (inl refl) c.header.0 in
    let (off', same') = words (region, total) (region + 8) (first refl) (inr refl) c.header.1 in
    chunk e
      record {
        aligned = c.aligned;
        real = c.real;
        prologue = prologues region c.prologue;
        header = (off, off');
      }
      (same' ∙ size)
      (subst (λ (t : Ptr). Chunks m' ps' t rest) (sym same)
        (Chunks-stay m' ps' more (λ d x i. words d x (later i)) prologues))

pub Chunks-Keeps :
    {m : Memory} {ps : Pieces} {at : Ptr} {cs : List (Ptr × ℕ)} {but more : Pieces} (m' : Memory)
    (ps' : Pieces)
    → Chunks m ps at cs
    → Keeps m ps m' ps' but more
    → ((p : Piece) → but p → IsBlock p)
    → Chunks m' ps' at cs
Chunks-Keeps m' ps' chunks keeps blocks =
    Chunks-stay m' ps' chunks (λ _ x _ _ off. keeps.rest x off)
      (λ c is.
        (keeps.kept (piece (c + 24) 8 true) is refl
          (λ b. absurd (let room = blocks (piece (c + 24) 8 true) b in omega arith))).0)
