-- ===== src/Allocator/FreeLists/Chain.antt =====
-- What a free list of C-Allocator/src/balloc.c is: the nodes in order, each with its two links, and
-- what a write elsewhere leaves of it.
use foundations_lab.Base.{◌+◌, ◌%◌, ◌<◌, ◌≡◌, refl, List, [], ◌∷◌, Among, first, later}
use foundations_lab.Allocator.Words.{word_end}
use foundations_lab.Allocator.Memory.{Ptr, Memory}

-- The nodes `ps` stand behind `prev` and the pointer `at`, and the last one's `next` is NULL.
pub data Chain (m : Memory) : (prev at : Ptr) → List Ptr → Type 0 where
  ends : {prev at : Ptr} → at ≡ 0 → Chain m prev at []
  node :
      {prev at p : Ptr} {ps : List Ptr}
      → at ≡ p
      → m (p + 8) ≡ prev
      → Chain m p (m p) ps
      → Chain m prev at (p ∷ ps)

-- A node is a payload: 16-byte aligned, not NULL, an address.
abbrev pub IsNode : Ptr → Type 0
IsNode p = (p % 16 ≡ 0) × (0 < p) × (p + 8 < word_end)

-- What stands at the links of `p` in one memory and in another.
abbrev pub SameLinks : Memory → Memory → Ptr → Type 0
SameLinks m m' p = (m' p ≡ m p) × (m' (p + 8) ≡ m (p + 8))

-- A list survives any change that spares the links of its nodes.
pub Chain-frame :
    {m : Memory} {prev at : Ptr} {ps : List Ptr} (m' : Memory)
    → Chain m prev at ps
    → ((p : Ptr) → Among p ps → SameLinks m m' p)
    → Chain m' prev at ps
Chain-frame m' (ends e) same = ends e
Chain-frame m' (node {p} {ps} e back rest) same =
    let (same_next, same_prev) = same p (first refl) in
    node e (rw same_prev back) (rw same_next (Chain-frame m' rest (λ q i. same q (later i))))
