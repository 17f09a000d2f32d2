-- ===== src/Allocator/Api/Alloc.antt =====
-- `balloc` of C-Allocator/src/balloc.c: a new block in use that is large enough, or NULL where no
-- free block is and the system gives no memory.
use foundations_lab.Base.{
  ℕ, ◌+◌, ◌*◌, ◌/◌, ◌%◌, ◌^◌, ◌≤◌, ◌<◌, ◌≡◌, ◌≢◌, ◌⊎◌, inl, inr, true, false, refl, ap, sym, arith,
  ◌∙◌, subst, List, ◌∷◌, Among, suc, Option, none, some, Option-cases, length, false≢true, ◌==◌,
  eq→==, ne→==, ltb, ltb→lt, ltb→le, Bool-cases, if◌then◌else◌,
}
use foundations_lab.Allocator.Words.{word_end, add64, add64-exact, align_up, align_up_sixteen}
use foundations_lab.Allocator.Memory.{Ptr, Heap}
use foundations_lab.Allocator.FreeLists.Filed.{Files}
use foundations_lab.Allocator.Grow.{chunk_total, grow}
use foundations_lab.Allocator.Grow.Chunk.{IsRegion, body}
use foundations_lab.Allocator.Grow.Grown.{grown, Clear}
use foundations_lab.Allocator.Grow.Total.{chunk_total_pages}
use foundations_lab.Allocator.Grow.Whole.{Grown, grow-Grown}
use foundations_lab.Allocator.Place.{place}
use foundations_lab.Allocator.Place.Fit.{find_fit-State}
use foundations_lab.Allocator.Place.Placed.{place-Placed}
use foundations_lab.Allocator.Api.{adjusted, place_fresh, balloc_block, balloc}
use foundations_lab.Allocator.Layout.{Piece, piece, IsBlock, Pieces, State, none_out}
use foundations_lab.Allocator.Layout.Chunks.{Chunks, chunk, Chunks-Keeps, Chunks-stay}
use foundations_lab.Allocator.Layout.Keeps.{SameContents}

-- What `mmap` promises of a region of `total` bytes: it is page-aligned, does not end past the
-- address space, and overlaps no piece and no header of a chunk.
pub record IsMapping (ps : Pieces) (cs : List (Ptr × ℕ)) (region total : ℕ) : Type 0 where
  pub aligned : region % 4096 ≡ 0
  pub real : 0 < region
  pub high : region + total + 8 < word_end
  pub clear : Clear ps region total
  pub beside : (c : Ptr × ℕ) → Among c cs → (c.0 + 16 < region) ⊎ (region + total ≤ c.0)

-- A sound heap with one more block in use, for a request of `size` bytes. The blocks in use before
-- are in use with the same contents, and there is no other.
pub record Allocated (h : Heap) (ps : Pieces) (cs : List (Ptr × ℕ)) (size : ℕ) (p : Ptr) (h' : Heap)
    : Type 1 where
  pub pieces : Pieces
  pub files : Files
  pub taken : Piece
  pub state : State h'.memory h'.g_class pieces files none_out
  pub is : pieces taken
  pub used : taken.used ≡ true
  pub at : taken.at ≡ p
  pub room : IsBlock taken
  pub wide : size + 16 ≤ taken.size
  pub fresh : ps taken → ⊥
  pub kept : (q : Piece) → ps q → q.used ≡ true → pieces q × SameContents h.memory h'.memory q
  pub linked :
      (cs' : List (Ptr × ℕ)) × Chunks h'.memory pieces h'.g_chunks cs'
      × (length cs' ≤ suc (length cs))
  pub only : (q : Piece) → pieces q → q.used ≡ true → IsBlock q → (q ≡ taken) ⊎ ps q

pub adjusted_bounds :
    (size : ℕ)
    → size + 31 < word_end
    → (adjusted size % 16 ≡ 0)
      × (32 ≤ adjusted size)
      × (size + 16 ≤ adjusted size)
      × (adjusted size ≤ size + 32)
unfolding adjusted
adjusted_bounds size h =
    let rounded : align_up (add64 size 16) 16 ≡ (size + 16 + 15) / 16 * 16 =
      ap (λ (t : ℕ). align_up t 16) (add64-exact size 16 (omega arith))
      ∙ align_up_sixteen (size + 16) (omega arith) in
    elim (Bool-cases (ltb (align_up (add64 size 16) 16) 32)) [
      | inl low ↦
          let bound = ltb→lt (align_up (add64 size 16) 16) 32 low in
          simp low (refl, omega arith, omega arith, omega arith)
      | inr high ↦
          let bound = ltb→le (align_up (add64 size 16) 16) 32 high in
          simp high (omega arith, omega arith, omega arith, omega arith)
    ]

-- What `balloc` gives for a block of `asize` bytes.
abbrev pub Outcome :
    (mmap : ℕ → Option Ptr) (h : Heap) (ps : Pieces) (cs : List (Ptr × ℕ)) (size asize : ℕ)
    → Ptr × Heap
    → Type 1
Outcome mmap h ps cs size asize (p, h') =
    ((p ≡ 0)
      × (h' ≡ h)
      × (mmap (chunk_total asize) ≡ none)
      × ((b : Piece) → ps b → b.used ≡ false → b.size < asize))
    ⊎ Allocated h ps cs size p h'

grow-none :
    (mmap : ℕ → Option Ptr) (asize : ℕ) (h : Heap)
    → mmap (chunk_total asize) ≡ none
    → grow mmap asize h ≡ (0, h)
unfolding grow
grow-none mmap asize h failed = rw (failed, grow) refl

place_fresh-none :
    (mmap : ℕ → Option Ptr) (asize : ℕ) (h : Heap)
    → mmap (chunk_total asize) ≡ none
    → place_fresh mmap asize h ≡ (0, h)
unfolding place_fresh
place_fresh-none mmap asize h failed =
    ap (λ (g : Ptr × Heap). if g.0 == 0 then (0, g.1) else place g.0 asize g.1)
      (grow-none mmap asize h failed)

place_fresh-some :
    (mmap : ℕ → Option Ptr) (asize : ℕ) (h : Heap)
    → (grow mmap asize h).0 ≢ 0
    → place_fresh mmap asize h ≡ place (grow mmap asize h).0 asize (grow mmap asize h).1
unfolding place_fresh
place_fresh-some mmap asize h real = rw (ne→== (grow mmap asize h).0 0 real) refl

module _ (mmap : ℕ → Option Ptr) (h : Heap) {ps : Pieces} {fs : Files} {cs : List (Ptr × ℕ)}
    (size asize : ℕ) (s : State h.memory h.g_class ps fs none_out)
    (chunks : Chunks h.memory ps h.g_chunks cs) (aligned : asize % 16 ≡ 0) (wide : 32 ≤ asize)
    (fits : size + 16 ≤ asize) (small : asize < 2 ^ 62 + 32) where
  -- A block from a free block of the heap.
  placed_Allocated :
      (b : Piece)
      → ps b
      → b.used ≡ false
      → asize ≤ b.size
      → let (p, h') = place b.at asize h in Allocated h ps cs size p h'
  placed_Allocated b is free enough =
      let p = place-Placed h b asize s is free aligned wide enough in
      let bound = p.wide in
      record {
        pieces = p.pieces;
        files = p.files;
        taken = p.taken;
        state = p.state;
        is = p.is;
        used = p.used;
        at = p.at;
        room = p.room;
        wide = omega arith;
        fresh = p.fresh;
        kept = λ q q_is q_used. p.keeps.kept q q_is q_used (λ n. n);
        linked = (
          cs,
          subst (λ (t : Ptr). Chunks (place b.at asize h).1.memory p.pieces t cs) (sym p.chunks)
              (Chunks-Keeps (place b.at asize h).1.memory p.pieces chunks p.keeps
                (λ _ none. absurd none)),
          omega arith,
        );
        only = λ q q_is q_used _. p.keeps.only q q_is q_used;
      }

  -- A block from a chunk that is new.
  chunk_Allocated :
      (region : ℕ) (h1 : Heap)
      → IsMapping ps cs region (chunk_total asize)
      → Grown h ps region (chunk_total asize) h1
      → let (p, h') = place (region + 32) asize h1 in Allocated h ps cs size p h'
  chunk_Allocated region h1 map g =
      let (pages, room, _) = chunk_total_pages asize (omega arith) in
      let p =
        place-Placed h1 (body region (chunk_total asize)) asize g.state (inl (inr (inl refl))) refl
          aligned wide (omega arith) in
      let bound = p.wide in
      record {
        pieces = p.pieces;
        files = p.files;
        taken = p.taken;
        state = p.state;
        is = p.is;
        used = p.used;
        at = p.at;
        room = p.room;
        wide = omega arith;
        fresh = λ old. p.fresh (inr (old, map.clear p.taken old));
        kept = λ q q_is q_used.
            let (q_grown, same) = g.kept q q_is q_used in
            let (q_still, same') = p.keeps.kept q q_grown q_used (λ n. n) in
            (q_still, λ x lo hi. same' x lo hi ∙ same x lo hi);
        linked = (
          (region, chunk_total asize) ∷ cs,
          subst
              (λ (t : Ptr).
                Chunks (place (region + 32) asize h1).1.memory p.pieces t
                  ((region, chunk_total asize) ∷ cs))
              (sym p.chunks)
              (Chunks-Keeps (place (region + 32) asize h1).1.memory p.pieces
                (chunk g.chunks
                  record {
                    aligned = omega (arith, map.aligned);
                    real = map.real;
                    prologue = inl (inl refl);
                    header = g.header;
                  }
                  g.linked.1
                  (subst (λ (t : Ptr). Chunks h1.memory (grown ps region (chunk_total asize)) t cs)
                    (sym g.linked.0)
                    (Chunks-stay h1.memory (grown ps region (chunk_total asize)) chunks
                      (λ c x i place off. g.rest x off (elim (map.beside c i) [
                        | inl below ↦ inl (elim place [ inl e ↦ omega arith | inr e ↦ omega arith ])
                        | inr above ↦ inr (elim place [ inl e ↦ omega arith | inr e ↦ omega arith ])
                      ]))
                      (λ c is. inr (is, map.clear (piece (c + 24) 8 true) is)))))
                p.keeps (λ _ none. absurd none)),
          omega arith,
        );
        only = λ q q_is q_used q_room. elim (p.keeps.only q q_is q_used) [
          | inl e ↦ inl e
          | inr (inr rest) ↦ inr rest.0
          | inr (inl (inl e)) ↦ absurd (let size = ap (λ (t : Piece). t.size) e in omega arith)
          | inr (inl (inr (inl e))) ↦
              absurd (false≢true (sym (ap (λ (t : Piece). t.used) e) ∙ q_used))
          | inr (inl (inr (inr e))) ↦
              absurd (let size = ap (λ (t : Piece). t.size) e in omega arith)
        ];
      }

  IsRegion-of :
      (region : ℕ)
      → IsMapping ps cs region (chunk_total asize)
      → IsRegion region (chunk_total asize)
  IsRegion-of region map =
      let (pages, room, enough) = chunk_total_pages asize (omega arith) in
      record {
        aligned = map.aligned;
        real = map.real;
        pages = pages;
        wide = enough;
        high = map.high;
      }

  module _ (linkable : h.g_chunks < word_end)
      (maps : (region : ℕ)
        → mmap (chunk_total asize) ≡ some region
        → IsMapping ps cs region (chunk_total asize)) where
    place_fresh-Outcome :
        ((b : Piece) → ps b → b.used ≡ false → b.size < asize)
        → Outcome mmap h ps cs size asize (place_fresh mmap asize h)
    place_fresh-Outcome full = elim (Option-cases (mmap (chunk_total asize))) [
      | inl failed ↦
          let e = place_fresh-none mmap asize h failed in
          inl (ap (λ (t : Ptr × Heap). t.0) e, ap (λ (t : Ptr × Heap). t.1) e, failed, full)
      | inr (region, given) ↦
          let map = maps region given in
          let (at, g) =
            grow-Grown mmap asize h region s given (IsRegion-of region map) map.clear linkable in
          let e = place_fresh-some mmap asize h (λ z. omega arith) in
          inr (
            subst (λ (t : Ptr × Heap). Allocated h ps cs size t.0 t.1) (sym e)
              (subst
                (λ (t : Ptr).
                  let (p, h') = place t asize (grow mmap asize h).1 in Allocated h ps cs size p h')
                (sym at) (chunk_Allocated region (grow mmap asize h).1 map g)))
    ]

    balloc_block-Outcome :
        (fuel : ℕ)
        → ((d : ℕ) → length (fs d) < fuel)
        → (r : Ptr × Heap) × (balloc_block mmap fuel asize h ≡ some r)
          × Outcome mmap h ps cs size asize r
    unfolding balloc_block
    balloc_block-Outcome fuel enough =
        let (n, found, fit) = find_fit-State fuel asize h s enough in
        elim fit [
          | inl (z, full) ↦
              (place_fresh mmap asize h, rw (found, eq→== n 0 z) refl, place_fresh-Outcome full)
          | inr (real, (b, is, free, at, room)) ↦ (
            place n asize h,
            rw (found, ne→== n 0 (λ z. omega arith)) refl,
            inr (
                subst (λ (t : Ptr). let (p, h') = place t asize h in Allocated h ps cs size p h') at
                  (placed_Allocated b is free room)),
          )
        ]

-- A request of some bytes ends, where the fuel is enough for the longest list. Either the block at
-- the pointer is new in the heap, aligned and large enough, and all that was in use stays; or the
-- pointer is NULL and the heap as it was, and then `mmap` failed and no free block was large enough.
pub balloc-Allocated :
    (mmap : ℕ → Option Ptr) (h : Heap) {ps : Pieces} {fs : Files} (cs : List (Ptr × ℕ))
    (fuel size : ℕ)
    → State h.memory h.g_class ps fs none_out
    → Chunks h.memory ps h.g_chunks cs
    → 0 < size
    → size < 2 ^ 62
    → h.g_chunks < word_end
    → ((d : ℕ) → length (fs d) < fuel)
    → ((region : ℕ)
        → mmap (chunk_total (adjusted size)) ≡ some region
        → IsMapping ps cs region (chunk_total (adjusted size)))
    → (r : Ptr × Heap) × (balloc mmap fuel size h ≡ some r)
      × Outcome mmap h ps cs size (adjusted size) r
unfolding balloc
balloc-Allocated mmap h cs fuel size s chunks asked small linkable enough maps =
    let (aligned, wide, fits, most) = adjusted_bounds size (omega arith) in
    rw (ne→== size 0 (λ z. omega arith)) (
      balloc_block-Outcome mmap h size (adjusted size) s chunks aligned wide fits (omega arith)
        linkable maps fuel enough)
