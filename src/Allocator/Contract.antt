-- ===== src/Allocator/Contract.antt =====
-- The contract of C-Allocator/include/balloc.h, over the blocks in use: `balloc` adds one, `bfree`
-- takes one away, and between the calls the heap is sound and passes `balloc_check`.
pub mod Calloc
pub mod Realloc
pub mod Reset
pub mod Paired
use foundations_lab.Base.{
  ℕ, suc, ◌+◌, ◌-◌, ◌*◌, ◌/◌, ◌%◌, ◌^◌, ◌≤◌, ◌<◌, ◌≡◌, ◌≢◌, ◌⊎◌, ◌↔◌, inl, inr, Bool, true, false,
  refl, ap, ap₂, sym, arith, ◌∙◌, subst, ne→==, List, [], ◌∷◌, Option, none, some, length,
  false≢true, get_or, get_or-replicate_default, length-replicate, Among,
}
use Prim.Native.Nat.{max}
use foundations_lab.Allocator.Words.{word_end}
use foundations_lab.Allocator.Memory.{Ptr, Memory, Heap, start_heap}
use foundations_lab.Allocator.FreeLists.Chain.{Chain, ends}
use foundations_lab.Allocator.FreeLists.Longest.{longest}
use foundations_lab.Allocator.FreeLists.Filed.{Files, Filed}
use foundations_lab.Allocator.Grow.{chunk_total}
use foundations_lab.Allocator.Api.{adjusted, balloc, bfree, bcalloc, zero_bytes}
use foundations_lab.Allocator.Api.Alloc.{IsMapping, Allocated, Outcome, balloc-Allocated}
use foundations_lab.Allocator.Api.Free.{bfree-State}
use foundations_lab.Allocator.Api.Calloc.{
  bcalloc-overflow, bcalloc-fits, cleared, zero_bytes-inside, zero_bytes-outside,
}
use foundations_lab.Allocator.Check.{balloc_check, Verdict, sound}
use foundations_lab.Allocator.Check.Whole.{balloc_check-sound}
use foundations_lab.Allocator.Layout.{
  Piece, piece, end_of, IsBlock, Pieces, Layout, State, none_out,
}
use foundations_lab.Allocator.Layout.Chunks.{
  Chunks, IsChunk, ends, chunk, Chunks-Keeps, Chunks-stay,
}
use foundations_lab.Allocator.Layout.Cuts.{just}
use foundations_lab.Allocator.Layout.Payload.{Beside, State-payload}
use foundations_lab.Allocator.Layout.Keeps.{Keeps, SameContents, no_piece}

-- A heap between two calls.
pub record Sound (h : Heap) : Type 1 where
  pub pieces : Pieces
  pub files : Files
  pub chunks : List (Ptr × ℕ)
  pub state : State h.memory h.g_class pieces files none_out
  pub linked : Chunks h.memory pieces h.g_chunks chunks

-- A block in use: what the callers hold.
abbrev pub InUse : (h : Heap) → Sound h → Piece → Type 0
InUse h s p = s.pieces p × IsBlock p × (p.used ≡ true)

-- Fuel for the loops over the free lists and the chunks.
pub record HasFuel (h : Heap) (s : Sound h) (fuel : ℕ) : Type 0 where
  pub lists : (d : ℕ) → length (s.files d) < fuel
  pub regions : length s.chunks < fuel
  pub blocks : word_end ≤ fuel

-- The heap that the program starts with has no pieces.
unfoldable pub start_sound : (m : Memory) → Sound (start_heap m)
unfolding start_heap
start_sound m = record {
  pieces = no_piece;
  files = λ d. [];
  chunks = [];
  state = record {
    layout = record {
      fits = λ p is. absurd is;
      separate = λ p q is _. absurd is;
      next = λ p is _. absurd is;
      prev = λ p is _. absurd is;
    };
    tags = λ p is. absurd is;
    filed = record {
      count = refl;
      chains = λ d. Chain.ends (get_or-replicate_default 16 d 0);
      nodes = λ d. tt;
      alone = λ d. tt;
      apart = λ c d p i. elim i [ ];
    };
    listed = λ p is _. absurd is;
    owned = λ c n i. elim i [ ];
    merged = λ p q is _ _. absurd is;
  };
  linked = ends refl;
}

chunk_pointer :
    {m : Memory} {ps : Pieces} {at : Ptr} {cs : List (Ptr × ℕ)}
    → Layout ps
    → Chunks m ps at cs
    → at < word_end
chunk_pointer l (ends e) = omega arith
chunk_pointer l (chunk {region} e c size more) =
    let high = (l.fits (piece (region + 24) 8 true) c.prologue).high in omega arith

-- On a sound heap there is an amount of fuel that is enough for every loop.
pub enough_fuel :
    (h : Heap) (s : Sound h) → (bound : ℕ) × ((fuel : ℕ) → bound ≤ fuel → HasFuel h s fuel)
enough_fuel h s =
    let (bound, all) = longest s.state.filed in
    (
      bound + suc (length s.chunks) + word_end,
      λ fuel more. record {
        lists = λ d. (let short = all d in omega arith);
        regions = omega arith;
        blocks = omega arith;
      },
    )

-- For every sound heap there is a bound such that, with at least that much fuel, `balloc_check`
-- ends and returns 0.
pub Sound-check :
    (h : Heap) (s : Sound h)
    → (bound : ℕ) × ((fuel : ℕ) → bound ≤ fuel → balloc_check fuel h ≡ some sound)
Sound-check h s =
    let (bound, enough) = enough_fuel h s in
    (
      bound,
      λ fuel more.
          let f = enough fuel more in
          balloc_check-sound fuel h s.state f.lists f.blocks s.chunks s.linked f.regions,
    )

-- After `bfree` of a block in use in a sound heap, the heap is sound, the blocks in use are the
-- ones before without it, and each of them has the same contents.
pub bfree-InUse :
    (h : Heap) (s : Sound h) (b : Piece)
    → InUse h s b
    → let h' = bfree b.at h in
      (s' : Sound h') × ((p : Piece) → InUse h' s' p ↔ (InUse h s p × (p ≢ b)))
      × ((p : Piece) → InUse h' s' p → SameContents h.memory h'.memory p)
bfree-InUse h s b (is, room, used) =
    let (ps', fs', state, keeps, gone, chunks) = bfree-State h b s.state is used room in
    let h' = bfree b.at h in
    let was : (p : Piece) → ps' p → p.used ≡ true → s.pieces p =
      λ p p_is p_used. elim (keeps.only p p_is p_used) [ inl off ↦ absurd off | inr old ↦ old ] in
    let other : (p : Piece) → ps' p → p ≢ b = λ p p_is e. gone (subst ps' e p_is) in
    (
      record {
        pieces = ps';
        files = fs';
        chunks = s.chunks;
        state = state;
        linked =
            subst (λ (t : Ptr). Chunks h'.memory ps' t s.chunks) (sym chunks)
              (Chunks-Keeps h'.memory ps' s.linked keeps (λ p e. subst IsBlock (sym e) room));
      },
      (λ p. (
        (λ (p_is, p_room, p_used). ((was p p_is p_used, p_room, p_used), other p p_is)),
        (λ ((p_is, p_room, p_used), p_other).
            ((keeps.kept p p_is p_used p_other).0, p_room, p_used)),
      )),
      (λ p (p_is, p_room, p_used). (keeps.kept p (was p p_is p_used) p_used (other p p_is)).1),
    )

-- A request of 1 to 2 ^ 62 - 1 bytes on a sound heap, with fuel for the longest free list and an
-- mmap that gives page-aligned regions apart from the pieces and the chunks: `balloc` ends. Either
-- it gives NULL and the heap as it was, mmap has failed, and every free block is smaller than the
-- block asked for; or the heap is sound, the blocks in use are those before and one at the result,
-- which is 16-byte aligned, was not in use, and has room for the request, and each block that was
-- in use has the same contents.
pub balloc-InUse :
    (mmap : ℕ → Option Ptr) (h : Heap) (s : Sound h) (fuel size : ℕ)
    → 0 < size
    → size < 2 ^ 62
    → ((d : ℕ) → length (s.files d) < fuel)
    → ((region : ℕ)
        → mmap (chunk_total (adjusted size)) ≡ some region
        → IsMapping s.pieces s.chunks region (chunk_total (adjusted size)))
    → (p : Ptr) × (h' : Heap) × (balloc mmap fuel size h ≡ some (p, h'))
      × (((p ≡ 0)
            × (h' ≡ h)
            × (mmap (chunk_total (adjusted size)) ≡ none)
            × ((b : Piece) → s.pieces b → b.used ≡ false → b.size < adjusted size))
          ⊎ ((s' : Sound h') × (b : Piece) × (b.at ≡ p)
              × (p % 16 ≡ 0)
              × (size + 16 ≤ b.size)
              × (InUse h s b → ⊥)
              × ((q : Piece) → InUse h' s' q ↔ (InUse h s q ⊎ (q ≡ b)))
              × ((q : Piece) → InUse h s q → SameContents h.memory h'.memory q)))
balloc-InUse mmap h s fuel size asked small enough maps =
    let ((p, h'), result, outcome) =
      balloc-Allocated mmap h s.chunks fuel size s.state s.linked asked small
        (chunk_pointer s.state.layout s.linked) enough maps in
    (
      p,
      h',
      result,
      elim outcome [
        | inl failed ↦ inl failed
        | inr a ↦
            let (cs', linked, _) = a.linked in
            let s' : Sound h' = record {
              pieces = a.pieces;
              files = a.files;
              chunks = cs';
              state = a.state;
              linked = linked;
            } in
            let taken : InUse h' s' a.taken = (a.is, a.room, a.used) in
            let room = a.room in
            inr (
              s',
              a.taken,
              a.at,
              omega (arith, a.at),
              a.wide,
              (λ (is, _, _). a.fresh is),
              (λ q. (
                (λ (is, q_room, used). elim (a.only q is used q_room) [
                  | inl e ↦ inr e
                  | inr old ↦ inl (old, q_room, used)
                ]),
                (λ c. elim c [
                  | inl (is, q_room, used) ↦ ((a.kept q is used).0, q_room, used)
                  | inr e ↦ subst (InUse h' s') (sym e) taken
                ]),
              )),
              (λ q (is, _, used). (a.kept q is used).1),
            )
      ],
    )

-- A heap with the payload of a block in use written.
abbrev pub overwritten :
    (h : Heap) (s : Sound h) (b : Piece)
    → InUse h s b
    → (m' : Memory) → ((x : Ptr) → Beside b x → m' x ≡ h.memory x)
    → Sound (record h { memory = m' })
overwritten h s b (is, room, used) m' same = record {
  pieces = s.pieces;
  files = s.files;
  chunks = s.chunks;
  state = State-payload s.state b is used room m' same;
  linked =
      Chunks-stay m' s.pieces s.linked
        (λ c x _ _ off. (
          off,
          same x (elim (off b is) [ inl low ↦ inl (omega arith) | inr high ↦ inr (omega arith) ]),
        ))
        (λ c is. is);
}

-- The payloads of the other blocks in use stay.
pub overwritten_contents :
    (h : Heap) (s : Sound h) (b q : Piece)
    → InUse h s b
    → InUse h s q
    → q ≢ b
    → (m' : Memory) → ((x : Ptr) → Beside b x → m' x ≡ h.memory x)
    → SameContents h.memory m' q
overwritten_contents h s b q (b_is, b_room, _) (q_is, q_room, _) other m' same x lo hi =
    same x (elim (s.state.layout.separate q b q_is b_is) [
      | inl e ↦ absurd (other e)
      | inr (inl before) ↦ inl (omega arith)
      | inr (inr after) ↦ inr (omega arith)
    ])
