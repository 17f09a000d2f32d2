-- ===== src/Allocator/Tests.antt =====
-- Runs of the allocator of C-Allocator/src/balloc.c, and the theorems about it on an empty heap and on
-- the heap after one call of `balloc`.
use foundations_lab.Base.{
  ℕ, ◌+◌, ◌-◌, ◌%◌, ◌^◌, ◌*◌, ◌≤◌, ◌<◌, ◌≡◌, ◌≢◌, ◌⊎◌, ◌↔◌, inl, inr, refl, sym, false, [], ◌∷◌,
  Option, none, some, none-ne-some, length, arith,
}
use foundations_lab.Allocator.Words.{word_end, align_up, sub64, add64, not64}
use foundations_lab.Allocator.Memory.{Heap, Ptr, Memory, put, start_heap}
use foundations_lab.Allocator.FreeLists.{size_class, list_insert, list_remove}
use foundations_lab.Allocator.FreeLists.Filed.{Files, Filed, refile, refile_self}
use foundations_lab.Allocator.FreeLists.Refiled.{OffLinks, list_insert-Filed, list_remove-Filed}
use foundations_lab.Allocator.Coalesce.{coalesce}
use foundations_lab.Allocator.Coalesce.Absorb.{Coalesced}
use foundations_lab.Allocator.Coalesce.Whole.{coalesce-Coalesced}
use foundations_lab.Allocator.Grow.{chunk_total}
use foundations_lab.Allocator.Grow.Chunk.{IsRegion, body, laid}
use foundations_lab.Allocator.Grow.Grown.{grown, chunk-State}
use foundations_lab.Allocator.Grow.Total.{chunk_total_pages}
use foundations_lab.Allocator.Api.{adjusted, balloc, bfree, bcalloc, brealloc, balloc_reset}
use foundations_lab.Allocator.Api.Adjusted.{adjusted_cases}
use foundations_lab.Allocator.Api.Alloc.{IsMapping}
use foundations_lab.Allocator.Check.{sound, balloc_check}
use foundations_lab.Allocator.Contract.{
  Sound, InUse, HasFuel, start_sound, enough_fuel, Sound-check, balloc-InUse, bfree-InUse,
}
use foundations_lab.Allocator.Contract.Calloc.{bcalloc-InUse}
use foundations_lab.Allocator.Contract.Realloc.{brealloc-InUse}
use foundations_lab.Allocator.Contract.Reset.{balloc_reset-start_heap}
use foundations_lab.Allocator.Contract.Paired.{bfree-balloc}
use foundations_lab.Allocator.Layout.{Piece}
use foundations_lab.Allocator.Layout.Keeps.{SameContents, no_piece}

-- A system that gives the region at 4096.
abbrev region_at : ℕ → Option Ptr
region_at total = some 4096

abbrev blank : Memory
blank a = 0

-- A system that has no more memory.
abbrev exhausted : ℕ → Option Ptr
exhausted total = none

total_100 : chunk_total (adjusted 100) ≡ 1048576
unfolding chunk_total adjusted align_up sub64 add64 not64
total_100 = refl

IsMapping-100 :
    (region : ℕ)
    → region_at (chunk_total (adjusted 100)) ≡ some region
    → IsMapping
        (start_sound blank).pieces
        (start_sound blank).chunks
        region
        (chunk_total (adjusted 100))
unfolding start_sound
IsMapping-100 region given =
    let at : region ≡ 4096 = some-injective (sym given) in
    record {
      aligned = omega arith;
      real = omega arith;
      high = omega (arith, total_100);
      clear = λ p is. absurd is;
      beside = λ c i. elim i [ ];
    }
  where
    some-injective : {a b : ℕ} → some a ≡ some b → a ≡ b
    some-injective e = cc

short_lists : (d : ℕ) → length ((start_sound blank).files d) < 1
unfolding start_sound
short_lists d = omega arith

first_call :
    (p : Ptr) × (h : Heap) × (balloc region_at 1 100 (start_heap blank) ≡ some (p, h))
    × (((p ≡ 0)
          × (h ≡ start_heap blank)
          × (region_at (chunk_total (adjusted 100)) ≡ none)
          × ((b : Piece) → (start_sound blank).pieces b → b.used ≡ false → b.size < adjusted 100))
        ⊎ ((s : Sound h) × (b : Piece) × (b.at ≡ p)
            × (p % 16 ≡ 0)
            × (100 + 16 ≤ b.size)
            × (InUse (start_heap blank) (start_sound blank) b → ⊥)
            × ((q : Piece)
                → InUse h s q ↔ (InUse (start_heap blank) (start_sound blank) q ⊎ (q ≡ b)))
            × ((q : Piece)
                → InUse (start_heap blank) (start_sound blank) q
                → SameContents (start_heap blank).memory h.memory q)))
first_call =
    balloc-InUse region_at (start_heap blank) (start_sound blank) 1 100 (omega arith) (omega arith)
      short_lists IsMapping-100

balloc-InUse_example :
    (p : Ptr) × (h : Heap) × (balloc region_at 1 100 (start_heap blank) ≡ some (p, h))
    × (((p ≡ 0)
          × (h ≡ start_heap blank)
          × (region_at (chunk_total (adjusted 100)) ≡ none)
          × ((b : Piece) → (start_sound blank).pieces b → b.used ≡ false → b.size < adjusted 100))
        ⊎ ((s : Sound h) × (b : Piece) × (b.at ≡ p)
            × (p % 16 ≡ 0)
            × (100 + 16 ≤ b.size)
            × (InUse (start_heap blank) (start_sound blank) b → ⊥)
            × ((q : Piece)
                → InUse h s q ↔ (InUse (start_heap blank) (start_sound blank) q ⊎ (q ≡ b)))
            × ((q : Piece)
                → InUse (start_heap blank) (start_sound blank) q
                → SameContents (start_heap blank).memory h.memory q)))
balloc-InUse_example =
    balloc-InUse region_at (start_heap blank) (start_sound blank) 1 100 (omega arith) (omega arith)
      short_lists IsMapping-100

-- The heap after the call, and the block that it gave.
abbrev one : Heap
one = first_call.1

held : (s : Sound one) × (b : Piece) × InUse one s b
held = elim first_call.3 [
  | inl (_, _, failed, _) ↦ absurd (none-ne-some (sym failed))
  | inr (s, b, _, _, _, _, both, _) ↦ (s, b, (both b).1 (inr refl))
]

enough : (bound : ℕ) × ((fuel : ℕ) → bound ≤ fuel → HasFuel one held.0 fuel)
enough = enough_fuel one held.0

bfree-InUse_example :
    (s : Sound (bfree held.1.at one)) × ((p : Piece)
      → InUse (bfree held.1.at one) s p ↔ (InUse one held.0 p × (p ≢ held.1)))
    × ((p : Piece)
        → InUse (bfree held.1.at one) s p
        → SameContents one.memory (bfree held.1.at one).memory p)
bfree-InUse_example = bfree-InUse one held.0 held.1 held.2

Sound-check_example : (bound : ℕ) × ((fuel : ℕ) → bound ≤ fuel → balloc_check fuel one ≡ some sound)
Sound-check_example = Sound-check one held.0

lists_of_one : (d : ℕ) → length (held.0.files d) < enough.0
lists_of_one = (enough.1 enough.0 (omega arith)).lists

no-IsMapping :
    (size region : ℕ)
    → exhausted (chunk_total (adjusted size)) ≡ some region
    → IsMapping held.0.pieces held.0.chunks region (chunk_total (adjusted size))
no-IsMapping size region given = absurd (none-ne-some given)

brealloc-InUse_example :
    (p : Ptr) × (h : Heap) × (brealloc exhausted enough.0 held.1.at 2000 one ≡ some (p, h))
    × (((2000 + 16 ≤ held.1.size) × (p ≡ held.1.at) × (h ≡ one))
        ⊎ ((held.1.size < 2000 + 16)
            × (((p ≡ 0)
                  × (h ≡ one)
                  × (exhausted (chunk_total (adjusted 2000)) ≡ none)
                  × ((c : Piece) → held.0.pieces c → c.used ≡ false → c.size < adjusted 2000))
                ⊎ ((s : Sound h) × (new : Piece) × (new.at ≡ p)
                    × (2000 + 16 ≤ new.size)
                    × ((q : Piece)
                        → InUse h s q ↔ ((InUse one held.0 q × (q ≢ held.1)) ⊎ (q ≡ new)))
                    × ((q : Piece)
                        → InUse one held.0 q
                        → q ≢ held.1
                        → SameContents one.memory h.memory q)
                    × ((i : ℕ)
                        → i + 16 < held.1.size
                        → h.memory (p + i) ≡ one.memory (held.1.at + i))))))
brealloc-InUse_example =
    brealloc-InUse exhausted one held.0 enough.0 2000 held.1 held.2 (omega arith) (omega arith)
      lists_of_one (no-IsMapping 2000)

bcalloc-InUse_example :
    (p : Ptr) × (h : Heap) × (bcalloc exhausted enough.0 10 20 one ≡ some (p, h))
    × (((p ≡ 0)
          × (h ≡ one)
          × ((word_end ≤ 10 * 20)
              ⊎ ((exhausted (chunk_total (adjusted (10 * 20))) ≡ none)
                  × ((c : Piece)
                      → held.0.pieces c
                      → c.used ≡ false
                      → c.size < adjusted (10 * 20)))))
        ⊎ ((10 * 20 < word_end)
            × ((s : Sound h) × (b : Piece) × (b.at ≡ p)
                × (10 * 20 + 16 ≤ b.size)
                × (InUse one held.0 b → ⊥)
                × ((q : Piece) → InUse h s q ↔ (InUse one held.0 q ⊎ (q ≡ b)))
                × ((q : Piece) → InUse one held.0 q → SameContents one.memory h.memory q)
                × ((x : Ptr) → p ≤ x → x + 8 ≤ p + 10 * 20 → h.memory x ≡ 0)
                × ((x : Ptr)
                    → p ≤ x
                    → x < p + 10 * 20
                    → p + 10 * 20 < x + 8
                    → h.memory x % 2 ^ (8 * (p + 10 * 20 - x)) ≡ 0))))
bcalloc-InUse_example =
    bcalloc-InUse exhausted one held.0 enough.0 10 20 (omega arith) (inl (omega arith)) lists_of_one
      (no-IsMapping (10 * 20))

balloc_reset-start_heap_example :
    balloc_reset enough.0 one ≡ some (held.0.chunks, start_heap one.memory)
balloc_reset-start_heap_example =
    balloc_reset-start_heap one held.0 enough.0 (enough.1 enough.0 (omega arith)).regions

adjusted_cases_example :
    (100 + 31 < word_end
      → (100 + 16 ≤ adjusted 100) × (adjusted 100 ≤ 100 + 32) × (adjusted 100 % 16 ≡ 0))
    × (word_end ≤ 100 + 31 → adjusted 100 ≡ 32)
adjusted_cases_example = adjusted_cases 100 (omega arith)

adjusted_largest : adjusted (word_end - 1) ≡ 32
unfolding adjusted align_up sub64 add64 not64
adjusted_largest = refl

chunk_total_pages_example :
    (chunk_total 3000000 % 4096 ≡ 0)
    × (3000000 + 56 ≤ chunk_total 3000000)
    × (4096 ≤ chunk_total 3000000)
chunk_total_pages_example = chunk_total_pages 3000000 (omega arith)

-- A block put on the empty lists, and taken off again.
abbrev no_files : Files
no_files d = []

no_files-Filed : Filed (start_heap blank).memory (start_heap blank).g_class no_files
unfolding start_sound
no_files-Filed = (start_sound blank).state.filed

inserted :
    let h' = list_insert 4128 64 (start_heap blank) in
    let fs' = refile no_files (size_class 64) (4128 ∷ no_files (size_class 64)) in
    Filed h'.memory h'.g_class fs'
    × ((x : Ptr) → OffLinks fs' x → h'.memory x ≡ (start_heap blank).memory x)
    × (h'.g_chunks ≡ (start_heap blank).g_chunks)
    × (h'.g_stats ≡ (start_heap blank).g_stats)
inserted =
    list_insert-Filed (start_heap blank) no_files 4128 64 no_files-Filed
      (omega arith, omega arith, omega arith) (λ d i. elim i [ ])

list_insert-Filed_example :
    let h' = list_insert 4128 64 (start_heap blank) in
    let fs' = refile no_files (size_class 64) (4128 ∷ no_files (size_class 64)) in
    Filed h'.memory h'.g_class fs'
    × ((x : Ptr) → OffLinks fs' x → h'.memory x ≡ (start_heap blank).memory x)
    × (h'.g_chunks ≡ (start_heap blank).g_chunks)
    × (h'.g_stats ≡ (start_heap blank).g_stats)
list_insert-Filed_example =
    list_insert-Filed (start_heap blank) no_files 4128 64 no_files-Filed
      (omega arith, omega arith, omega arith) (λ d i. elim i [ ])

abbrev listed_heap : Heap
listed_heap = list_insert 4128 64 (start_heap blank)

abbrev listed_files : Files
listed_files = refile no_files (size_class 64) (4128 ∷ [])

list_remove-Filed_example :
    let h' = list_remove 4128 64 listed_heap in
    Filed h'.memory h'.g_class (refile listed_files (size_class 64) [])
    × ((x : Ptr) → OffLinks listed_files x → h'.memory x ≡ listed_heap.memory x)
    × (h'.g_chunks ≡ listed_heap.g_chunks)
    × (h'.g_stats ≡ listed_heap.g_stats)
list_remove-Filed_example =
    list_remove-Filed listed_heap listed_files 4128 64 [] [] inserted.0
      (refile_self no_files (size_class 64) (4128 ∷ []))

-- The free block of a new chunk, before it is listed.
IsRegion-two_pages : IsRegion 4096 8192
IsRegion-two_pages = record {
  aligned = refl;
  real = omega arith;
  pages = refl;
  wide = omega arith;
  high = omega arith;
}

abbrev chunk_memory : Memory
chunk_memory = laid IsRegion-two_pages (put 4096 0 (put (4096 + 8) 8192 blank))

abbrev chunk_heap : Heap
unfolding start_heap
chunk_heap = record (start_heap blank) { memory = chunk_memory }

coalesce-Coalesced_example :
    let (bp, h') = coalesce 4128 chunk_heap in Coalesced chunk_heap (grown no_piece 4096 8192) bp h'
unfolding chunk_heap start_heap start_sound
coalesce-Coalesced_example =
    coalesce-Coalesced chunk_heap (body 4096 8192)
      (chunk-State IsRegion-two_pages (λ p is. absurd is) 0 (start_sound blank).state)
      (inl (inr (inl refl))) refl

bfree-balloc_example :
    (p : Ptr) × (h : Heap) × (balloc region_at 1 100 (start_heap blank) ≡ some (p, h))
    × (((p ≡ 0) × (h ≡ start_heap blank))
        ⊎ ((s : Sound (bfree p h)) × ((q : Piece)
              → InUse (bfree p h) s q ↔ InUse (start_heap blank) (start_sound blank) q)
            × ((q : Piece)
                → InUse (start_heap blank) (start_sound blank) q
                → SameContents (start_heap blank).memory (bfree p h).memory q)))
bfree-balloc_example =
    bfree-balloc region_at (start_heap blank) (start_sound blank) 1 100 (omega arith) (omega arith)
      short_lists IsMapping-100
