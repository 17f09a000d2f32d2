-- ===== src/Allocator/Layout/Reads.antt =====
-- What the macros of C-Allocator/src/balloc.c read from the tags of a piece, and what PUT leaves.
use foundations_lab.Base.{
  ℕ, ◌+◌, ◌-◌, ◌%◌, ◌<◌, ◌≡◌, ◌≢◌, ◌⊎◌, inl, inr, Bool, true, false, refl, ap, sym, arith, ◌∙◌,
  if◌then◌else◌,
}
use foundations_lab.Allocator.Words.{
  word_end, size_bits, alloc_bit, pack, pack-used, pack-free, size_bits-eq, alloc_bit-eq,
}
use foundations_lab.Allocator.Memory.{
  Ptr, Memory, Heap, put, put_self, put_other, blk_size, blk_alloc, hdrp, ftrp, next_blkp,
  prev_blkp,
}
use foundations_lab.Allocator.Coalesce.{write, put_tags}
use foundations_lab.Allocator.Layout.{Piece, tag, Tagged, IsBlock, Fits}

abbrev pub bit : Bool → ℕ
bit b = if b then 1 else 0

Fits-size : {p : Piece} → Fits p → (p.size % 8 ≡ 0) × (p.size + 8 < word_end)
Fits-size {p} f =
    let low = f.low in
    let high = f.high in
    elim f.kind [
      | inl (_, inl none, _) ↦ (omega arith, omega arith)
      | inl (_, inr eight, _) ↦ (omega arith, omega arith)
      | inr block ↦ (omega arith, omega arith)
    ]

tag_bits :
    (size : ℕ) (b : Bool)
    → size % 8 ≡ 0
    → size + 8 < word_end
    → (size_bits (size + bit b) ≡ size) × (alloc_bit (size + bit b) ≡ bit b)
tag_bits size true h k =
    (omega (arith, size_bits-eq (size + 1) (omega arith)), omega (arith, alloc_bit-eq (size + 1)))
tag_bits size false h k =
    (omega (arith, size_bits-eq (size + 0) (omega arith)), omega (arith, alloc_bit-eq (size + 0)))

module _ {p : Piece} (m : Memory) (f : Fits p) where
  word_bits : (a : Ptr) → m a ≡ tag p → (blk_size m a ≡ p.size) × (blk_alloc m a ≡ bit p.used)
  unfolding blk_size blk_alloc
  word_bits a e = let s = Fits-size f in rw e (tag_bits p.size p.used s.0 s.1)

  pub ftrp-header : m (p.at - 8) ≡ tag p → ftrp m p.at ≡ p.at + p.size - 16
  unfolding ftrp
  ftrp-header h = let read = (word_bits (p.at - 8) h).0 in omega (arith, read)

module _ {p : Piece} {m : Memory} (f : Fits p) (t : Tagged m p) where
  pub header_size : blk_size m (hdrp p.at) ≡ p.size
  header_size = (word_bits m f (p.at - 8) t.header).0

  pub header_alloc : blk_alloc m (hdrp p.at) ≡ bit p.used
  header_alloc = (word_bits m f (p.at - 8) t.header).1

  pub ftrp-eq : ftrp m p.at ≡ p.at + p.size - 16
  ftrp-eq = ftrp-header m f t.header

  pub next_blkp-eq : next_blkp m p.at ≡ p.at + p.size
  unfolding next_blkp
  next_blkp-eq = omega (arith, header_size)

  -- From the piece after `p`, at `bp`.
  pub prev_blkp-eq : (bp : Ptr) → 0 < p.size → p.at + p.size ≡ bp → prev_blkp m bp ≡ p.at
  unfolding prev_blkp
  prev_blkp-eq bp some e =
      let read = (word_bits m f (p.at + p.size - 16) (t.footer some)).0 in
      omega (arith, read, ap (λ (a : ℕ). blk_size m (a - 16)) e)

  pub footer_alloc : 0 < p.size → blk_alloc m (ftrp m p.at) ≡ bit p.used
  footer_alloc some =
      ap (blk_alloc m) ftrp-eq ∙ (word_bits m f (p.at + p.size - 16) (t.footer some)).1

pack-bit : (size : ℕ) (b : Bool) → size % 8 ≡ 0 → pack size (bit b) ≡ size + bit b
pack-bit size true h = pack-used size h
pack-bit size false h = pack-free size ∙ omega arith

pub pack-tag : (p : Piece) → p.size % 8 ≡ 0 → pack p.size (bit p.used) ≡ tag p
pack-tag p h = pack-bit p.size p.used h

pub tag_small : (p : Piece) → p.size + 8 < word_end → tag p < word_end
tag_small p h = small p.size p.used h
  where
    small : (size : ℕ) (b : Bool) → size + 8 < word_end → size + bit b < word_end
    small size true h = omega arith
    small size false h = omega arith

-- Both tags of a block written, in either order.
pub head_foot :
    (m : Memory) (p : Piece) (v head foot : ℕ)
    → Fits p
    → IsBlock p
    → v ≡ tag p
    → (head ≡ p.at - 8) × (foot ≡ p.at + p.size - 16)
      ⊎ (foot ≡ p.at - 8) × (head ≡ p.at + p.size - 16)
    → let m' = put foot v (put head v m) in
      Tagged m' p × ((x : Ptr) → x ≢ p.at - 8 → x ≢ p.at + p.size - 16 → m' x ≡ m x)
head_foot m p v head foot f room is places =
    let low = f.low in
    let small : v < word_end = rw is (tag_small p (Fits-size f).1) in
    let apart : head ≢ foot =
      λ e. elim places [ inl (h, k) ↦ omega arith | inr (h, k) ↦ omega arith ] in
    let first : put foot v (put head v m) head ≡ tag p =
      put_other (put head v m) foot v head apart ∙ put_self m head v small ∙ is in
    let second : put foot v (put head v m) foot ≡ tag p =
      put_self (put head v m) foot v small ∙ is in
    let same : (x : Ptr) → x ≢ head → x ≢ foot → put foot v (put head v m) x ≡ m x =
      λ x h k. put_other (put head v m) foot v x k ∙ put_other m head v x h in
    elim places [
      | inl (h, k) ↦ (
        record {
          header = ap (put foot v (put head v m)) (sym h) ∙ first;
          footer = λ _. ap (put foot v (put head v m)) (sym k) ∙ second;
        },
        λ x no no'. same x (λ e. no (e ∙ h)) (λ e. no' (e ∙ k)),
      )
      | inr (k, h) ↦ (
        record {
          header = ap (put foot v (put head v m)) (sym k) ∙ second;
          footer = λ _. ap (put foot v (put head v m)) (sym h) ∙ first;
        },
        λ x no no'. same x (λ e. no' (e ∙ h)) (λ e. no (e ∙ k)),
      )
    ]

-- The two tags of a block written.
pub put_tags-Tagged :
    (h : Heap) (p : Piece) (alloc : ℕ)
    → Fits p
    → IsBlock p
    → alloc ≡ bit p.used
    → let h' = put_tags p.at p.size alloc h in
      Tagged h'.memory p
      × ((x : Ptr) → x ≢ p.at - 8 → x ≢ p.at + p.size - 16 → h'.memory x ≡ h.memory x)
      × (h'.g_class ≡ h.g_class)
      × (h'.g_stats ≡ h.g_stats)
      × (h'.g_chunks ≡ h.g_chunks)
unfolding put_tags write
put_tags-Tagged h p alloc f room is =
    let s = Fits-size f in
    let v : pack p.size alloc ≡ tag p = ap (pack p.size) is ∙ pack-tag p s.0 in
    let m1 = put (p.at - 8) (pack p.size alloc) h.memory in
    let headed : m1 (p.at - 8) ≡ tag p =
      put_self h.memory (p.at - 8) (pack p.size alloc) (rw v (tag_small p s.1)) ∙ v in
    let foot : ftrp m1 p.at ≡ p.at + p.size - 16 = ftrp-header m1 f headed in
    let (tagged, same) =
      head_foot h.memory p (pack p.size alloc) (p.at - 8) (p.at + p.size - 16) f room v
        (inl (refl, refl)) in
    rw foot (tagged, same, refl, refl, refl)
