-- ===== src/Deflate/Huffman/Symbols.antt =====
-- The symbol table that `huff_build_decoder` of C-Deflate/src/huffman.c fills in: the symbols of each
-- length stand together, in order, behind those of smaller lengths.
use foundations_lab.Base.{
  ℕ, zero, suc, ◌+◌, ◌^◌, ◌≤◌, ◌<◌, ◌≡◌, ◌≢◌, ◌⊎◌, refl, ap, ◌∙◌, sym, List, [], ◌∷◌, arith, get_or,
  set, take, length, length-set, get_or-set_self, get_or-set_ne, ◌==◌, ltb, All, ==→eq, ==→ne,
  ne→==, tests, Bool-cases, inl, inr,
}
use foundations_lab.Deflate.Huffman.{u16, bump, zeros, sum_offsets, place_symbols}
use foundations_lab.Deflate.Huffman.Count.{
  count, count_below, count_below-suc, count_below-one, count_below_mono, count_below-le-length,
  get_or-bump, length-bump, IsLength, IsLength-at, get_or-zeros, length-zeros,
}

-- With the entries `xs` to go, the offset of each length lies in that length's part of the table, and
-- leaves as many places as entries of that length are to come.
abbrev pub IsPlacing : List ℕ → List ℕ → List ℕ → Type 0
IsPlacing whole offs xs =
    (m : ℕ)
    → 0 < m
    → m ≤ 15
    → (count_below m whole ≤ get_or offs m 0)
      × (get_or offs m 0 + count m xs ≡ count_below (m + 1) whole)

-- The places of one length's part that are still free do not meet those of another.
parts_apart :
    (whole offs xs : List ℕ) (l m p : ℕ)
    → IsPlacing whole offs xs
    → 0 < l
    → l ≤ 15
    → 0 < m
    → m ≤ 15
    → l ≢ m
    → count_below l whole ≤ p
    → p < count_below (l + 1) whole
    → (p < get_or offs m 0) ⊎ (count_below (m + 1) whole ≤ p)
parts_apart whole offs xs l m p ok l0 l15 m0 m15 ne lo hi = elim (Bool-cases (ltb l m)) [
  | inl below ↦ inl (omega (tests, ok m m0 m15, count_below_mono (l + 1) m whole (omega tests)))
  | inr above ↦ inr (omega (tests, count_below_mono (m + 1) l whole (omega tests)))
]

module _ (whole : List ℕ) (short : length whole < 2 ^ 16) where
  offset-lt :
      (offs xs : List ℕ) (m : ℕ)
      → IsPlacing whole offs xs
      → 0 < m
      → m ≤ 15
      → get_or offs m 0 + count m xs < 2 ^ 16
  offset-lt offs xs m ok lo hi = omega (arith, ok m lo hi, count_below-le-length (m + 1) whole)

  IsPlacing-unused :
      (offs xs : List ℕ) (x : ℕ) → x ≡ 0 → IsPlacing whole offs (x ∷ xs) → IsPlacing whole offs xs
  IsPlacing-unused offs xs x e ok m lo hi = ground (arith, ok m lo hi)

  IsPlacing-bump :
      (offs xs : List ℕ) (x : ℕ)
      → x ≢ 0
      → x ≤ 15
      → length offs ≡ 17
      → IsPlacing whole offs (x ∷ xs)
      → IsPlacing whole (bump offs x) xs
  IsPlacing-bump offs xs x used small sized ok m lo hi =
      ground
        (arith, ok m lo hi, get_or-bump offs x m, offset-lt offs (x ∷ xs) x ok (omega arith) small)

  -- A place outside the free places is not written.
  place_symbols_outside :
      (xs : List ℕ) (i p : ℕ) (offs symbols : List ℕ)
      → All IsLength xs
      → length offs ≡ 17
      → IsPlacing whole offs xs
      → ((m : ℕ) → 0 < m → m ≤ 15 → (p < get_or offs m 0) ⊎ (count_below (m + 1) whole ≤ p))
      → get_or (place_symbols xs i offs symbols) p 0 ≡ get_or symbols p 0
  unfolding place_symbols
  place_symbols_outside [] i p offs symbols small sized ok out = refl
  place_symbols_outside (x ∷ xs) i p offs symbols small sized ok out = elim (Bool-cases (x == 0)) [
    | inl unused ↦ rw unused (
        place_symbols_outside xs (i + 1) p offs symbols small.1 sized
          (IsPlacing-unused offs xs x (omega tests) ok) out)
    | inr used ↦
        let ne : x ≢ 0 = ==→ne x 0 used in
        let here = offset-lt offs (x ∷ xs) x ok (omega arith) small.0 in
        rw used (
          place_symbols_outside xs (i + 1) p (bump offs x) (set symbols (get_or offs x 0) (u16 i))
            small.1 (length-bump offs x ∙ sized) (IsPlacing-bump offs xs x ne small.0 sized ok)
            (λ m lo hi. ground (arith, out m lo hi, get_or-bump offs x m, here))
          ∙ get_or-set_ne symbols (get_or offs x 0) p (u16 i) 0
              (λ e. ground (arith, ok x (omega arith) small.0, out x (omega arith) small.0)))
  ]

  -- Entry `q` is written at the offset of its length plus its rank, and stays.
  place_symbols_at :
      (xs : List ℕ) (i q l : ℕ) (offs symbols : List ℕ)
      → All IsLength xs
      → length offs ≡ 17
      → IsPlacing whole offs xs
      → count_below 16 whole ≤ length symbols
      → i + length xs < 2 ^ 16
      → q < length xs
      → get_or xs q 0 ≡ l
      → l ≢ 0
      → get_or (place_symbols xs i offs symbols) (get_or offs l 0 + count l (take q xs)) 0 ≡ i + q
  unfolding place_symbols
  place_symbols_at [] i q l offs symbols small sized ok room bound h e used = absurd (omega arith)
  place_symbols_at (x ∷ xs) i zero l offs symbols small sized ok room bound h e used =
      let p = get_or offs x 0 in
      let ne : x ≢ 0 = λ z. used (sym e ∙ z) in
      let here = ok x (omega arith) small.0 in
      let ok' = IsPlacing-bump offs xs x ne small.0 sized ok in
      let next = offset-lt offs (x ∷ xs) x ok (omega arith) small.0 in
      let inside : p < count_below (x + 1) whole = ground (arith, here) in
      let later = set symbols p (u16 i) in
      rw (← e, ne→== x 0 ne)
        (ap (λ (t : ℕ). get_or (place_symbols xs (i + 1) (bump offs x) later) t 0) {x = p + 0}
            {y = p} (omega arith)
          ∙ place_symbols_outside xs (i + 1) p (bump offs x) later small.1
              (length-bump offs x ∙ sized) ok'
              (λ m lo hi. elim (Bool-cases (x == m)) [
                | inl same ↦ inl (ground (arith, get_or-bump offs x m, next))
                | inr other ↦
                    parts_apart whole (bump offs x) xs x m p ok' (omega arith) small.0 lo hi
                      (==→ne x m other) here.0 inside
              ])
          ∙ get_or-set_self symbols p (u16 i) 0
              (omega (arith, count_below_mono (x + 1) 16 whole (omega arith)))
          ∙ omega arith)
  place_symbols_at (x ∷ xs) i (suc q) l offs symbols small sized ok room bound h e used =
      elim (Bool-cases (x == 0)) [
        | inl unused ↦ rw unused (
            ap (λ (t : ℕ). get_or (place_symbols xs (i + 1) offs symbols) t 0)
              {y = get_or offs l 0 + count l (take q xs)} (ground arith)
            ∙ place_symbols_at xs (i + 1) q l offs symbols small.1 sized
                (IsPlacing-unused offs xs x (omega tests) ok) room (omega arith) (omega arith) e
                used
            ∙ omega arith)
        | inr in_use ↦ rw in_use (
            let later = set symbols (get_or offs x 0) (u16 i) in
            ap (λ (t : ℕ). get_or (place_symbols xs (i + 1) (bump offs x) later) t 0)
              {y = get_or (bump offs x) l 0 + count l (take q xs)}
              (ground
                (arith, get_or-bump offs x l, offset-lt offs (x ∷ xs) x ok (omega tests) small.0))
            ∙ place_symbols_at xs (i + 1) q l (bump offs x) later small.1
                (length-bump offs x ∙ sized)
                (IsPlacing-bump offs xs x (omega tests) small.0 sized ok)
                (omega (arith, length-set symbols (get_or offs x 0) (u16 i))) (omega arith)
                (omega arith) e used
            ∙ omega arith)
      ]

-- The offset of a length that the loop has passed is the number of symbols of smaller lengths.
sum_offsets_lem :
    (left b l : ℕ) (counts offs ls : List ℕ)
    → ((m : ℕ) → 0 < m → get_or counts m 0 ≡ count m ls)
    → length ls < 2 ^ 16
    → length offs ≡ 17
    → b + left ≡ 15
    → ((m : ℕ) → 0 < m → m ≤ b + 1 → get_or offs m 0 ≡ count_below m ls)
    → 0 < l
    → l ≤ 16
    → get_or (sum_offsets left (b + 1) counts offs) l 0 ≡ count_below l ls
unfolding sum_offsets
sum_offsets_lem zero b l counts offs ls same short sized e done lo hi = done l lo (omega arith)
sum_offsets_lem (suc left) b l counts offs ls same short sized e done lo hi =
    let v = count_below (b + 1 + 1) ls in
    let value : u16 (get_or offs (b + 1) 0 + get_or counts (b + 1) 0) ≡ v = omega (
      arith,
      done (b + 1) (omega arith) (omega arith),
      same (b + 1) (omega arith),
      count_below-suc (b + 1) ls (omega arith),
      count_below-le-length (b + 1 + 1) ls,
    ) in
    rw value (
      sum_offsets_lem left (b + 1) l counts (set offs (b + 1 + 1) v) ls same short
        (length-set offs (b + 1 + 1) v ∙ sized) (omega arith)
        (λ m m0 k. elim (Bool-cases (m == b + 1 + 1)) [
          | inl here ↦
              rw (==→eq m (b + 1 + 1) here) (get_or-set_self offs (b + 1 + 1) v 0 (omega arith))
          | inr before ↦
              get_or-set_ne offs (b + 1 + 1) m v 0 (λ e. ==→ne m (b + 1 + 1) before (sym e))
              ∙ done m m0 (omega tests)
        ])
        lo hi)

length-sum_offsets :
    (left b : ℕ) (counts offs : List ℕ) → length (sum_offsets left b counts offs) ≡ length offs
unfolding sum_offsets
length-sum_offsets zero b counts offs = refl
length-sum_offsets (suc left) b counts offs =
    length-sum_offsets left (b + 1) counts _ ∙ length-set offs (b + 1) _

-- Symbol `q` stands in the table behind the symbols of smaller lengths and behind those of its own
-- length that come before it.
pub symbols_lem :
    (ls counts symbols : List ℕ) (q : ℕ)
    → All IsLength ls
    → ((m : ℕ) → 0 < m → get_or counts m 0 ≡ count m ls)
    → length ls < 2 ^ 16
    → length ls ≤ length symbols
    → q < length ls
    → get_or ls q 0 ≢ 0
    → get_or
        (place_symbols ls 0 (sum_offsets 15 1 counts (zeros 17)) symbols)
        (count_below (get_or ls q 0) ls + count (get_or ls q 0) (take q ls))
        0
      ≡ q
symbols_lem ls counts symbols q small same short room h used =
    let offs = sum_offsets 15 1 counts (zeros 17) in
    let l = get_or ls q 0 in
    let at : (m : ℕ) → 0 < m → m ≤ 16 → get_or offs m 0 ≡ count_below m ls = λ m lo hi.
      sum_offsets_lem 15 0 m counts (zeros 17) ls same short (length-zeros 17) refl
        (λ m m0 k.
          let one : m ≡ 1 = omega arith in rw one (get_or-zeros 17 1 ∙ sym (count_below-one ls)))
        lo hi in
    ap (λ (t : ℕ). get_or (place_symbols ls 0 offs symbols) (t + count l (take q ls)) 0)
      (sym (at l (omega arith) (omega (arith, IsLength-at ls q small))))
    ∙ place_symbols_at ls short ls 0 q l offs symbols small
        (length-sum_offsets 15 1 counts (zeros 17) ∙ length-zeros 17)
        (λ m lo hi. (
          omega (arith, at m lo (omega arith)),
          omega (arith, at m lo (omega arith), count_below-suc m ls lo),
        ))
        (omega (arith, count_below-le-length 16 ls)) (omega arith) h refl used
    ∙ omega arith
