-- ===== src/Allocator/Place/Fit.antt =====
-- `find_fit` of C-Allocator/src/balloc.c: the loops end, with a free block that is large enough where
-- there is one.
use foundations_lab.Base.{
  ℕ, zero, suc, ◌+◌, ◌-◌, ◌≤◌, ◌<◌, ◌≡◌, ◌⊎◌, inl, inr, false, refl, ap, sym, arith, ◌∙◌, subst,
  List, [], ◌∷◌, some, length, get_or, drop, length-drop, Among, first, later, All, leb, leb→le,
  leb→lt, Bool-cases, eq→==, ne→==,
}
use foundations_lab.Allocator.Memory.{Ptr, Memory, Heap, blk_size, hdrp}
use foundations_lab.Allocator.FreeLists.{size_class}
use foundations_lab.Allocator.FreeLists.Classes.{size_class_lt, size_class_mono}
use foundations_lab.Allocator.FreeLists.Chain.{Chain, ends, node, IsNode}
use foundations_lab.Allocator.FreeLists.Filed.{Files, Filed}
use foundations_lab.Allocator.Place.{first_fit, find_class, find_fit}
use foundations_lab.Allocator.Layout.{Piece, Pieces, State, none_out}
use foundations_lab.Allocator.Layout.Reads.{header_size}

-- The answer of a search through the nodes `ps`: NULL where none is large enough.
abbrev Fitting : Memory → (asize : ℕ) → List Ptr → Ptr → Type 0
Fitting m asize ps n =
    ((n ≡ 0) × ((p : Ptr) → Among p ps → blk_size m (hdrp p) < asize))
    ⊎ ((0 < n) × Among n ps × (asize ≤ blk_size m (hdrp n)))

first_fit-Fitting :
    (fuel : ℕ) (m : Memory) (asize : ℕ) {prev at : Ptr} (ps : List Ptr)
    → Chain m prev at ps
    → All IsNode ps
    → length ps < fuel
    → (n : Ptr) × (first_fit fuel m asize at ≡ some n) × Fitting m asize ps n
unfolding first_fit
first_fit-Fitting zero m asize ps chain nodes enough = absurd (omega arith)
first_fit-Fitting (suc fuel) m asize {at = at} [] (ends e) nodes enough =
    (0, rw (eq→== at 0 e) refl, inl (refl, λ p i. elim i [ ]))
first_fit-Fitting (suc fuel) m asize {at = at} (p ∷ ps) (node e back rest) (is, nodes) enough =
    elim (Bool-cases (leb asize (blk_size m (hdrp at)))) [
      | inl fits ↦ (
        at,
        rw (ne→== at 0 (λ z. omega arith), fits) refl,
        inr (omega arith, first e, leb→le asize (blk_size m (hdrp at)) fits),
      )
      | inr small ↦
          let (n, found, fit) = first_fit-Fitting fuel m asize ps rest nodes (omega arith) in
          (
            n,
            rw (ne→== at 0 (λ z. omega arith), small)
                (ap (λ (t : Ptr). first_fit fuel m asize (m t)) e ∙ found),
            elim fit [
              | inl (z, all) ↦ inl (
                z,
                λ q i. elim i [
                  | first e' ↦
                      subst (λ (t : Ptr). blk_size m (hdrp t) < asize) (e ∙ sym e')
                        (leb→lt asize (blk_size m (hdrp at)) small)
                  | later j ↦ all q j
                ],
              )
              | inr (real, i, wide) ↦ inr (real, later i, wide)
            ],
          )
    ]

-- The search through the classes from `c` on.
find_class-Fitting :
    (fuel : ℕ) (m : Memory) (asize : ℕ) {all : List Ptr} {fs : Files} (heads : List Ptr) (c : ℕ)
    → Filed m all fs
    → ((d : ℕ) → length (fs d) < fuel)
    → ((i : ℕ) → get_or heads i 0 ≡ get_or all (c + i) 0)
    → (n : Ptr) × (find_class fuel m asize heads ≡ some n)
      × (((n ≡ 0)
            × ((i : ℕ) (p : Ptr)
                → i < length heads
                → Among p (fs (c + i))
                → blk_size m (hdrp p) < asize))
          ⊎ ((0 < n) × (asize ≤ blk_size m (hdrp n)) × ((d : ℕ) × Among n (fs d))))
unfolding find_class
find_class-Fitting fuel m asize [] c f enough same =
    (0, refl, inl (refl, λ i p none _. absurd (omega arith)))
find_class-Fitting fuel m asize {all} {fs} (head ∷ heads) c f enough same =
    let at : head ≡ get_or all c 0 =
      same 0 ∙ ap (λ (t : ℕ). get_or all t 0) {x = c + 0} {y = c} (omega arith) in
    let (n, found, fit) =
      first_fit-Fitting fuel m asize (fs c)
        (subst (λ (t : Ptr). Chain m 0 t (fs c)) (sym at) (f.chains c)) (f.nodes c) (enough c) in
    elim fit [
      | inr (real, i, wide) ↦
          (n, rw (found, ne→== n 0 (λ z. omega arith)) refl, inr (real, wide, (c, i)))
      | inl (z, all_small) ↦
          let (k, found', fit') = find_class-Fitting fuel m asize heads (suc c) f enough (λ i.
            same (suc i)
            ∙ ap (λ (t : ℕ). get_or all t 0) {x = c + suc i} {y = suc c + i} (omega arith)) in
          (
            k,
            rw (found, eq→== n 0 z) found',
            elim fit' [
              | inr there ↦ inr there
              | inl (z', small) ↦ inl (z', earlier c small all_small)
            ],
          )
    ]
  where
    earlier :
        (c : ℕ)
        → ((i : ℕ) (p : Ptr)
            → i < length heads
            → Among p (fs (suc c + i))
            → blk_size m (hdrp p) < asize)
        → ((p : Ptr) → Among p (fs c) → blk_size m (hdrp p) < asize)
        → (i : ℕ) (p : Ptr) → i < suc (length heads)
        → Among p (fs (c + i))
        → blk_size m (hdrp p) < asize
    earlier c small here zero p h i =
        here p (subst (λ (t : ℕ). Among p (fs t)) {x = c + 0} {y = c} (omega arith) i)
    earlier c small here (suc k) p h i =
        small k p (omega arith)
          (subst (λ (t : ℕ). Among p (fs t)) {x = c + suc k} {y = suc c + k} (omega arith) i)

get_or-drop : (n i : ℕ) (xs : List Ptr) → get_or (drop n xs) i 0 ≡ get_or xs (n + i) 0
get_or-drop zero i xs = ap (λ (t : ℕ). get_or xs t 0) {x = i} {y = 0 + i} (omega arith)
get_or-drop (suc n) i [] = refl
get_or-drop (suc n) i (x ∷ xs) =
    get_or-drop n i xs
    ∙ ap (λ (t : ℕ). get_or (x ∷ xs) t 0) {x = suc (n + i)} {y = suc n + i} (omega arith)

-- With fuel for the longest list, the search ends: with a free block of at least `asize` bytes, or
-- with NULL where every free block is smaller.
pub find_fit-State :
    (fuel asize : ℕ) (h : Heap) {ps : Pieces} {fs : Files}
    → State h.memory h.g_class ps fs none_out
    → ((d : ℕ) → length (fs d) < fuel)
    → (n : Ptr) × (find_fit fuel asize h ≡ some n)
      × (((n ≡ 0) × ((b : Piece) → ps b → b.used ≡ false → b.size < asize))
          ⊎ ((0 < n) × ((b : Piece) × ps b × (b.used ≡ false) × (b.at ≡ n) × (asize ≤ b.size))))
unfolding find_fit
find_fit-State fuel asize h {ps} {fs} s enough =
    let c = size_class asize in
    let (n, found, fit) =
      find_class-Fitting fuel h.memory asize (drop c h.g_class) c s.filed enough
        (λ i. get_or-drop c i h.g_class) in
    (
      n,
      found,
      elim fit [
        | inr (real, wide, (d, i)) ↦
            let (b, is, free, at, _, _) = s.owned d n i in
            let size = header_size (s.layout.fits b is) (s.tags b is) in
            inr (
              real,
              (
                b,
                is,
                free,
                at,
                subst (λ (t : ℕ). asize ≤ t)
                    (ap (λ (t : Ptr). blk_size h.memory (t - 8)) (sym at) ∙ size) wide,
              ),
            )
        | inl (z, small) ↦ inl (
          z,
          λ b is free. elim (Bool-cases (leb asize b.size)) [
            | inr small_b ↦ leb→lt asize b.size small_b
            | inl large ↦
                let later_class = size_class_mono asize b.size (leb→le asize b.size large) in
                let bound = size_class_lt b.size in
                let rest = length-drop c h.g_class in
                let count = s.filed.count in
                let size = header_size (s.layout.fits b is) (s.tags b is) in
                let class : size_class b.size ≡ c + (size_class b.size - c) = omega arith in
                elim (s.listed b is free) [
                  | inl off_list ↦ absurd off_list
                  | inr i ↦
                      let b_small =
                        small (size_class b.size - c) b.at (omega arith)
                          (subst (λ (t : ℕ). Among b.at (fs t)) class i) in
                      omega arith
                ]
          ],
        )
      ],
    )
