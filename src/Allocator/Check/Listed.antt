-- ===== src/Allocator/Check/Listed.antt =====
-- `on_free_list` and the loop over the listed nodes in `balloc_check` of C-Allocator/src/balloc.c.
use foundations_lab.Base.{
  ℕ, zero, suc, ◌+◌, ◌≤◌, ◌<◌, ◌≡◌, inl, inr, Bool, true, false, refl, ap, sym, arith, ◌∙◌, subst,
  List, [], ◌∷◌, some, length, get_or, Among, first, later, All, Bool-cases, ◌==◌, eq→==, ne→==,
  ==→eq, ==→ne, false≢true,
}
use foundations_lab.Allocator.Memory.{Ptr, Memory, blk_alloc, hdrp}
use foundations_lab.Allocator.FreeLists.Chain.{Chain, ends, node, IsNode}
use foundations_lab.Allocator.FreeLists.Filed.{Files, Filed}
use foundations_lab.Allocator.Check.{on_list, on_free_list, check_nodes, check_lists, sound}

-- The heads from class `c` on.
abbrev pub From : List Ptr → List Ptr → ℕ → Type 0
From all heads c = (i : ℕ) → get_or heads i 0 ≡ get_or all (c + i) 0

pub From-head :
    (all : List Ptr) (head : Ptr) (heads : List Ptr) (c : ℕ)
    → From all (head ∷ heads) c
    → head ≡ get_or all c 0
From-head all head heads c same =
    same 0 ∙ ap (λ (t : ℕ). get_or all t 0) {x = c + 0} {y = c} (omega arith)

pub From-tail :
    (all : List Ptr) (head : Ptr) (heads : List Ptr) (c : ℕ)
    → From all (head ∷ heads) c
    → From all heads (suc c)
From-tail all head heads c same i =
    same (suc i) ∙ ap (λ (t : ℕ). get_or all t 0) {x = c + suc i} {y = suc c + i} (omega arith)

-- The search of one list ends, and finds a node that is on it.
on_list-Chain :
    (fuel : ℕ) (m : Memory) (bp : Ptr) {prev at : Ptr} (ps : List Ptr)
    → Chain m prev at ps
    → All IsNode ps
    → length ps < fuel
    → (b : Bool) × (on_list fuel m bp at ≡ some b) × (Among bp ps → b ≡ true)
unfolding on_list
on_list-Chain zero m bp ps chain nodes enough = absurd (omega arith)
on_list-Chain (suc fuel) m bp {at = at} [] (ends e) nodes enough =
    (false, rw (eq→== at 0 e) refl, λ i. elim i [ ])
on_list-Chain (suc fuel) m bp {at = at} (p ∷ ps) (node e back rest) (is, nodes) enough =
    elim (Bool-cases (at == bp)) [
      | inl here ↦ (true, rw (ne→== at 0 (λ z. omega arith), here) refl, λ _. refl)
      | inr other ↦
          let (b, found, finds) = on_list-Chain fuel m bp ps rest nodes (omega arith) in
          (
            b,
            rw (ne→== at 0 (λ z. omega arith), other)
                (ap (λ (t : Ptr). on_list fuel m bp (m t)) e ∙ found),
            λ i. elim i [ first e' ↦ absurd (==→ne at bp other (e ∙ sym e')) | later j ↦ finds j ],
          )
    ]

pub on_free_list-Filed :
    (fuel : ℕ) (m : Memory) (bp : Ptr) {all : List Ptr} {fs : Files} (heads : List Ptr) (c : ℕ)
    → Filed m all fs
    → ((d : ℕ) → length (fs d) < fuel)
    → From all heads c
    → (d : ℕ) → c ≤ d
    → d < c + length heads
    → Among bp (fs d)
    → on_free_list fuel m bp heads ≡ some true
unfolding on_free_list
on_free_list-Filed fuel m bp [] c f enough same d lo hi i = absurd (omega arith)
on_free_list-Filed fuel m bp {all} {fs} (head ∷ heads) c f enough same d lo hi i =
    let (b, found, finds) =
      on_list-Chain fuel m bp (fs c)
        (subst (λ (t : Ptr). Chain m 0 t (fs c)) (sym (From-head all head heads c same))
          (f.chains c))
        (f.nodes c) (enough c) in
    elim (Bool-cases b) [
      | inl hit ↦ rw (found, hit) refl
      | inr missed ↦
          let later_on : suc c ≤ d = elim (Bool-cases (c == d)) [
            | inl here ↦ absurd (
                false≢true (
                  sym missed ∙ finds (subst (λ (t : ℕ). Among bp (fs t)) (sym (==→eq c d here)) i)))
            | inr other ↦ (let ne = ==→ne c d other in omega arith)
          ] in
          rw (found, missed)
            (on_free_list-Filed fuel m bp heads (suc c) f enough (From-tail all head heads c same) d
              later_on (omega arith) i)
    ]

-- The loop over the nodes of one list passes where their blocks are free.
check_nodes-Chain :
    (fuel : ℕ) (m : Memory) {prev at : Ptr} (ps : List Ptr)
    → Chain m prev at ps
    → All IsNode ps
    → length ps < fuel
    → ((p : Ptr) → Among p ps → blk_alloc m (hdrp p) ≡ 0)
    → check_nodes fuel m at ≡ some sound
unfolding check_nodes
check_nodes-Chain zero m ps chain nodes enough free = absurd (omega arith)
check_nodes-Chain (suc fuel) m {at = at} [] (ends e) nodes enough free = rw (eq→== at 0 e) refl
check_nodes-Chain (suc fuel) m {at = at} (p ∷ ps) (node e back rest) (is, nodes) enough free =
    let bit : blk_alloc m (hdrp at) ≡ 0 = free at (first e) in
    rw (ne→== at 0 (λ z. omega arith), bit)
      (ap (λ (t : Ptr). check_nodes fuel m (m t)) e
        ∙ check_nodes-Chain fuel m ps rest nodes (omega arith) (λ q i. free q (later i)))

pub check_lists-Filed :
    (fuel : ℕ) (m : Memory) {all : List Ptr} {fs : Files} (heads : List Ptr) (c : ℕ)
    → Filed m all fs
    → ((d : ℕ) → length (fs d) < fuel)
    → ((d : ℕ) (p : Ptr) → Among p (fs d) → blk_alloc m (hdrp p) ≡ 0)
    → From all heads c
    → check_lists fuel m heads ≡ some sound
unfolding check_lists
check_lists-Filed fuel m [] c f enough free same = refl
check_lists-Filed fuel m {all} {fs} (head ∷ heads) c f enough free same =
    let passed =
      check_nodes-Chain fuel m (fs c)
        (subst (λ (t : Ptr). Chain m 0 t (fs c)) (sym (From-head all head heads c same))
          (f.chains c))
        (f.nodes c) (enough c) (free c) in
    rw passed
      (check_lists-Filed fuel m heads (suc c) f enough free (From-tail all head heads c same))
