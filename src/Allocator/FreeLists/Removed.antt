-- ===== src/Allocator/FreeLists/Removed.antt =====
-- A free list of C-Allocator/src/balloc.c after `list_remove`: the nodes before and after the one
-- that is taken off, in order.
use foundations_lab.Base.{
  ℕ, ◌+◌, ◌%◌, ◌<◌, ◌≡◌, ◌≢◌, ◌⊎◌, inl, inr, refl, ap, sym, ◌∙◌, List, [], ◌∷◌, ◌++◌, arith, All,
  Among, first, later, All-Among, Fresh, Distinct, Distinct-split, Among-left, Among-right,
  Among-middle,
}
use foundations_lab.Allocator.Words.{word_end}
use foundations_lab.Allocator.Memory.{Ptr, Memory}
use foundations_lab.Allocator.FreeLists.Chain.{Chain, ends, node, IsNode, Chain-frame}
use foundations_lab.Allocator.FreeLists.Unlink.{
  Links, unlinked, unlinked-other, unlinked-back, unlinked-next,
}

-- The back link of a node is the node before it, or what stands before the list.
pub back-Among :
    {m : Memory} {prev at : Ptr} (n : Ptr) (xs ys : List Ptr)
    → Chain m prev at (xs ++ n ∷ ys)
    → Among (m (n + 8)) (prev ∷ xs)
back-Among n [] ys (node e back rest) = first back
back-Among n (x ∷ xs) ys (node e back rest) = later (back-Among n xs ys rest)

-- The next link of a node is the node after it, or NULL.
pub next-Among :
    {m : Memory} {prev at : Ptr} (n : Ptr) (xs ys : List Ptr)
    → Chain m prev at (xs ++ n ∷ ys)
    → (m n ≡ 0) ⊎ Among (m n) ys
next-Among n [] [] (node e back (ends z)) = inl z
next-Among n [] (y ∷ ys) (node e back (node e' back' rest)) = inr (first e')
next-Among n (x ∷ xs) ys (node e back rest) = next-Among n xs ys rest

-- What the pointer before the list becomes.
abbrev pub entry : (next at : Ptr) → List Ptr → Ptr
entry next at [] = next
entry next at (x ∷ xs) = at

-- Lists of nodes without repetition, one of them taken off.
module _ {n : Ptr} {m : Memory} (l : Links n m) where
  -- The next link of the node before `n` passes over `n`, and other next links stay.
  unlinked-before :
      {prev at : Ptr} (x : Ptr) (xs ys : List Ptr)
      → IsNode x
      → Distinct (x ∷ xs ++ n ∷ ys)
      → Chain m prev at (x ∷ xs ++ n ∷ ys)
      → unlinked n m x ≡ entry (m n) (m x) xs
  unlinked-before x [] ys is alone (node e back (node e' back' rest)) =
      ap (unlinked n m) (sym back') ∙ unlinked-back l (omega arith)
  unlinked-before x (x' ∷ xs) ys is (apart, alone) (node e back (node e' back' rest)) =
      let other =
        All-Among (λ b. x ≢ b) (x' ∷ xs ++ n ∷ ys) apart
          (Among-left (x' ∷ xs) (n ∷ ys) (back-Among n xs ys rest)) in
      let aligned = l.next_aligned in unlinked-other l x (λ _. other) (λ _ e. omega arith)

  pub Chain-unlinked :
      (xs ys : List Ptr) {prev at : Ptr}
      → All IsNode (xs ++ n ∷ ys)
      → Distinct (xs ++ n ∷ ys)
      → Fresh prev (xs ++ n ∷ ys)
      → prev % 16 ≡ 0
      → Chain m prev at (xs ++ n ∷ ys)
      → Chain (unlinked n m) prev (entry (m n) at xs) (xs ++ ys)
  Chain-unlinked [] [] nodes alone apart aligned (node e back (ends z)) = ends z
  Chain-unlinked [] (y ∷ ys) {prev} (n_is, (y_is, nodes)) (apart_n, (apart_y, alone))
        (prev_n, (prev_y, apart)) aligned (node e back (node e' back' rest)) =
      let some : 0 < m n = omega arith in
      let spare_y : unlinked n m y ≡ m y =
        unlinked-other l y (λ _ e. omega arith) (λ _ e. omega arith) in
      node e' (ap (λ (t : ℕ). unlinked n m (t + 8)) (sym e') ∙ unlinked-next l some ∙ back) (
        rw spare_y (
          Chain-frame (unlinked n m) rest (λ q i.
            let q_is = All-Among IsNode ys nodes i in
            let q_prev = All-Among (λ b. prev ≢ b) ys apart i in
            let q_y = All-Among (λ b. y ≢ b) ys apart_y i in
            (
              unlinked-other l q (λ _ e. omega arith) (λ _ e. omega arith),
              unlinked-other l (q + 8) (λ _ e. omega arith) (λ _ e. omega arith),
            ))))
  Chain-unlinked (x ∷ xs) ys (x_is, nodes) (apart_x, alone) apart aligned (node e back rest) =
      let still = Chain-unlinked xs ys nodes alone apart_x (omega arith) rest in
      let back_aligned = l.back_aligned in
      let after : 0 < m n → x ≢ m n = λ some. elim (next-Among n xs ys rest) [
        | inl none ↦ absurd (omega arith)
        | inr i ↦ All-Among (λ b. x ≢ b) (xs ++ n ∷ ys) apart_x (Among-right xs (n ∷ ys) (later i))
      ] in
      let spared =
        unlinked-other l (x + 8) (λ _ e. omega arith) (λ some e. after some (omega arith)) in
      node e (spared ∙ back)
        (rw (unlinked-before x xs ys x_is (apart_x, alone) (node e back rest)) still)

-- The pointers of a node of a list that starts behind NULL.
pub Links-Chain :
    {m : Memory} {at : Ptr} (n : Ptr) (xs ys : List Ptr)
    → All IsNode (xs ++ n ∷ ys)
    → Distinct (xs ++ n ∷ ys)
    → Chain m 0 at (xs ++ n ∷ ys)
    → Links n m
Links-Chain {m} n xs ys nodes alone chain =
    let here = All-Among IsNode (xs ++ n ∷ ys) nodes (Among-right xs (n ∷ ys) (first refl)) in
    let others = (Distinct-split n xs ys alone).1 in
    let of : (p : Ptr) → (p ≡ 0) ⊎ Among p (xs ++ ys) → (p % 16 ≡ 0) × (p ≢ n) × (p < word_end) =
      λ p c. elim c [
        | inl z ↦ (omega arith, (λ e. omega arith), omega arith)
        | inr i ↦
            let p_is = All-Among IsNode (xs ++ n ∷ ys) nodes (Among-middle n xs ys i) in
            let p_n = All-Among (λ b. n ≢ b) (xs ++ ys) others i in
            (omega arith, (λ e. p_n (sym e)), omega arith)
      ] in
    let back =
      of (m (n + 8)) (elim (back-Among n xs ys chain) [
        | first z ↦ inl z
        | later i ↦ inr (Among-left xs ys i)
      ]) in
    let next =
      of (m n)
        (elim (next-Among n xs ys chain) [ inl z ↦ inl z | inr i ↦ inr (Among-right xs ys i) ]) in
    record {
      here = here;
      back_aligned = back.0;
      next_aligned = next.0;
      back_other = back.1;
      next_other = next.1;
      back_small = back.2;
      next_small = next.2;
    }
