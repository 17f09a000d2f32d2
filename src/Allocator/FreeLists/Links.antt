-- ===== src/Allocator/FreeLists/Links.antt =====
-- The links of a free list after `list_insert` and `list_remove` of C-Allocator/src/balloc.c, and
-- the addresses they spare.
use foundations_lab.Base.{
  ◌+◌, ◌%◌, ◌<◌, ◌≡◌, ◌≢◌, refl, ap, List, [], ◌∷◌, arith, All, All-Among, Fresh, Distinct,
}
use foundations_lab.Allocator.Words.{word_end}
use foundations_lab.Allocator.Memory.{Ptr, Memory, put}
use foundations_lab.Allocator.FreeLists.{link_front}
use foundations_lab.Allocator.FreeLists.Chain.{Chain, ends, node, IsNode, Chain-frame}

-- Every address but the links of `n` and the back link of the old head is spared.
pub link_front-other :
    (n head : Ptr) (m : Memory) (x : Ptr)
    → x ≢ n
    → x ≢ n + 8
    → (0 < head → x ≢ head + 8)
    → link_front n head m x ≡ m x
unfolding link_front put
link_front-other n head m x h k l = ground (arith, l)

module _ (n head : Ptr) (m : Memory) (is : IsNode n) (aligned : head % 16 ≡ 0) where
  link_front-next : head < word_end → link_front n head m n ≡ head
  unfolding link_front put
  link_front-next small = ground arith

  link_front-prev : head ≢ n → link_front n head m (n + 8) ≡ 0
  unfolding link_front put
  link_front-prev other = ground arith

  link_front-back : 0 < head → link_front n head m (head + 8) ≡ n
  unfolding link_front put
  link_front-back some = ground arith

-- The list behind the old head is the list behind `n`.
pub Chain-link_front :
    (n head : Ptr) (m : Memory) (ps : List Ptr)
    → IsNode n
    → All IsNode ps
    → Fresh n ps
    → Distinct ps
    → Chain m 0 head ps
    → Chain (link_front n head m) 0 n (n ∷ ps)
Chain-link_front n head m [] is nodes apart alone (ends e) =
    node refl (link_front-prev n head m is (omega arith) (omega arith))
      (ends (omega (arith, link_front-next n head m is (omega arith) (omega arith))))
Chain-link_front n head m (p ∷ ps) is (here, nodes) (other, apart) (new, alone) (node e back rest) =
    let m' = link_front n head m in
    let aligned : head % 16 ≡ 0 = omega (arith, here.0) in
    let still = Chain-frame m' rest (λ q i.
      let q_is = All-Among IsNode ps nodes i in
      let q_n = All-Among (λ b. n ≢ b) ps apart i in
      let q_p = All-Among (λ b. p ≢ b) ps new i in
      (
        link_front-other n head m q (omega arith) (omega arith) (λ _. omega arith),
        link_front-other n head m (q + 8) (omega arith) (omega arith) (λ _. omega arith),
      )) in
    let same : m' p ≡ m p =
      link_front-other n head m p (omega arith) (omega arith) (λ _. omega arith) in
    node refl (link_front-prev n head m is aligned (omega arith)) (
      node (omega (arith, link_front-next n head m is aligned (omega arith)))
        (omega (
          arith,
          link_front-back n head m is aligned (omega arith),
          ap m' {x = p + 8} {y = head + 8} (omega arith),
        ))
        (rw same still))
