-- ===== src/Allocator/FreeLists/Refiled.antt =====
-- `list_insert` and `list_remove` of C-Allocator/src/balloc.c put a node at the front of the list of
-- its class and take it off, and touch no other memory than the links of nodes.
use foundations_lab.Base.{
  ℕ, ◌+◌, ◌<◌, ◌≡◌, ◌≢◌, inl, inr, refl, sym, ◌∙◌, List, [], ◌∷◌, ◌++◌, arith, All, Among, first,
  later, All-Among, Distinct, Distinct-split, Among-left, Among-right, Among-middle, length, get_or,
  set, length-set, get_or-set_self, get_or-set_ne, ◌==◌, if◌then◌else◌, Bool-cases, eq→==, ne→==,
  subst, All-of,
}
use foundations_lab.Allocator.Memory.{Ptr, Memory, Heap}
use foundations_lab.Allocator.FreeLists.{size_class, list_insert, list_remove}
use foundations_lab.Allocator.FreeLists.Classes.{size_class_lt}
use foundations_lab.Allocator.FreeLists.Chain.{Chain, node, IsNode, Chain-frame}
use foundations_lab.Allocator.FreeLists.Links.{link_front-other}
use foundations_lab.Allocator.FreeLists.Unlink.{Links, unlinked, unlinked-other}
use foundations_lab.Allocator.FreeLists.Removed.{
  Links-Chain, Chain-unlinked, entry, back-Among, next-Among,
}
use foundations_lab.Allocator.FreeLists.Filed.{
  Files, refile, refile_self, Filed, refile-elim, Filed-insert, at-Among,
}

-- The heads that `list_remove` leaves.
abbrev reheaded : Memory → List Ptr → ℕ → Ptr → List Ptr
reheaded m heads c n = if m (n + 8) == 0 then set heads c (m n) else heads

reheaded-entry :
    {m : Memory} (heads : List Ptr) (c : ℕ) (n : Ptr) (xs ys : List Ptr)
    → c < length heads
    → All IsNode (xs ++ n ∷ ys)
    → Chain m 0 (get_or heads c 0) (xs ++ n ∷ ys)
    → get_or (reheaded m heads c n) c 0 ≡ entry (m n) (get_or heads c 0) xs
reheaded-entry {m} heads c n [] ys small nodes (node e back rest) =
    rw (eq→== (m (n + 8)) 0 back) (get_or-set_self heads c (m n) 0 small)
reheaded-entry {m} heads c n (x ∷ xs) ys small nodes (node e back rest) =
    let some =
      All-Among IsNode (x ∷ xs ++ n ∷ ys) nodes
        (Among-left (x ∷ xs) (n ∷ ys) (back-Among n xs ys rest)) in
    rw (ne→== (m (n + 8)) 0 (λ e. omega arith)) refl

-- An address that is no link of a listed node.
abbrev pub OffLinks : Files → Ptr → Type 0
OffLinks fs x = (d : ℕ) (p : Ptr) → Among p (fs d) → (x ≢ p) × (x ≢ p + 8)

module _ {m : Memory} {heads : List Ptr} {fs : Files} (f : Filed m heads fs) (c : ℕ)
    (small : c < 16) (n : Ptr) (xs ys : List Ptr) (parted : fs c ≡ xs ++ n ∷ ys) where
  here_nodes : All IsNode (xs ++ n ∷ ys)
  here_nodes = subst (All IsNode) parted (f.nodes c)

  pub here_alone : Distinct (xs ++ n ∷ ys)
  here_alone = subst Distinct parted (f.alone c)

  here-Chain : Chain m 0 (get_or heads c 0) (xs ++ n ∷ ys)
  here-Chain = subst (Chain m 0 (get_or heads c 0)) parted (f.chains c)

  pub here-Links : Links n m
  here-Links = Links-Chain n xs ys here_nodes here_alone here-Chain

  before-Among : 0 < m (n + 8) → Among (m (n + 8)) (fs c)
  before-Among some = elim (back-Among n xs ys here-Chain) [
    | first z ↦ absurd (omega arith)
    | later i ↦ subst (Among (m (n + 8))) (sym parted) (Among-left xs (n ∷ ys) i)
  ]

  after-Among : 0 < m n → Among (m n) (fs c)
  after-Among some = elim (next-Among n xs ys here-Chain) [
    | inl z ↦ absurd (omega arith)
    | inr i ↦ subst (Among (m n)) (sym parted) (Among-right xs (n ∷ ys) (later i))
  ]

  head_moved : get_or (reheaded m heads c n) c 0 ≡ entry (m n) (get_or heads c 0) xs
  head_moved = reheaded-entry heads c n xs ys (rw f.count small) here_nodes here-Chain

  heads_kept : (d : ℕ) → d ≢ c → get_or (reheaded m heads c n) d 0 ≡ get_or heads d 0
  heads_kept d other = elim (Bool-cases (m (n + 8) == 0)) [
    | inl z ↦ rw z (get_or-set_ne heads c d (m n) 0 (λ e. other (sym e)))
    | inr some ↦ rw some refl
  ]

  pub kept-Among : (d : ℕ) (p : Ptr) → Among p (refile fs c (xs ++ ys) d) → Among p (fs d)
  kept-Among d p i =
      refile-elim (λ d ps. Among p ps → Among p (fs d)) fs c (xs ++ ys)
        (λ j. subst (Among p) (sym parted) (Among-middle n xs ys j)) (λ d _ j. j) d i

  Filed-remove : Filed (unlinked n m) (reheaded m heads c n) (refile fs c (xs ++ ys))
  Filed-remove = record {
    count = elim (Bool-cases (m (n + 8) == 0)) [
      | inl z ↦ rw z (length-set heads c (m n) ∙ f.count)
      | inr some ↦ rw some f.count
    ];
    chains =
        refile-elim (λ d ps. Chain (unlinked n m) 0 (get_or (reheaded m heads c n) d 0) ps) fs c
          (xs ++ ys)
          (rw head_moved (
            Chain-unlinked here-Links xs ys here_nodes here_alone
              (All-of (λ p. 0 ≢ p) (xs ++ n ∷ ys)
                (λ p i e. let is = All-Among IsNode (xs ++ n ∷ ys) here_nodes i in omega arith))
              refl here-Chain))
          (λ d other. rw (heads_kept d other) (
            Chain-frame (unlinked n m) (f.chains d) (λ q i.
              let q_is = All-Among IsNode (fs d) (f.nodes d) i in
              let back_aligned = here-Links.back_aligned in
              let next_aligned = here-Links.next_aligned in
              (
                unlinked-other here-Links q
                    (λ some e. other (
                      f.apart d c q i
                        (subst (λ (t : Ptr). Among t (fs c)) (sym e) (before-Among some))))
                    (λ _ e. omega arith),
                unlinked-other here-Links (q + 8) (λ _ e. omega arith)
                    (λ some e. other (
                      f.apart d c q i (
                        subst (λ (t : Ptr). Among t (fs c)) {x = m n} {y = q} (omega arith)
                          (after-Among some)))),
              ))));
    nodes =
        refile-elim (λ d ps. All IsNode ps) fs c (xs ++ ys)
          (All-of IsNode (xs ++ ys)
            (λ p i. All-Among IsNode (xs ++ n ∷ ys) here_nodes (Among-middle n xs ys i)))
          (λ d _. f.nodes d);
    alone =
        refile-elim (λ d ps. Distinct ps) fs c (xs ++ ys) (Distinct-split n xs ys here_alone).0
          (λ d _. f.alone d);
    apart = λ d e p i j. f.apart d e p (kept-Among d p i) (kept-Among e p j);
  }

  unlinked-OffLinks : (x : Ptr) → OffLinks fs x → unlinked n m x ≡ m x
  unlinked-OffLinks x off =
      unlinked-other here-Links x (λ some. (off c (m (n + 8)) (before-Among some)).0)
        (λ some. (off c (m n) (after-Among some)).1)

-- In lists that hold the nodes `fs`, `list_insert` of a new node, aligned and not NULL, gives
-- lists that hold the same nodes with the new one in front in the class of its size. It changes no
-- word but the links of these nodes, and neither the chunks nor the statistics.
pub list_insert-Filed :
    (h : Heap) (fs : Files) (n : Ptr) (size : ℕ)
    → Filed h.memory h.g_class fs
    → IsNode n
    → ((d : ℕ) → Among n (fs d) → ⊥)
    → let h' = list_insert n size h in
      let fs' = refile fs (size_class size) (n ∷ fs (size_class size)) in
      Filed h'.memory h'.g_class fs'
      × ((x : Ptr) → OffLinks fs' x → h'.memory x ≡ h.memory x)
      × (h'.g_chunks ≡ h.g_chunks)
      × (h'.g_stats ≡ h.g_stats)
unfolding list_insert
list_insert-Filed h fs n size f is new =
    let c = size_class size in
    let fs' = refile fs c (n ∷ fs c) in
    (
      Filed-insert f n is new c (size_class_lt size),
      (λ x off.
          let listed : (p : Ptr) → Among p (n ∷ fs c) → (x ≢ p) × (x ≢ p + 8) =
            λ p i. off c p (subst (Among p) (sym (refile_self fs c (n ∷ fs c))) i) in
          link_front-other n (get_or h.g_class c 0) h.memory x (listed n (first refl)).0
            (listed n (first refl)).1
            (λ some. elim (at-Among (fs c) (f.chains c)) [
              | inl z ↦ absurd (omega arith)
              | inr i ↦ (listed (get_or h.g_class c 0) (later i)).1
            ])),
      refl,
      refl,
    )

-- In lists that hold the nodes `fs`, with the node in the class of its size, `list_remove` gives
-- lists that hold the same nodes without it, in order. It changes no word but the links of the
-- nodes before, and neither the chunks nor the statistics.
pub list_remove-Filed :
    (h : Heap) (fs : Files) (n : Ptr) (size : ℕ) (xs ys : List Ptr)
    → Filed h.memory h.g_class fs
    → fs (size_class size) ≡ xs ++ n ∷ ys
    → let h' = list_remove n size h in
      Filed h'.memory h'.g_class (refile fs (size_class size) (xs ++ ys))
      × ((x : Ptr) → OffLinks fs x → h'.memory x ≡ h.memory x)
      × (h'.g_chunks ≡ h.g_chunks)
      × (h'.g_stats ≡ h.g_stats)
unfolding list_remove
list_remove-Filed h fs n size xs ys f parted =
    let c = size_class size in
    let small = size_class_lt size in
    (Filed-remove f c small n xs ys parted, unlinked-OffLinks f c small n xs ys parted, refl, refl)
