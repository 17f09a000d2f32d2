-- ===== src/Allocator/FreeLists/Filed.antt =====
-- The sixteen free lists of C-Allocator/src/balloc.c together: what they hold, by class, and how
-- `list_insert` and `list_remove` change it.
use foundations_lab.Base.{
  ℕ, ◌+◌, ◌%◌, ◌<◌, ◌≡◌, ◌≢◌, ◌⊎◌, inl, inr, refl, sym, ◌∙◌, List, [], ◌∷◌, arith, All, Among,
  first, later, All-Among, All-of, Distinct, length, get_or, set, length-set, get_or-set_self,
  get_or-set_ne, ◌==◌, if◌then◌else◌, Bool-cases, ==→eq, ==→ne, eq→==, ne→==, subst,
}
use foundations_lab.Allocator.Memory.{Ptr, Memory}
use foundations_lab.Allocator.FreeLists.{link_front}
use foundations_lab.Allocator.FreeLists.Chain.{Chain, ends, node, IsNode, Chain-frame}
use foundations_lab.Allocator.FreeLists.Links.{link_front-other, Chain-link_front}

-- The nodes of each class, in the order of its list.
abbrev pub Files : Type 0
Files = ℕ → List Ptr

abbrev pub refile : Files → ℕ → List Ptr → Files
refile fs c ps d = if d == c then ps else fs d

-- The lists of the heads `heads` hold the nodes `fs`, each node once.
pub record Filed (m : Memory) (heads : List Ptr) (fs : Files) : Type 0 where
  pub count : length heads ≡ 16
  pub chains : (c : ℕ) → Chain m 0 (get_or heads c 0) (fs c)
  pub nodes : (c : ℕ) → All IsNode (fs c)
  pub alone : (c : ℕ) → Distinct (fs c)
  pub apart : (c d : ℕ) (p : Ptr) → Among p (fs c) → Among p (fs d) → c ≡ d

pub refile_self : (fs : Files) (c : ℕ) (ps : List Ptr) → refile fs c ps c ≡ ps
refile_self fs c ps = rw (eq→== c c refl) refl

pub refile_other : (fs : Files) (c d : ℕ) (ps : List Ptr) → d ≢ c → refile fs c ps d ≡ fs d
refile_other fs c d ps h = rw (ne→== d c h) refl

-- What holds of the new list of one class and of the old lists of the others holds of all.
pub refile-elim {ℓ} :
    (P : ℕ → List Ptr → Type ℓ) (fs : Files) (c : ℕ) (ps : List Ptr)
    → P c ps
    → ((d : ℕ) → d ≢ c → P d (fs d))
    → (d : ℕ) → P d (refile fs c ps d)
refile-elim P fs c ps here others d = elim (Bool-cases (d == c)) [
  | inl same ↦ rw same (subst (λ (t : ℕ). P t ps) (sym (==→eq d c same)) here)
  | inr other ↦ rw other (others d (==→ne d c other))
]

-- The head of a list is NULL or on it.
pub at-Among :
    {m : Memory} {prev at : Ptr} (ps : List Ptr) → Chain m prev at ps → (at ≡ 0) ⊎ Among at ps
at-Among [] (ends z) = inl z
at-Among (p ∷ ps) (node e back rest) = inr (first e)

module _ {m : Memory} {heads : List Ptr} {fs : Files} (f : Filed m heads fs) where
  -- A write to the links of nodes of one class spares the links of the others.
  module _ (n : Ptr) (is : IsNode n) (new : (d : ℕ) → Among n (fs d) → ⊥) (c : ℕ) where
    pub inserted-Among :
        (d : ℕ) (p : Ptr)
        → Among p (refile fs c (n ∷ fs c) d)
        → ((p ≡ n) × (d ≡ c)) ⊎ Among p (fs d)
    inserted-Among d p i =
        refile-elim (λ d ps. Among p ps → ((p ≡ n) × (d ≡ c)) ⊎ Among p (fs d)) fs c (n ∷ fs c)
          (λ j. elim j [ first e ↦ inl (e, refl) | later k ↦ inr k ]) (λ d _ j. inr j) d i

    -- The old head is another node of the class, or NULL.
    head_spared : (p : Ptr) → IsNode p → (Among p (fs c) → ⊥) → p ≢ get_or heads c 0
    head_spared p p_is out e = elim (at-Among (fs c) (f.chains c)) [
      | inl z ↦ absurd (omega arith)
      | inr i ↦ out (subst (λ (t : Ptr). Among t (fs c)) (sym e) i)
    ]

    head_aligned : get_or heads c 0 % 16 ≡ 0
    head_aligned = elim (at-Among (fs c) (f.chains c)) [
      | inl z ↦ omega arith
      | inr i ↦ let is' = All-Among IsNode (fs c) (f.nodes c) i in omega arith
    ]

    pub Filed-insert :
        c < 16 → Filed (link_front n (get_or heads c 0) m) (set heads c n) (refile fs c (n ∷ fs c))
    Filed-insert h =
        let fresh =
          All-of (λ q. n ≢ q) (fs c)
            (λ q i e. new c (subst (λ (t : Ptr). Among t (fs c)) (sym e) i)) in
        let in_range : c < length heads = rw f.count h in
        record {
          count = length-set heads c n ∙ f.count;
          chains =
              refile-elim
                (λ d ps.
                  Chain (link_front n (get_or heads c 0) m) 0 (get_or (set heads c n) d 0) ps)
                fs c (n ∷ fs c)
                (rw (get_or-set_self heads c n 0 in_range) (
                  Chain-link_front n (get_or heads c 0) m (fs c) is (f.nodes c) fresh (f.alone c)
                    (f.chains c)))
                (λ d other. rw (get_or-set_ne heads c d n 0 (λ e. other (sym e))) (
                  Chain-frame (link_front n (get_or heads c 0) m) (f.chains d) (λ q i.
                    let q_is = All-Among IsNode (fs d) (f.nodes d) i in
                    let q_n : q ≢ n = λ e. new d (subst (λ (t : Ptr). Among t (fs d)) e i) in
                    let q_head = head_spared q q_is (λ j. other (f.apart d c q i j)) in
                    (
                      link_front-other n (get_or heads c 0) m q q_n (λ e. omega arith)
                          (λ _ e. let al = head_aligned in omega arith),
                      link_front-other n (get_or heads c 0) m (q + 8) (λ e. omega arith)
                          (λ e. omega arith) (λ _ e. omega arith),
                    ))));
          nodes =
              refile-elim (λ d ps. All IsNode ps) fs c (n ∷ fs c) (is, f.nodes c)
                (λ d _. f.nodes d);
          alone =
              refile-elim (λ d ps. Distinct ps) fs c (n ∷ fs c) (fresh, f.alone c)
                (λ d _. f.alone d);
          apart = λ d e p i j. elim (inserted-Among d p i) [
            | inl (is_n, here) ↦ elim (inserted-Among e p j) [
              | inl (_, there) ↦ here ∙ sym there
              | inr k ↦ absurd (new e (subst (λ (t : Ptr). Among t (fs e)) is_n k))
            ]
            | inr k ↦ elim (inserted-Among e p j) [
              | inl (is_n, there) ↦ absurd (new d (subst (λ (t : Ptr). Among t (fs d)) is_n k))
              | inr k' ↦ f.apart d e p k k'
            ]
          ];
        }
