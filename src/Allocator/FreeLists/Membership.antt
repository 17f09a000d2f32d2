-- ===== src/Allocator/FreeLists/Membership.antt =====
-- Which nodes are listed in C-Allocator/src/balloc.c after `list_insert` and after `list_remove`,
-- without their order.
use foundations_lab.Base.{
  ℕ, ◌≡◌, ◌≢◌, ◌⊎◌, refl, sym, List, ◌∷◌, ◌++◌, Among, first, later, All-Among, Distinct-split,
  Among-split, Among-without, subst,
}
use foundations_lab.Allocator.Memory.{Ptr, Heap}
use foundations_lab.Allocator.FreeLists.{size_class, list_insert, list_remove}
use foundations_lab.Allocator.FreeLists.Chain.{IsNode}
use foundations_lab.Allocator.FreeLists.Classes.{size_class_lt}
use foundations_lab.Allocator.FreeLists.Filed.{
  Files, Filed, refile, refile_self, refile-elim, inserted-Among,
}
use foundations_lab.Allocator.FreeLists.Refiled.{
  OffLinks, kept-Among, here_alone, list_insert-Filed, list_remove-Filed,
}

-- The nodes but `n`.
pub record Taken (fs fs' : Files) (n : Ptr) : Type 0 where
  pub was : (d : ℕ) (p : Ptr) → Among p (fs' d) → Among p (fs d)
  pub gone : (d : ℕ) → Among n (fs' d) → ⊥
  pub kept : (d : ℕ) (p : Ptr) → p ≢ n → Among p (fs d) → Among p (fs' d)

-- The nodes and, in class `c`, `n`.
pub record Added (fs fs' : Files) (n : Ptr) (c : ℕ) : Type 0 where
  pub came : (d : ℕ) (p : Ptr) → Among p (fs' d) → ((p ≡ n) × (d ≡ c)) ⊎ Among p (fs d)
  pub here : Among n (fs' c)
  pub kept : (d : ℕ) (p : Ptr) → Among p (fs d) → Among p (fs' d)

pub list_remove-Taken :
    (h : Heap) (fs : Files) (n : Ptr) (size : ℕ)
    → Filed h.memory h.g_class fs
    → Among n (fs (size_class size))
    → let h' = list_remove n size h in
      (fs' : Files) × Filed h'.memory h'.g_class fs'
      × Taken fs fs' n
      × ((x : Ptr) → OffLinks fs x → h'.memory x ≡ h.memory x)
list_remove-Taken h fs n size f i =
    let c = size_class size in
    let (xs, ys, parted) = Among-split (fs c) i in
    let (f', same, _, _) = list_remove-Filed h fs n size xs ys f parted in
    let was = kept-Among f c (size_class_lt size) n xs ys parted in
    let fresh = (Distinct-split n xs ys (here_alone f c (size_class_lt size) n xs ys parted)).1 in
    (
      refile fs c (xs ++ ys),
      f',
      record {
        was = was;
        gone = λ d j.
            let same_class = f'.apart d d n j j in
            let in_c = f.apart d c n (was d n j) i in
            All-Among (λ p. n ≢ p) (xs ++ ys) fresh
              (subst (λ (t : List Ptr). Among n t) (refile_self fs c (xs ++ ys))
                (subst (λ (t : ℕ). Among n (refile fs c (xs ++ ys) t)) in_c j))
              refl;
        kept =
            refile-elim (λ d ps. (p : Ptr) → p ≢ n → Among p (fs d) → Among p ps) fs c (xs ++ ys)
              (λ p other j. Among-without n xs ys (subst (Among p) parted j) other)
              (λ d _ p _ j. j);
      },
      same,
    )

pub list_insert-Added :
    (h : Heap) (fs : Files) (n : Ptr) (size : ℕ)
    → Filed h.memory h.g_class fs
    → IsNode n
    → ((d : ℕ) → Among n (fs d) → ⊥)
    → let h' = list_insert n size h in
      (fs' : Files) × Filed h'.memory h'.g_class fs'
      × Added fs fs' n (size_class size)
      × ((x : Ptr) → OffLinks fs' x → h'.memory x ≡ h.memory x)
list_insert-Added h fs n size f is new =
    let c = size_class size in
    let (f', same, _, _) = list_insert-Filed h fs n size f is new in
    let ps = n ∷ fs c in
    (
      refile fs c ps,
      f',
      record {
        came = inserted-Among f n is new c;
        here = subst (λ (t : List Ptr). Among n t) (sym (refile_self fs c ps)) (first refl);
        kept =
            refile-elim (λ d qs. (p : Ptr) → Among p (fs d) → Among p qs) fs c ps (λ p j. later j)
              (λ d _ p j. j);
      },
      same,
    )
