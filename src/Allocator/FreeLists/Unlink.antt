-- ===== src/Allocator/FreeLists/Unlink.antt =====
-- The links of a free list after `list_remove` of C-Allocator/src/balloc.c, and the addresses it
-- spares.
use foundations_lab.Base.{ℕ, ◌+◌, ◌%◌, ◌<◌, ◌≡◌, ◌≢◌, ap, sym, ◌∙◌, arith}
use foundations_lab.Allocator.Words.{word_end}
use foundations_lab.Allocator.Memory.{Ptr, Memory, put}
use foundations_lab.Allocator.FreeLists.{skip_forward, skip_back}
use foundations_lab.Allocator.FreeLists.Chain.{IsNode}

-- The memory that `list_remove` leaves.
abbrev pub unlinked : Ptr → Memory → Memory
unlinked n m = skip_back n (skip_forward n m)

-- The two pointers of a node of a list: NULL, or other nodes.
pub record Links (n : Ptr) (m : Memory) : Type 0 where
  pub here : IsNode n
  pub back_aligned : m (n + 8) % 16 ≡ 0
  pub next_aligned : m n % 16 ≡ 0
  pub back_other : m (n + 8) ≢ n
  pub next_other : m n ≢ n
  pub back_small : m (n + 8) < word_end
  pub next_small : m n < word_end

module _ (n : Ptr) (m : Memory) where
  skip_forward-other : (x : Ptr) → (0 < m (n + 8) → x ≢ m (n + 8)) → skip_forward n m x ≡ m x
  unfolding skip_forward put
  skip_forward-other x h = ground (arith, h)

  skip_forward-back : 0 < m (n + 8) → m n < word_end → skip_forward n m (m (n + 8)) ≡ m n
  unfolding skip_forward put
  skip_forward-back h k = ground arith

  skip_back-other : (x : Ptr) → (0 < m n → x ≢ m n + 8) → skip_back n m x ≡ m x
  unfolding skip_back put
  skip_back-other x h = ground (arith, h)

  skip_back-next : 0 < m n → m (n + 8) < word_end → skip_back n m (m n + 8) ≡ m (n + 8)
  unfolding skip_back put
  skip_back-next h k = ground arith

module _ {n : Ptr} {m : Memory} (l : Links n m) where
  forward_next : skip_forward n m n ≡ m n
  forward_next = skip_forward-other n m n (λ _ e. l.back_other (sym e))

  forward_prev : skip_forward n m (n + 8) ≡ m (n + 8)
  forward_prev =
      let aligned = l.back_aligned in
      let here = l.here in skip_forward-other n m (n + 8) (λ _ e. omega arith)

  pub unlinked-other :
      (x : Ptr) → (0 < m (n + 8) → x ≢ m (n + 8)) → (0 < m n → x ≢ m n + 8) → unlinked n m x ≡ m x
  unlinked-other x h k =
      skip_back-other n (skip_forward n m) x (rw forward_next k) ∙ skip_forward-other n m x h

  pub unlinked-back : 0 < m (n + 8) → unlinked n m (m (n + 8)) ≡ m n
  unlinked-back h =
      let aligned = l.back_aligned in
      let next = l.next_aligned in
      skip_back-other n (skip_forward n m) (m (n + 8)) (rw forward_next (λ _ e. omega arith))
      ∙ skip_forward-back n m h l.next_small

  pub unlinked-next : 0 < m n → unlinked n m (m n + 8) ≡ m (n + 8)
  unlinked-next h =
      ap (λ (t : ℕ). unlinked n m (t + 8)) (sym forward_next)
      ∙ skip_back-next n (skip_forward n m) (rw forward_next h) (rw forward_prev l.back_small)
      ∙ forward_prev
