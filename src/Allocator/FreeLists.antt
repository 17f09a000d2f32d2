-- ===== src/Allocator/FreeLists.antt =====
-- The sixteen free lists of C-Allocator/src/balloc.c: the class of a size, and a block put on the
-- list of its class and taken off it. The two links stand in the block's payload.
pub mod Classes
pub mod Chain
pub mod Links
pub mod Unlink
pub mod Removed
pub mod Filed
pub mod Refiled
pub mod Membership
pub mod Longest
use foundations_lab.Base.{ℕ, zero, suc, ◌+◌, ◌-◌, ◌/◌, List, if◌then◌else◌, ◌==◌, get_or, set}
use foundations_lab.Allocator.Memory.{
  Ptr, null, Memory, put, next_field, prev_field, Heap, class_count,
}

-- The loop of `size_class`, with `left` classes above the present one.
unfoldable pub class_loop : (left size class : ℕ) → ℕ
class_loop zero size class = class
class_loop (suc left) size class =
    if size == 0 then class else class_loop left (size / 2) (class + 1)

unfoldable pub size_class : ℕ → ℕ
unfolding class_loop
size_class size = class_loop (class_count - 1) (size / 32) 0

-- The links of `list_insert`: `n` stands before the node that `head` points at.
unfoldable pub link_front : Ptr → Ptr → Memory → Memory
link_front n head m =
    let linked = put (next_field n) head (put (prev_field n) null m) in
    if head == null then linked else put (prev_field head) n linked

unfoldable pub list_insert : Ptr → ℕ → Heap → Heap
list_insert n size h =
    let class = size_class size in
    record h {
      memory = link_front n (get_or h.g_class class null) h.memory;
      g_class = set h.g_class class n;
    }

-- `if (n->prev) n->prev->next = n->next;`
unfoldable pub skip_forward : Ptr → Memory → Memory
skip_forward n m =
    if m (prev_field n) == null then m else put (next_field (m (prev_field n))) (m (next_field n)) m

-- `if (n->next) n->next->prev = n->prev;`
unfoldable pub skip_back : Ptr → Memory → Memory
skip_back n m =
    if m (next_field n) == null then m else put (prev_field (m (next_field n))) (m (prev_field n)) m

unfoldable pub list_remove : Ptr → ℕ → Heap → Heap
list_remove n size h =
    let class = size_class size in
    record h {
      memory = skip_back n (skip_forward n h.memory);
      g_class =
          if h.memory (prev_field n) == null
          then set h.g_class class (h.memory (next_field n))
          else h.g_class;
    }
