-- ===== src/LinkedList/Alloc.antt =====
-- What the pool of common.c hands out.
use mambo.Base.{
  ℕ, zero, suc, ◌-◌, ◌<◌, ◌≤◌, ◌≡◌, ◌∙◌, refl, ap, true, false, Option, none, some, List, ltb, leb,
  ◌==◌, if◌then◌else◌, length, length-set, get_or, get_or-set_self, get_or-set_ne, arith, inl, inr,
  Bool-cases, Returns,
}
use mambo.LinkedList.{
  LlEntry, Pool, null_entry, next_of, put_next, link_rounds, linked_list_init, linked_list_alloc,
}

-- The pool after some calls.
unfoldable pub alloc_times : ℕ → Pool → Pool
alloc_times zero list = list
alloc_times (suc k) list = (linked_list_alloc (alloc_times k list)).1

next-put_next :
    (pool : List LlEntry) (i j : ℕ) (next : Option ℕ)
    → i < length pool
    → next_of (put_next pool i next) j ≡ (if i == j then next else next_of pool j)
next-put_next pool i j next h =
    let v : LlEntry = record (get_or pool i null_entry) { next = next } in
    elim (Bool-cases (i == j)) [
      | inl same ↦
          let e : j ≡ i = ground arith in
          rw (same, e) (ap (λ (x : LlEntry). x.next) (get_or-set_self pool i v null_entry h))
      | inr other ↦
          rw other
            (ap (λ (x : LlEntry). x.next) (get_or-set_ne pool i j v null_entry (ground arith)))
    ]

length-link_rounds : (n : ℕ) (pool : List LlEntry) → length (link_rounds n pool) ≡ length pool
unfolding link_rounds
length-link_rounds zero pool = refl
length-link_rounds (suc i) pool = length-set (link_rounds i pool) i _ ∙ length-link_rounds i pool

next-link_rounds :
    (n : ℕ) (pool : List LlEntry) (j : ℕ)
    → n ≤ length pool
    → j < n
    → next_of (link_rounds n pool) j ≡ some (suc j)
unfolding link_rounds
next-link_rounds zero pool j h l = absurd (omega arith)
next-link_rounds (suc i) pool j h l =
    let size = length-link_rounds i pool in
    next-put_next (link_rounds i pool) i j (some (suc i)) (omega (arith, size))
    ∙ elim (Bool-cases (i == j)) [
      | inl same ↦ let e : j ≡ i = ground arith in rw (same, e) refl
      | inr other ↦ rw other (next-link_rounds i pool j (omega arith) (ground arith))
    ]

-- The entry that is free after k calls on a pool of n entries.
abbrev pub from : ℕ → ℕ → Option ℕ
from n k = if ltb k n then some k else none

-- The entries from k on are linked in order.
abbrev Chained : ℕ → ℕ → Pool → Type 0
Chained n k list =
    (list.free_list ≡ from n k)
    × (n ≤ length list.pool)
    × ((i : ℕ) → k ≤ i → i < n → next_of list.pool i ≡ from n (suc i))

last_link :
    (n i : ℕ) (pool : List LlEntry)
    → i < n
    → (i < n - 1 → next_of pool i ≡ some (suc i))
    → (if (n - 1) == i then none else next_of pool i) ≡ from n (suc i)
last_link n i pool h before = elim (Bool-cases ((n - 1) == i)) [
  | inl last ↦ let end : ltb (suc i) n ≡ false = ground arith in rw (last, end) refl
  | inr inner ↦
      let more : ltb (suc i) n ≡ true = ground arith in rw (inner, more) (before (ground arith))
]

alloc_step :
    (n k : ℕ) (list : Pool)
    → Chained n k list
    → ((linked_list_alloc list).0 ≡ from n k) × Chained n (suc k) (linked_list_alloc list).1
unfolding linked_list_alloc
alloc_step n k list (free, room, links) = elim (Bool-cases (ltb k n)) [
  | inl more ↦
      let head : list.free_list ≡ some k = free ∙ rw more refl in
      let inside : k < length list.pool = ground arith in
      let rest : next_of list.pool k ≡ from n (suc k) = links k (omega arith) (ground arith) in
      rw (head, more)
        (
          refl,
          (
            rest,
            omega (
              arith,
              room,
              length-set list.pool k (record (get_or list.pool k null_entry) { next = none }),
            ),
            λ i l u.
                next-put_next list.pool k i none inside
                ∙ (let other : (k == i) ≡ false = ground arith in
                    rw other (links i (omega arith) u)),
          ),
        )
  | inr done ↦
      let empty : list.free_list ≡ none = free ∙ rw done refl in
      let still : ltb (suc k) n ≡ false = ground arith in
      rw (empty, done) (refl, (rw still refl, room, λ i l u. links i (omega arith) u))
]

alloc_times-Chained :
    (n : ℕ) (list : Pool) → Chained n 0 list → (k : ℕ) → Chained n k (alloc_times k list)
unfolding alloc_times
alloc_times-Chained n list h zero = h
alloc_times-Chained n list h (suc k) =
    (alloc_step n k (alloc_times k list) (alloc_times-Chained n list h k)).1

-- For a size from 1 up to the entries of the pool, `linked_list_init` returns, and then the call
-- number k of `linked_list_alloc`, from 0, gives the entry k of the pool if k is below the size, and
-- NULL from then on.
pub linked_list_alloc_lem :
    (list : Pool) (n : ℕ)
    → 1 ≤ n
    → n ≤ length list.pool
    → Returns
        (linked_list_init list n)
        λ s. (k : ℕ) → (linked_list_alloc (alloc_times k s)).0 ≡ from n k
unfolding linked_list_init
linked_list_alloc_lem list n h room =
    let positive : leb 1 n ≡ true = ground arith in
    let linked = link_rounds (n - 1) list.pool in
    let size : length linked ≡ length list.pool = length-link_rounds (n - 1) list.pool in
    let s : Pool = record { size = n; free_list = some 0; pool = put_next linked (n - 1) none } in
    let first : ltb 0 n ≡ true = ground arith in
    let chained : Chained n 0 s = (
      rw first refl,
      omega (
        arith,
        room,
        size,
        length-set linked (n - 1) (record (get_or linked (n - 1) null_entry) { next = none }),
      ),
      λ i l u.
          next-put_next linked (n - 1) i none (omega (arith, size))
          ∙ last_link n i linked u (next-link_rounds (n - 1) list.pool i (omega arith)),
    ) in
    rw positive
      (s, refl, λ k. (alloc_step n k (alloc_times k s) (alloc_times-Chained n s chained k)).0)
