-- ===== src/LinkedList.antt =====
-- common.c and common.h: the pool of linked list entries, from which the code cache links are taken.
-- A pointer into the pool is an index; NULL is none. The field `data` is `content` here.
pub mod Alloc
mod Tests
use mambo.Base.{
  ℕ, zero, suc, ◌-◌, Option, none, some, List, leb, get_or, set, Outcome, ok, ◌>>=◌, ◌>>◌, assert,
}

pub record LlEntry : Type 0 where
  pub next : Option ℕ
  pub content : ℕ

-- `ll`
pub record Pool : Type 0 where
  pub free_list : Option ℕ
  pub size : ℕ
  pub pool : List LlEntry

abbrev pub null_entry : LlEntry
null_entry = record { next = none; content = 0 }

-- `list->pool[i].next`, read and written
abbrev pub next_of : List LlEntry → ℕ → Option ℕ
next_of pool i = (get_or pool i null_entry).next

abbrev pub put_next : List LlEntry → ℕ → Option ℕ → List LlEntry
put_next pool i next = set pool i (record (get_or pool i null_entry) { next = next })

-- The rounds of the loop for the indices below i, upwards.
unfoldable pub link_rounds : ℕ → List LlEntry → List LlEntry
link_rounds zero pool = pool
link_rounds (suc i) pool = put_next (link_rounds i pool) i (some (suc i))

unfoldable pub linked_list_init : Pool → ℕ → Outcome Pool
linked_list_init list size =
    assert (leb 1 size)
    >> ok (record {
      size = size;
      free_list = some 0;
      pool = put_next (link_rounds (size - 1) list.pool) (size - 1) none;
    })

unfoldable pub linked_list_alloc : Pool → Option ℕ × Pool
linked_list_alloc list = elim list.free_list [
  | none ↦ (none, list)
  | some entry ↦ (
    some entry,
    record list { free_list = next_of list.pool entry; pool = put_next list.pool entry none },
  )
]
