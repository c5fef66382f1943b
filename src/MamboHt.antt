-- ===== src/MamboHt.antt =====
-- api/hash_table.c and api/hash_table.h: the growing hash table of the plugins, with linear probing
-- that wraps around. `calloc` says for a number of cells if the memory is there, and `mutex` what the
-- call of the mutex returns.
pub mod Probe
pub mod Add
mod Tests
use Prim.Native.Nat.{bit_and}
use mambo.Base.{
  ℕ, zero, suc, ◌+◌, ◌-◌, ◌*◌, ◌/◌, ◌^◌, Bool, true, false, not, ◌&&◌, ◌||◌, List, [], ◌∷◌, ltb,
  leb, ◌==◌, if◌then◌else◌, get_or, set, replicate, ℤ, pos, negsuc, Option, none, some, minus_one,
  is_zero, Outcome, ok, hang, ◌>>=◌, ◌>>◌, assert,
}
use mambo.Base.Int.{ltb_ℤ, pos_part}

pub record HtEntry : Type 0 where
  pub key : ℕ
  pub value : ℕ

pub record Ht : Type 0 where
  pub size : ℕ
  pub entry_count : ℕ
  pub index_shift : ℕ
  pub allow_resize : Bool
  pub fill_factor : ℕ
  pub resize_threshold : ℕ
  pub entries : List HtEntry

abbrev pub no_entry : HtEntry
no_entry = record { key = 0; value = 0 }

abbrev pub entry_at : Ht → ℕ → HtEntry
entry_at ht i = get_or ht.entries i no_entry

abbrev pub key_of : Ht → ℕ → ℕ
key_of ht i = (entry_at ht i).key

-- `while (size < initial_size) size <<= 1`
unfoldable pub round_up : ℕ → ℕ → ℕ → Outcome ℕ
round_up zero size initial_size = hang
round_up (suc fuel) size initial_size =
    let rest = round_up fuel (size * 2) initial_size in
    if ltb size initial_size then rest else ok size

unfoldable pub mambo_ht_init : (ℕ → Bool) → ℤ → Ht → ℕ → ℤ → ℤ → Bool → Outcome (ℤ × Ht)
mambo_ht_init calloc mutex ht initial_size index_shift fill_factor allow_resize =
    if ltb_ℤ fill_factor (pos 10) || ltb_ℤ (pos 90) fill_factor
    then ok (minus_one, ht)
    else if ltb_ℤ index_shift (pos 0) || ltb_ℤ (pos 20) index_shift
    then ok (minus_one, ht)
    else (round_up (suc initial_size) 1 initial_size >>= λ size.
        if not (is_zero mutex)
        then ok (minus_one, ht)
        else if not (calloc size)
        then ok (minus_one, record ht { entries = [] })
        else ok (
          pos 0,
          record {
            size = size;
            entry_count = 0;
            index_shift = pos_part index_shift;
            allow_resize = allow_resize;
            fill_factor = pos_part fill_factor;
            resize_threshold = size * pos_part fill_factor / 100;
            entries = replicate size no_entry;
          },
        ))

-- The `while` loop of the probes from an index on; it gives the index that it stops at.
unfoldable pub probe : ℕ → Ht → ℕ → ℕ → Outcome ℕ
probe zero ht key index = hang
probe (suc fuel) ht key index =
    let rest = probe fuel ht key (bit_and (index + 1) (ht.size - 1)) in
    if not (key_of ht index == 0) && not (key_of ht index == key) then rest else ok index

abbrev pub home : Ht → ℕ → ℕ
home ht key = bit_and (key / 2 ^ ht.index_shift) (ht.size - 1)

-- The writes of `mambo_ht_add_nolock` behind the loop.
abbrev pub put : Ht → ℕ → ℕ → ℕ → Ht
put ht key value index = record ht {
  entry_count = if key_of ht index == 0 then suc ht.entry_count else ht.entry_count;
  entries = set ht.entries index (record { key = key; value = value });
}

-- The loop of `__mambo_ht_resize` over the previous cells, with the function that adds.
unfoldable pub rehash : (Ht → ℕ → ℕ → Outcome (ℤ × Ht)) → List HtEntry → Ht → Outcome Ht
rehash add [] ht = ok ht
rehash add (e ∷ prev_entries) ht =
    if not (e.key == 0)
    then (do (ret, ht') ← add ht e.key e.value; assert (is_zero ret); rehash add prev_entries ht')
    else rehash add prev_entries ht

unfoldable pub mambo_ht_resize :
    (ℕ → Bool) → (Ht → ℕ → ℕ → Outcome (ℤ × Ht)) → Ht → Outcome (ℤ × Ht)
mambo_ht_resize calloc add ht =
    let new_size = ht.size * 2 in
    if not (calloc new_size) then ok (minus_one, ht) else (do
      ht' ← rehash add ht.entries (record ht {
        entries = replicate new_size no_entry;
        entry_count = 0;
        size = new_size;
        resize_threshold = new_size * ht.fill_factor / 100;
      })
      ok (pos 0, ht'))

-- The fuel bounds the depth of the calls through `__mambo_ht_resize`.
unfoldable pub mambo_ht_add_nolock : ℕ → (ℕ → Bool) → Ht → ℕ → ℕ → Outcome (ℤ × Ht)
mambo_ht_add_nolock zero calloc ht key value = hang
mambo_ht_add_nolock (suc fuel) calloc ht key value =
    let grown = mambo_ht_resize calloc (mambo_ht_add_nolock fuel calloc) ht in
    let insert : Ht → Outcome (ℤ × Ht) =
      λ ht'. probe ht'.size ht' key (home ht' key) >>= λ i. ok (pos 0, put ht' key value i) in
    if key == 0
    then ok (minus_one, ht)
    else if leb ht.resize_threshold ht.entry_count
    then (if ht.allow_resize
        then (grown >>= (λ r. assert (is_zero r.0) >> insert r.1))
        else ok (minus_one, ht))
    else insert ht

-- None leaves the caller's value as it is.
unfoldable pub mambo_ht_get_nolock : Ht → ℕ → Outcome (ℤ × Option ℕ)
mambo_ht_get_nolock ht key =
    if key == 0
    then ok (minus_one, none)
    else (probe ht.size ht key (home ht key) >>= λ i.
        if key_of ht i == key then ok (pos 0, some (entry_at ht i).value) else ok (minus_one, none))

unfoldable pub mambo_ht_add : ℕ → (ℕ → Bool) → ℤ → ℤ → Ht → ℕ → ℕ → Outcome (ℤ × Ht)
mambo_ht_add fuel calloc lock unlock ht key value = do
  assert (is_zero lock)
  r ← mambo_ht_add_nolock fuel calloc ht key value
  assert (is_zero unlock)
  ok r

unfoldable pub mambo_ht_get : ℤ → ℤ → Ht → ℕ → Outcome (ℤ × Option ℕ)
mambo_ht_get lock unlock ht key = do
  assert (is_zero lock)
  r ← mambo_ht_get_nolock ht key
  assert (is_zero unlock)
  ok r
