-- ===== src/Strings.antt =====
-- plugins/memcheck/naive_stdlib.c: the string functions that memcheck puts in place of the C
-- library's. Memory is a function from addresses to bytes; a character is unsigned, as it is on the
-- targets; a loop that only a terminator ends takes fuel, and hangs without.
pub mod Views
pub mod Lengths
pub mod Compare
pub mod Search
pub mod Spans
pub mod Copy
mod Tests
use mambo.Base.{
  ℕ, zero, suc, ◌+◌, ◌-◌, ◌%◌, Bool, true, false, ◌&&◌, not, Option, none, some, ltb, ◌==◌,
  if◌then◌else◌, ℤ, pos, negsuc, minus_one, is_zero, Outcome, ok, hang, ◌>>=◌,
}

abbrev pub Memory : Type 0
Memory = ℕ → ℕ

-- `*address = value`
abbrev pub put : Memory → ℕ → ℕ → Memory
put m address value = λ other. if address == other then value else m other

-- A character against an int: the character is widened, the int is not narrowed.
abbrev pub char_is_int : ℕ → ℤ → Bool
char_is_int char (pos n) = char == n
char_is_int char (negsuc n) = false

-- `(unsigned char)c`
abbrev pub to_char : ℤ → ℕ
to_char (pos n) = n % 256
to_char (negsuc n) = 255 - n % 256

-- The rounds of the loop from i on.
unfoldable pub bcmp_rounds : ℕ → Memory → ℕ → ℕ → ℕ → ℤ
bcmp_rounds zero m a b i = pos 0
bcmp_rounds (suc left) m a b i =
    let rest = bcmp_rounds left m a b (suc i) in if m (a + i) == m (b + i) then rest else minus_one

unfoldable pub memcheck_bcmp : Memory → ℕ → ℕ → ℕ → ℤ
memcheck_bcmp m s1 s2 n = bcmp_rounds n m s1 s2 0

unfoldable pub memcheck_index : ℕ → Memory → ℕ → ℤ → Outcome (Option ℕ)
memcheck_index zero m ptr c = hang
memcheck_index (suc fuel) m ptr c =
    let rest = memcheck_index fuel m (suc ptr) c in
    if m ptr == 0
    then (if is_zero c then ok (some ptr) else ok none)
    else if char_is_int (m ptr) c
    then ok (some ptr)
    else rest

unfoldable pub memchr_rounds : ℕ → Memory → ℕ → ℤ → ℕ → Option ℕ
memchr_rounds zero m p c i = none
memchr_rounds (suc left) m p c i =
    let rest = memchr_rounds left m p c (suc i) in
    if m (p + i) == to_char c then some (p + i) else rest

unfoldable pub memcheck_memchr : Memory → ℕ → ℤ → ℕ → Option ℕ
memcheck_memchr m s c n = memchr_rounds n m s c 0

-- `size_max` is SIZE_MAX of the target.
unfoldable pub memcheck_rawmemchr : ℕ → Memory → ℕ → ℤ → Option ℕ
memcheck_rawmemchr size_max m s c = memcheck_memchr m s c size_max

unfoldable pub rindex_loop : ℕ → Memory → ℕ → ℤ → Option ℕ → Outcome (Option ℕ)
rindex_loop zero m ptr c ret = hang
rindex_loop (suc fuel) m ptr c ret =
    let rest = rindex_loop fuel m (suc ptr) c (if char_is_int (m ptr) c then some ptr else ret) in
    if m ptr == 0 then (if is_zero c then ok (some ptr) else ok ret) else rest

unfoldable pub memcheck_rindex : ℕ → Memory → ℕ → ℤ → Outcome (Option ℕ)
memcheck_rindex fuel m s c = rindex_loop fuel m s c none

-- The increments in the condition end the loop on a null pointer; one of them is done by then.
unfoldable pub memcheck_stpcpy : ℕ → Memory → ℕ → ℕ → Outcome (ℕ × Memory)
memcheck_stpcpy zero m dest source = hang
memcheck_stpcpy (suc fuel) m dest source =
    let written = put m dest (m source) in
    let rest = memcheck_stpcpy fuel written (suc dest) (suc source) in
    if written source == 0
    then ok (dest, written)
    else if source == 0
    then ok (dest, written)
    else if dest == 0
    then ok (suc dest, written)
    else rest

-- The tests after the loop of strcmp and of strncmp.
unfoldable pub order_at : Memory → ℕ → ℕ → ℕ → ℤ
order_at m s1 s2 i =
    if ltb (m (s1 + i)) (m (s2 + i))
    then minus_one
    else if ltb (m (s2 + i)) (m (s1 + i))
    then pos 1
    else pos 0

unfoldable pub strcmp_loop : ℕ → Memory → ℕ → ℕ → ℕ → Outcome ℤ
strcmp_loop zero m s1 s2 i = hang
strcmp_loop (suc fuel) m s1 s2 i =
    let rest = strcmp_loop fuel m s1 s2 (suc i) in
    if (m (s1 + i) == m (s2 + i)) && not (m (s1 + i) == 0) then rest else ok (order_at m s1 s2 i)

unfoldable pub memcheck_strcmp : ℕ → Memory → ℕ → ℕ → Outcome ℤ
memcheck_strcmp fuel m s1 s2 = strcmp_loop fuel m s1 s2 0

unfoldable pub strcpy_loop : ℕ → Memory → ℕ → ℕ → ℕ → Outcome (ℕ × Memory)
strcpy_loop zero m dest source i = hang
strcpy_loop (suc fuel) m dest source i =
    let rest = strcpy_loop fuel (put m (dest + i) (m (source + i))) dest source (suc i) in
    if m (source + i) == 0 then ok (dest, put m (dest + i) 0) else rest

unfoldable pub memcheck_strcpy : ℕ → Memory → ℕ → ℕ → Outcome (ℕ × Memory)
memcheck_strcpy fuel m dest source = strcpy_loop fuel m dest source 0

unfoldable pub strlen_loop : ℕ → Memory → ℕ → ℕ → Outcome ℕ
strlen_loop zero m s len = hang
strlen_loop (suc fuel) m s len =
    let rest = strlen_loop fuel m s (suc len) in if m (s + len) == 0 then ok len else rest

unfoldable pub memcheck_strlen : ℕ → Memory → ℕ → Outcome ℕ
memcheck_strlen fuel m s = strlen_loop fuel m s 0

-- The bound n ends the loop: there are at most n - 1 further rounds.
unfoldable pub strncmp_rounds : ℕ → Memory → ℕ → ℕ → ℕ → ℤ
strncmp_rounds zero m s1 s2 i = order_at m s1 s2 i
strncmp_rounds (suc left) m s1 s2 i =
    let rest = strncmp_rounds left m s1 s2 (suc i) in
    if (m (s1 + i) == m (s2 + i)) && not (m (s1 + i) == 0) then rest else order_at m s1 s2 i

unfoldable pub memcheck_strncmp : Memory → ℕ → ℕ → ℕ → ℤ
memcheck_strncmp m s1 s2 n = if n == 0 then pos 0 else strncmp_rounds (n - 1) m s1 s2 0

unfoldable pub strnlen_rounds : ℕ → Memory → ℕ → ℕ → ℕ
strnlen_rounds zero m s len = len
strnlen_rounds (suc left) m s len =
    let rest = strnlen_rounds left m s (suc len) in if m (s + len) == 0 then len else rest

unfoldable pub memcheck_strnlen : Memory → ℕ → ℕ → ℕ
memcheck_strnlen m s maxlen = strnlen_rounds maxlen m s 0

unfoldable pub memcheck_strchrnul : ℕ → Memory → ℕ → ℤ → Outcome ℕ
memcheck_strchrnul zero m p c = hang
memcheck_strchrnul (suc fuel) m p c =
    let rest = memcheck_strchrnul fuel m (suc p) c in
    if m p == to_char c then ok p else if m p == 0 then ok p else rest

-- The inner loop of strspn and of strcspn: whether the character is in the set, from i on.
unfoldable pub set_loop : ℕ → Memory → ℕ → ℕ → ℕ → Outcome Bool
set_loop zero m char set i = hang
set_loop (suc fuel) m char set i =
    let rest = set_loop fuel m char set (suc i) in
    if m (set + i) == 0 then ok false else if char == m (set + i) then ok true else rest

-- The set is searched anew, with its own fuel, at every character.
unfoldable pub strspn_loop : ℕ → ℕ → Memory → ℕ → ℕ → ℕ → Outcome ℕ
strspn_loop set_fuel zero m p accept len = hang
strspn_loop set_fuel (suc fuel) m p accept len =
    let rest = strspn_loop set_fuel fuel m (suc p) accept (suc len) in
    if m p == 0
    then ok len
    else set_loop set_fuel m (m p) accept 0 >>= λ match. if match then rest else ok len

unfoldable pub memcheck_strspn : ℕ → Memory → ℕ → ℕ → Outcome ℕ
memcheck_strspn fuel m s accept = strspn_loop fuel fuel m s accept 0

unfoldable pub strcspn_loop : ℕ → ℕ → Memory → ℕ → ℕ → ℕ → Outcome ℕ
strcspn_loop set_fuel zero m p reject len = hang
strcspn_loop set_fuel (suc fuel) m p reject len =
    let rest = strcspn_loop set_fuel fuel m (suc p) reject (suc len) in
    if m p == 0
    then ok len
    else set_loop set_fuel m (m p) reject 0 >>= λ match. if match then ok len else rest

unfoldable pub memcheck_strcspn : ℕ → Memory → ℕ → ℕ → Outcome ℕ
memcheck_strcspn fuel m s reject = strcspn_loop fuel fuel m s reject 0
