-- ===== src/Strings/Copy.antt =====
-- `memcheck_strcpy` and `memcheck_stpcpy` copy a string.
use mambo.Base.{
  ℕ, zero, suc, ◌+◌, ◌<◌, ◌≡◌, ◌≢◌, refl, sym, ◌∙◌, false, List, [], ◌∷◌, ◌==◌, length, arith, ◌⊎◌,
  inl, inr, Returns, if◌then◌else◌,
}
use mambo.Strings.{Memory, put, strcpy_loop, memcheck_strcpy, memcheck_stpcpy}
use mambo.Strings.Views.{CString}

-- The bytes from `start` on, one more than n, do not hold the address.
abbrev Outside : ℕ → ℕ → ℕ → Type 0
Outside start n address = (address < start) ⊎ (start + n < address)

-- The string stands at the address, and every other byte is as it was.
abbrev pub Copied : Memory → Memory → ℕ → List ℕ → Type 0
Copied before after dest xs =
    CString after dest xs
    × ((address : ℕ) → Outside dest (length xs) address → after address ≡ before address)

-- The two strings, their terminators included, share no byte.
abbrev pub Disjoint : ℕ → ℕ → ℕ → Type 0
Disjoint dest source n = (dest + n < source) ⊎ (source + n < dest)

put_self : (m : Memory) (address value : ℕ) → put m address value address ≡ value
put_self m address value = ground arith

put_ne :
    (m : Memory) (address value other : ℕ) → address ≢ other → put m address value other ≡ m other
put_ne m address value other h = ground arith

Outside-ne : (start n address : ℕ) → Outside start n address → address ≢ start
Outside-ne start n address (inl below) = λ e. omega (arith, e)
Outside-ne start n address (inr above) = λ e. omega (arith, e)

Outside-suc : (start n address : ℕ) → Outside start (suc n) address → Outside (suc start) n address
Outside-suc start n address (inl below) = inl (omega arith)
Outside-suc start n address (inr above) = inr (omega arith)

-- The first byte of one string lies outside the other.
Disjoint-Outside : (dest source n : ℕ) → Disjoint dest source n → Outside source n dest
Disjoint-Outside dest source n (inl below) = inl (omega arith)
Disjoint-Outside dest source n (inr above) = inr above

Disjoint-suc :
    (dest source n : ℕ) → Disjoint dest source (suc n) → Disjoint (suc dest) (suc source) n
Disjoint-suc dest source n (inl below) = inl (omega arith)
Disjoint-suc dest source n (inr above) = inr (omega arith)

start_Disjoint : (dest source n : ℕ) → Disjoint dest source n → Disjoint (dest + 0) (source + 0) n
start_Disjoint dest source n (inl below) = inl (omega arith)
start_Disjoint dest source n (inr above) = inr (omega arith)

Copied-eq :
    (before after : Memory) (dest other : ℕ) (xs : List ℕ)
    → dest ≡ other
    → Copied before after dest xs
    → Copied before after other xs
Copied-eq before after dest other xs e h = rw (sym e) h

-- A write outside a string leaves it.
CString-put :
    (xs : List ℕ) (m : Memory) (s address value : ℕ)
    → CString m s xs
    → Outside s (length xs) address
    → CString (put m address value) s xs
CString-put [] m s address value h out = put_ne m address value s (Outside-ne s 0 address out) ∙ h
CString-put (x ∷ xs) m s address value (here, nonzero, rest) out = (
  put_ne m address value s (Outside-ne s (suc (length xs)) address out) ∙ here,
  nonzero,
  CString-put xs m (suc s) address value rest (Outside-suc s (length xs) address out),
)

-- The terminator is copied.
Copied-nil : (m : Memory) (dest value : ℕ) → value ≡ 0 → Copied m (put m dest value) dest []
Copied-nil m dest value e = (
  put_self m dest value ∙ e,
  λ address out. put_ne m dest value address (λ same. Outside-ne dest 0 address out (sym same)),
)

-- A character is copied before the rest of the string.
Copied-cons :
    (m after : Memory) (dest x : ℕ) (xs : List ℕ)
    → x ≢ 0
    → Copied (put m dest x) after (suc dest) xs
    → Copied m after dest (x ∷ xs)
Copied-cons m after dest x xs nonzero (string, frame) = (
  (frame dest (inl (omega arith)) ∙ put_self m dest x, nonzero, string),
  λ address out.
      frame address (Outside-suc dest (length xs) address out)
      ∙ put_ne m dest x address (λ same. Outside-ne dest (suc (length xs)) address out (sym same)),
)

stpcpy_lem :
    (xs : List ℕ) (fuel : ℕ) (m : Memory) (dest source : ℕ)
    → CString m source xs
    → Disjoint dest source (length xs)
    → 0 < source
    → 0 < dest
    → length xs < fuel
    → Returns
        (memcheck_stpcpy fuel m dest source)
        λ r. (r.0 ≡ dest + length xs) × Copied m r.1 dest xs
unfolding memcheck_stpcpy
stpcpy_lem xs zero m dest source h apart source_set dest_set enough = absurd (omega arith)
stpcpy_lem [] (suc fuel) m dest source h apart source_set dest_set enough =
    let same : put m dest (m source) source ≡ 0 =
      put_ne m dest (m source) source
        (Outside-ne source 0 dest (Disjoint-Outside dest source 0 apart))
      ∙ h in
    rw same ((dest, put m dest (m source)), refl, (omega arith, Copied-nil m dest (m source) h))
stpcpy_lem (x ∷ xs) (suc fuel) m dest source (here, nonzero, rest) apart source_set dest_set
      enough =
    let out = Disjoint-Outside dest source (suc (length xs)) apart in
    let same : ((if dest == source then x else x) == 0) ≡ false = ground arith in
    let b : (source == 0) ≡ false = ground arith in
    let c : (dest == 0) ≡ false = ground arith in
    let kept =
      CString-put xs m (suc source) dest x rest (Outside-suc source (length xs) dest out) in
    let (r, e, (last, copied)) =
      stpcpy_lem xs fuel (put m dest x) (suc dest) (suc source) kept
        (Disjoint-suc dest source (length xs) apart) (omega arith) (omega arith) (omega arith) in
    rw (here, same, b, c) (r, e, (omega (arith, last), Copied-cons m r.1 dest x xs nonzero copied))

strcpy_loop_lem :
    (xs : List ℕ) (fuel : ℕ) (m : Memory) (dest source i : ℕ)
    → CString m (source + i) xs
    → Disjoint (dest + i) (source + i) (length xs)
    → length xs < fuel
    → Returns (strcpy_loop fuel m dest source i) λ r. (r.0 ≡ dest) × Copied m r.1 (dest + i) xs
unfolding strcpy_loop
strcpy_loop_lem xs zero m dest source i h apart enough = absurd (omega arith)
strcpy_loop_lem [] (suc fuel) m dest source i h apart enough =
    rw h ((dest, put m (dest + i) 0), refl, (refl, Copied-nil m (dest + i) 0 refl))
strcpy_loop_lem (x ∷ xs) (suc fuel) m dest source i (here, nonzero, rest) apart enough =
    let out = Disjoint-Outside (dest + i) (source + i) (suc (length xs)) apart in
    let a : (x == 0) ≡ false = ground arith in
    let kept =
      CString-put xs m (suc (source + i)) (dest + i) x rest
        (Outside-suc (source + i) (length xs) (dest + i) out) in
    let next_source : source + suc i ≡ suc (source + i) = omega arith in
    let next_dest : dest + suc i ≡ suc (dest + i) = omega arith in
    let (r, e, (last, copied)) =
      strcpy_loop_lem xs fuel (put m (dest + i) x) dest source (suc i) (rw next_source kept)
        (rw (next_source, next_dest) (Disjoint-suc (dest + i) (source + i) (length xs) apart))
        (omega arith) in
    rw (here, a)
      (r, e, (last, Copied-cons m r.1 (dest + i) x xs nonzero (rw (sym next_dest) copied)))

-- At a string `xs` that shares no byte with as many bytes from the destination on, with neither
-- pointer null and a fuel above the length, `memcheck_strcpy` and `memcheck_stpcpy` return, the
-- string then stands at the destination and no other byte is changed; the first returns the
-- destination and the second the address of the terminator there.
pub memcheck_strcpy_lem :
    (m : Memory) (dest source : ℕ) (xs : List ℕ) (fuel : ℕ)
    → CString m source xs
    → Disjoint dest source (length xs)
    → 0 < source
    → 0 < dest
    → length xs < fuel
    → Returns (memcheck_strcpy fuel m dest source) (λ r. (r.0 ≡ dest) × Copied m r.1 dest xs)
      × Returns
          (memcheck_stpcpy fuel m dest source)
          (λ r. (r.0 ≡ dest + length xs) × Copied m r.1 dest xs)
unfolding memcheck_strcpy
memcheck_strcpy_lem m dest source xs fuel h apart source_set dest_set enough =
    let a : source + 0 ≡ source = omega arith in
    let b : dest + 0 ≡ dest = omega arith in
    let first =
      strcpy_loop_lem xs fuel m dest source 0 (rw a h)
        (start_Disjoint dest source (length xs) apart) enough in
    (
      (first.0, first.1, (first.2.0, Copied-eq m first.0.1 (dest + 0) dest xs b first.2.1)),
      stpcpy_lem xs fuel m dest source h apart source_set dest_set enough,
    )
