-- ===== src/LoadStore/VectorManual.antt =====
-- What the manual of the vector extension says of an access, from the bits of its word.
use mambo.Base.{
  ℕ, zero, suc, ◌||◌, ◌+◌, ◌-◌, ◌*◌, ◌/◌, ◌%◌, ◌^◌, Bool, true, false, ◌==◌, if◌then◌else◌,
}
use mambo.LoadStore.Run.{Hart}

-- The field of n bits from bit i on.
abbrev pub field : ℕ → ℕ → ℕ → ℕ
field i n w = w / 2 ^ i % 2 ^ n

-- Whole registers, a mask, elements of the encoded width, and elements of the width in vtype.
pub data Form : Type 0 where
  whole : Form
  mask : Form
  encoded : Form
  dynamic : Form

-- Unit-stride accesses by `lumop`: 8 is a whole register and 11 a mask.
abbrev unit_stride : ℕ → Form
unit_stride lumop =
    if lumop == 8 then Form.whole else if lumop == 11 then Form.mask else Form.encoded

-- Under the opcode of atomic accesses, 47 in seven bits, an element is of the encoded width. Else by `mop`: unit
-- stride, indexed, strided and indexed.
abbrev pub form : ℕ → Form
form w =
    if w % 128 == 47
    then Form.encoded
    else if field 26 2 w == 0
    then unit_stride (field 20 5 w)
    else if field 26 2 w == 2
    then Form.encoded
    else Form.dynamic

-- `width` 0 is a byte, and 5, 6 and 7 are two, four and eight.
abbrev pub width_bytes : ℕ → ℕ
width_bytes w = 2 ^ (field 12 3 w - 4)

-- The fields of a segment, or the registers; an atomic access has no such field.
abbrev pub fields : ℕ → ℕ
fields w = if w % 128 == 47 then 1 else field 29 3 w + 1

-- `vm`: no element is masked off.
abbrev pub is_unmasked : ℕ → Bool
is_unmasked w = field 25 1 w == 1

unfoldable pub count : (ℕ → Bool) → ℕ → ℕ → ℕ
count keep i zero = 0
count keep i (suc n) = (if keep i then 1 else 0) + count keep (suc i) n

-- The elements from `vstart`, 0x008, to `vl`, 0xC20, that the mask register `v0` keeps, if it counts.
abbrev pub active_elements : ℕ → (ℕ → Bool) → Hart → ℕ
active_elements w v0 h =
    count (λ i. is_unmasked w || v0 i) (h.csr 0x008) (h.csr 0xC20 - h.csr 0x008)

-- The active elements; whole registers have `vlenb`, 0xC22, bytes each,
-- and a mask has a bit for each of `vl` elements, and counts `vstart` in bytes. Bits 5 to 3 of
-- `vtype`, 0xC21, are the width.
abbrev pub form_bytes : Form → ℕ → (ℕ → Bool) → Hart → ℕ
form_bytes Form.whole w v0 h = fields w * h.csr 0xC22 - h.csr 0x008 * width_bytes w
form_bytes Form.mask w v0 h = (h.csr 0xC20 + 7) / 8 - h.csr 0x008
form_bytes Form.encoded w v0 h = active_elements w v0 h * width_bytes w * fields w
form_bytes Form.dynamic w v0 h =
    active_elements w v0 h * 2 ^ (h.csr 0xC21 / 2 ^ 3 % 2 ^ 3) * fields w

abbrev pub access_bytes : ℕ → (ℕ → Bool) → Hart → ℕ
access_bytes w v0 h = form_bytes (form w) w v0 h

-- The forms that count the elements up to `vl`.
abbrev pub by_elements : Form → Bool
by_elements Form.whole = false
by_elements Form.mask = false
by_elements _ = true
