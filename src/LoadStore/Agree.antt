-- ===== src/LoadStore/Agree.antt =====
-- The tables of api/load_store.c against the encodings of the manual.
use mambo.Base.{ℕ, ◌≡◌, refl, Bool, true, false, ◌||◌, Option, none, some, ℤ}
use mambo.LoadStore.Inst.{RiscvInst}
use mambo.LoadStore.Kinds.{riscv_is_load_or_store}
use mambo.LoadStore.Encodings.{encoding, encoded_kind, encoded_vector, encoded_size}
use mambo.LoadStore.Sizes.{riscv_get_ld_st_size, mambo_is_rvv_mem}
use mambo.LoadStore.Access.{
  Fields, access, compressed_access, store_access, vector_access, load_access, amo_access,
}

abbrev pub is_some : Option (ℕ × ℤ) → Bool
is_some none = false
is_some (some a) = true

kind_encoded : (inst : RiscvInst) → riscv_is_load_or_store inst ≡ encoded_kind (encoding inst)
unfolding riscv_is_load_or_store
kind_encoded RiscvInst.c_fsd = refl
kind_encoded _ = refl

size_encoded : (inst : RiscvInst) → riscv_get_ld_st_size inst ≡ encoded_size (encoding inst)
unfolding riscv_get_ld_st_size
size_encoded RiscvInst.c_fsd = refl
size_encoded _ = refl

vector_encoded : (inst : RiscvInst) → mambo_is_rvv_mem inst ≡ encoded_vector (encoding inst)
unfolding mambo_is_rvv_mem
vector_encoded RiscvInst.c_fsd = refl
vector_encoded _ = refl

address_known :
    (f : Fields) (inst : RiscvInst)
    → let (is_load, is_store) = encoded_kind (encoding inst) in
      is_some (access f inst) ≡ (is_load || is_store)
unfolding access compressed_access store_access vector_access load_access amo_access
address_known f RiscvInst.c_fsd = refl
address_known f _ = refl

-- For every instruction that the file names, and for the rest: whether it loads, whether it stores, its
-- size and whether it is a vector access are what its encoding in the manual says, -1 for the size of
-- a vector access and of an instruction that is not named; and the address is known exactly if it
-- loads or stores.
pub load_store_tables :
    (f : Fields) (inst : RiscvInst)
    → (riscv_is_load_or_store inst ≡ encoded_kind (encoding inst))
      × (riscv_get_ld_st_size inst ≡ encoded_size (encoding inst))
      × (mambo_is_rvv_mem inst ≡ encoded_vector (encoding inst))
      × (let (is_load, is_store) = encoded_kind (encoding inst) in
          is_some (access f inst) ≡ (is_load || is_store))
load_store_tables f inst =
    (kind_encoded inst, size_encoded inst, vector_encoded inst, address_known f inst)
