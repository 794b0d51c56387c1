-- ===== src/Vm/Invariant.antt =====
-- What every operation of `basic_vm` leaves true: vm_basic.cxx.
use yeti_vm.Base.{ℕ, ◌%◌, ◌≡◌, ◌⊎◌, inl, inr, refl, ap, ◌∙◌, arith, false, ◌||◌, some, List}
use yeti_vm.Base.{ltb, leb, ◌==◌, ◌!=◌, Bool-cases, Option-cases}
use yeti_vm.Memory.Block.{Block, Access, done, refused, undefined, store}
use yeti_vm.Memory.Mmu.{find_block, replace_block}
use yeti_vm.Memory.Contents.{store-params}
use yeti_vm.Memory.Layout.{IsMmu}
use yeti_vm.Memory.Lookup.{
  find_block_found, find_block-replace_block, replace_block-IsMmu, same_key, updated,
}
use yeti_vm.Vm.State.{Vm, register_count, write_register}
use yeti_vm.Vm.Access

-- The unit is well formed, the register x0 holds 0, and the program counter is the address of an
-- aligned word within a block.
pub record IsVm (vm : Vm) : Type 0 where
  pub mmu : IsMmu vm.mmu
  pub zero : vm.registers 0 ≡ 0
  pub aligned : vm.registers register_count % 4 ≡ 0
  pub block : Block
  pub mapped : find_block vm.mmu (vm.registers register_count) 4 ≡ some block

pub set_pc-IsVm : (v : ℕ) (vm : Vm) → v % 4 ≡ 0 → IsVm vm → IsVm (Access.set_pc v vm).1
unfolding Access.set_pc
set_pc-IsVm v vm al i = elim (Option-cases (find_block vm.mmu v 4)) [
  | inl e ↦ rw e i
  | inr (b, e) ↦
      let r : IsVm (record vm { registers = write_register vm.registers register_count v }) =
        record { mmu = i.mmu; zero = i.zero; aligned = al; block = b; mapped = e } in
      rw e r
]

pub set_register-IsVm : (r v : ℕ) (vm : Vm) → IsVm vm → IsVm (Access.set_register r v vm).1
unfolding Access.set_register
set_register-IsVm r v vm i = elim (Bool-cases (leb register_count r)) [
  | inl e ↦ rw e i
  | inr e ↦ elim (Bool-cases (ltb 0 r)) [
    | inl f ↦
        let pc : write_register vm.registers r v register_count ≡ vm.registers register_count =
          ground (arith, e) in
        let x0 : write_register vm.registers r v 0 ≡ vm.registers 0 = ground (arith, f) in
        let s : IsVm (record vm { registers = write_register vm.registers r v }) = record {
          mmu = i.mmu;
          zero = x0 ∙ i.zero;
          aligned = rw pc i.aligned;
          block = i.block;
          mapped = rw pc i.mapped;
        } in
        rw (e, f) s
    | inr f ↦ rw (e, f) i
  ]
]

stored-IsVm :
    (a n : ℕ) (src : List ℕ) (b b' : Block) (vm : Vm)
    → find_block vm.mmu a n ≡ some b
    → store b a src ≡ done b'
    → IsVm vm
    → IsVm (record vm { mmu = replace_block vm.mmu b' })
stored-IsVm a n src b b' vm f s i =
    let keys =
      same_key vm.mmu b b' i.mmu (find_block_found vm.mmu a n b f).0 (store-params b b' a src s) in
    let pc = vm.registers register_count in
    let m = find_block-replace_block vm.mmu b' pc 4 i.mmu keys ∙ ap (updated b') i.mapped in
    let w = replace_block-IsMmu vm.mmu b' i.mmu keys in
    elim (Bool-cases (i.block.params.block_start == b'.params.block_start)) [
      | inl e ↦ record {
        mmu = w;
        zero = i.zero;
        aligned = i.aligned;
        block = b';
        mapped = m ∙ rw e refl;
      }
      | inr e ↦ record {
        mmu = w;
        zero = i.zero;
        aligned = i.aligned;
        block = i.block;
        mapped = m ∙ rw e refl;
      }
    ]

Access-cases :
    {A : Type 0} (x : Access A) → (x ≡ refused) ⊎ (x ≡ undefined) ⊎ ((a : A) × (x ≡ done a))
Access-cases (done a) = inr (inr (a, refl))
Access-cases refused = inl refl
Access-cases undefined = inr (inl refl)

pub write_memory-IsVm : (a n v : ℕ) (vm : Vm) → IsVm vm → IsVm (Access.write_memory a n v vm).1
unfolding Access.write_memory Access.get_ptr
write_memory-IsVm a n v vm i = elim (Bool-cases (n == 0 || ltb 4 n)) [
  | inl e ↦ rw e i
  | inr e ↦
      let z : (n == 0) ≡ false = ground (arith, e) in
      elim (Bool-cases (a % n != 0)) [
        | inl f ↦ rw (e, z, f) i
        | inr f ↦ elim (Option-cases (find_block vm.mmu a n)) [
          | inl g ↦ rw (e, z, f) (rw g i)
          | inr (b, g) ↦ elim (Access-cases (store b a (Access.to_bytes n v))) [
            | inl s ↦ rw (e, z, f) (rw (g, s) i)
            | inr (inl s) ↦ rw (e, z, f) (rw (g, s) i)
            | inr (inr (b', s)) ↦
                rw (e, z, f) (rw (g, s) (stored-IsVm a n (Access.to_bytes n v) b b' vm g s i))
          ]
        ]
      ]
]
