-- ===== src/Vm/Tests.antt =====
-- A boot of the memory manager with a first fault, and what the theorems say of it.
use cellift_meta.Base.{ℕ, ◌+◌, ◌≡◌, refl, none, some, arith, store}
use cellift_meta.Vm.{Vm, running, handle_fault, vm_boot, cause_store_page_fault, lfsr_next}
use cellift_meta.Vm.Entry.{fresh}
use cellift_meta.Vm.Invariant.{IsValid, vm_boot-IsValid}
use cellift_meta.Vm.Fault.{contents, handle_fault-contents}
use cellift_meta.Vm.Touch.{Moves, next_stage, handle_fault-Moves}

-- A page is a number here; the image of page `p` is `100 + p`.
abbrev booted : Vm ℕ
booted = vm_boot 5 (λ _. 0) (λ p. 100 + p)

lfsr_run : lfsr_next 1 ≡ 32
unfolding lfsr_next
lfsr_run = refl

booted-IsValid : IsValid 5 booted 0 (λ _. none) (λ _. fresh)
booted-IsValid = vm_boot-IsValid 5 (λ _. 0) (λ p. 100 + p)

-- A load from the page number 2.
handle_fault-contents_example :
    (v' : Vm ℕ) × (handle_fault booted 0x2010 0xd ≡ running v')
    × IsValid 5 v' 1 (store (λ _. none) 2 (some 0)) (store (λ _. fresh) 2 fresh)
    × ((page : ℕ) → contents v' page ≡ store (contents booted) 2 (some 102) page)
unfolding vm_boot
handle_fault-contents_example =
    handle_fault-contents 5 booted 0 (λ _. none) (λ _. fresh) 0x2010 0xd booted-IsValid
      (omega arith) (omega arith) (omega arith) refl

loaded : (v' : Vm ℕ) × IsValid 5 v' 1 (store (λ _. none) 2 (some 0)) (store (λ _. fresh) 2 fresh)
unfolding vm_boot
loaded =
    let (v', run, valid, pages) =
      handle_fault-contents 5 booted 0 (λ _. none) (λ _. fresh) 0x2010 0xd booted-IsValid
        (omega arith) (omega arith) (omega arith) refl in
    (v', valid)

-- A store to the same page.
handle_fault-Moves_example :
    Moves 5 loaded.0 1
      (store (λ _. none) 2 (some 0))
      (store (λ _. fresh) 2 fresh)
      2
      (handle_fault loaded.0 0x2010 cause_store_page_fault)
      (next_stage fresh cause_store_page_fault)
handle_fault-Moves_example =
    handle_fault-Moves 5 loaded.0 1 (store (λ _. none) 2 (some 0)) (store (λ _. fresh) 2 fresh)
      0x2010 cause_store_page_fault 0 loaded.1 (omega arith) (omega arith) refl
