-- ===== src/UserCopy/Tests.antt =====
-- A process whose pages lie in memory in the opposite order.
use os2_project.Base.{ℕ, ◌+◌, ◌-◌, ◌<◌, ◌≡◌, ◌↔◌, refl, arith, true, false, if◌then◌else◌, ltb}
use os2_project.UserCopy.{copyin, copyout, copyout_from}
use os2_project.UserCopy.Bytes.{physical, HasPage}
use os2_project.UserCopy.Either.{copyout_iff, copyin-copyout}

abbrev page : ℕ → ℕ
page va = if ltb va 32768 then 65536 - va else 0

page_there : (i : ℕ) → i < 10 → HasPage page (4090 + i)
page_there i lt z = ground arith

apart : (i j : ℕ) → i < 10 → j < 10 → physical page (4090 + i) ≡ physical page (4090 + j) → i ≡ j
apart i j hi hj e = ground arith

-- A byte on the second page.
second_page : (copyout page 4090 (λ i. 7 + i) 10 (λ a. 0)).1 61442 ≡ 15
unfolding copyout copyout_from
second_page = refl

-- The third page is not there.
no_page : (copyout page 32760 (λ i. 7 + i) 10 (λ a. 0)).0 ≡ false
unfolding copyout copyout_from
no_page = refl

copyout_iff_example :
    ((copyout page 4090 (λ i. 7 + i) 10 (λ a. 0)).0 ≡ true)
    ↔ ((i : ℕ) → i < 10 → HasPage page (4090 + i))
copyout_iff_example = copyout_iff page 4090 (λ i. 7 + i) 10 (λ a. 0) (omega arith)

copyin-copyout_example :
    (copyin page 100 4090 10 (copyout page 4090 (λ i. 7 + i) 10 (λ a. 0)).1 (λ a. 1)).1 108 ≡ 15
copyin-copyout_example =
    copyin-copyout page 4090 (λ i. 7 + i) 10 (λ a. 0) 100 (λ a. 1) 8 (omega arith) page_there apart
      (omega arith)
