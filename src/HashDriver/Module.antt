-- ===== src/HashDriver/Module.antt =====
-- The start and the end of the module in `Hash Table Driver/Hash_Driver.c`: what they acquire from
-- the kernel and give back. What the kernel answers is an argument.
use linux_kernel_programing.Prelude.{◌≡◌, ◌↔◌, Bool, true, false, ◌&&◌, arith, if◌then◌else◌}
use linux_kernel_programing.Prelude.Int.{ℤ, pos, negsuc}

-- What the module holds.
pub record Resources : Type 0 where
  pub region : Bool
  pub memory : Bool
  pub cdev : Bool
  pub class : Bool
  pub device_1 : Bool
  pub device_2 : Bool

-- Whether `alloc_chrdev_region`, `kmalloc` and `cdev_add` succeed.
pub record Answers : Type 0 where
  pub alloc_ok : Bool
  pub kmalloc_ok : Bool
  pub cdev_ok : Bool

abbrev pub nothing_held : Resources
nothing_held = record {
  region = false;
  memory = false;
  cdev = false;
  class = false;
  device_1 = false;
  device_2 = false;
}

abbrev pub all_held : Resources
all_held = record {
  region = true;
  memory = true;
  cdev = true;
  class = true;
  device_1 = true;
  device_2 = true;
}

unfoldable pub driver_init : Answers → ℤ × Resources
driver_init a =
    let r₁ = record nothing_held { region = true } in
    let r₂ = record r₁ { memory = true } in
    let r₃ = record r₂ { cdev = true } in
    let r₄ = record r₃ { class = true; device_1 = true; device_2 = true } in
    if a.alloc_ok
    then (if a.kmalloc_ok
        then (if a.cdev_ok then (pos 0, r₄) else (negsuc 0, r₂))
        else (negsuc 11, r₁))
    else (negsuc 0, nothing_held)

-- Each call gives back what it names.
unfoldable pub driver_exit : Resources → Resources
driver_exit r =
    let r₁ = record r { cdev = false } in
    let r₂ = record r₁ { device_1 = false; device_2 = false } in
    let r₃ = record r₂ { memory = false } in
    let r₄ = record r₃ { class = false } in record r₄ { region = false }

-- The start returns 0 exactly when the kernel grants all three requests. A start that fails gives
-- nothing back: the region stays registered if it was granted, and so does the memory.
pub driver_init_lem :
    (a : Answers)
    → (((driver_init a).0 ≡ pos 0) ↔ ((a.alloc_ok && a.kmalloc_ok && a.cdev_ok) ≡ true))
      × ((driver_init a).1 ≡ (
          if a.alloc_ok && a.kmalloc_ok && a.cdev_ok
          then all_held
          else record nothing_held { region = a.alloc_ok; memory = a.alloc_ok && a.kmalloc_ok }))
unfolding driver_init
driver_init_lem a = (ground arith, ground arith)

-- What a successful start acquired, the end gives back.
pub driver_exit-driver_init :
    (a : Answers) → (driver_init a).0 ≡ pos 0 → driver_exit (driver_init a).1 ≡ nothing_held
unfolding driver_init driver_exit
driver_exit-driver_init a h = ground arith
