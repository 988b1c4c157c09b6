-- ===== src/Mprobe/Module.antt =====
-- The start and end of `Kprobe/Mprobe.c`.
use linux_kernel_programing.Prelude.{Bool, true, false, not, if◌then◌else◌}
use linux_kernel_programing.Prelude.Int.{ℤ, pos, negsuc}

-- What the module holds.
pub record Resources : Type 0 where
  pub region : Bool
  pub memory : Bool
  pub class : Bool
  pub cdev : Bool
  pub device : Bool

abbrev pub nothing_held : Resources
nothing_held = record {
  region = false;
  memory = false;
  class = false;
  cdev = false;
  device = false;
}

-- The arguments say whether the region, the memory and the character device are granted. The
-- result of the creation of the class and of the device is not tested.
unfoldable pub mprobe_driver_init : Bool → Bool → Bool → Resources × ℤ
mprobe_driver_init region_ok memory_ok cdev_ok =
    let r₁ = record nothing_held { region = true } in
    let r₂ = record r₁ { memory = true; class = true } in
    let r₃ = record r₂ { cdev = true; device = true } in
    if not region_ok
    then (nothing_held, negsuc 0)
    else (if not memory_ok
        then (r₁, negsuc 11)
        else (if not cdev_ok then (r₂, pos 1) else (r₃, pos 0)))

unfoldable pub mprobe_driver_exit : Resources → Resources
mprobe_driver_exit r = record r {
  region = false;
  cdev = false;
  device = false;
  memory = false;
  class = false;
}
