-- ===== src/Hcsr/Module/Life.antt =====
-- The pins of `HCSR_Driver.c` from the module's start to its end.
use linux_kernel_programing.Prelude.{ℕ, ◌≡◌, none, List, [], arith, Bool-cases, inl, inr}
use linux_kernel_programing.Prelude.Int.{pos, ◌==ℤ◌}
use linux_kernel_programing.Gpio.{requests, frees}
use linux_kernel_programing.Hcsr.Device.{Device}
use linux_kernel_programing.Hcsr.Pins.{Kernel}
use linux_kernel_programing.Hcsr.Pins.Balance.{IsBalanced, release_gpio_pins-IsBalanced}
use linux_kernel_programing.Hcsr.Files.Commands.{Call, run, run-IsBalanced, populated-IsBalanced}
use linux_kernel_programing.Hcsr.Module.{Answers, add_devices, hcsr04_init, hcsr04_exit}

hcsr04_init-IsBalanced :
    (a : Answers) (garbage : Device) (count : ℕ)
    → IsBalanced (hcsr04_init a garbage count).1.pins []
unfolding hcsr04_init
hcsr04_init-IsBalanced a garbage count = λ p.
    elim (Bool-cases ((add_devices a garbage count 0 []).0 ==ℤ pos 0)) [
      | inl ok ↦ ground (arith, ok, populated-IsBalanced p)
      | inr failed ↦ ground (arith, failed)
    ]

-- From the module's start to its end, with any number of devices, whatever the kernel answers, and
-- whatever commands and releases come on whatever devices: in the end every GPIO was freed as often
-- as it was requested.
pub hcsr04_exit-returns_all :
    (a : Answers) (garbage : Device) (count : ℕ) (k : Kernel) (cs : List Call) (p : ℕ)
    → let (r, l) = hcsr04_init a garbage count in
      let (pins, log) = run k cs l.pins [] in
      let (l', log') = hcsr04_exit (record { devices = l.devices; pins = pins }) log in
      requests p log' ≡ frees p log'
unfolding hcsr04_exit
hcsr04_exit-returns_all a garbage count k cs p =
    let (r, l) = hcsr04_init a garbage count in
    let (pins, log) = run k cs l.pins [] in
    let held = run-IsBalanced k cs l.pins [] (hcsr04_init-IsBalanced a garbage count) in
    let released = release_gpio_pins-IsBalanced none pins log held in
    ground (arith, released.0 p, released.1 p)
