-- ===== src/Platform/Tests/Bus.antt =====
-- The theorems about the platform driver on its bus at concrete inputs.
use linux_kernel_programing.Prelude.{ℕ, suc, ◌+◌, ◌≤◌, ◌≡◌, refl, true, some, [], arith, length}
use linux_kernel_programing.Prelude.Int.{pos}
use linux_kernel_programing.Gpio.{requests, frees}
use linux_kernel_programing.Hcsr.Pins.Balance.{IsBalanced, configured}
use linux_kernel_programing.Hcsr.Files.{success, config_pins}
use linux_kernel_programing.Platform.Module.{
  any_configured, Answers, valid, loaded, create_files, hcsr04_init, pdriver_probe, pdriver_remove,
  remove_in_memory,
}
use linux_kernel_programing.Platform.Module.Bus.{
  ioctl_op, count, System, probe_device, remove_device, use_device, operate_at, probe, operation,
  Reach, start, later,
}
use linux_kernel_programing.Platform.Module.Bus.Counts.{
  listed, registered, deregistered, classes, refusals, others,
}
use linux_kernel_programing.Platform.Module.Bus.Pins.{pdriver_remove-frees_all}
use linux_kernel_programing.Platform.Module.Bus.Class.{
  misc_register-balance, strays, pdriver_probe-strays,
}
use linux_kernel_programing.Platform.Module.Bus.Return.{remove_device-probe_device}
use linux_kernel_programing.Platform.Tests.{ready, kernel}

abbrev answers : Answers
answers = record {
  grants_class = λ calls. true;
  device_create = λ calls. valid;
  misc_register = λ calls. pos 0;
  minor_of = λ calls. 55;
}

abbrev none_bound : System
none_bound = record { bound = []; driver = loaded }

abbrev one_bound : System
one_bound = probe_device answers ready 7 none_bound

one_bound-Reach : Reach answers 1 one_bound
one_bound-Reach = later start (probe ready 7 refl)

is_bound : count 7 one_bound.bound ≡ 1
unfolding pdriver_probe
is_bound = refl

is_alone : length one_bound.bound + refusals one_bound.driver.calls ≡ 1
unfolding pdriver_probe hcsr04_init create_files
is_alone = refl

-- The device's pins are configured.
abbrev in_use : System
in_use = record {
  bound = one_bound.bound;
  driver = use_device kernel (ioctl_op (config_pins (pos 3) (pos 2))) 0 one_bound.driver;
}

in_use-Reach : Reach answers 2 in_use
in_use-Reach = later one_bound-Reach (operation kernel (ioctl_op (config_pins (pos 3) (pos 2))) 0)

removed :
    remove_in_memory true 7 in_use.driver
    ≡ some ((pdriver_remove 7 in_use.driver).0, (pdriver_remove 7 in_use.driver).1)
unfolding remove_in_memory
removed = ground arith

pdriver_remove-frees_all_example :
    let s' = (pdriver_remove 7 in_use.driver).1 in
    IsBalanced in_use.driver.pins in_use.driver.log
    × (s'.devices ≡ others 7 in_use.driver.devices)
    × ((p : ℕ) → (configured p s'.pins ≡ 0) × (requests p s'.log ≡ frees p s'.log))
    × (s'.dangling ≡ any_configured in_use.driver.pins)
    × ((any_configured in_use.driver.pins ≡ true) → true ≡ true)
pdriver_remove-frees_all_example =
    pdriver_remove-frees_all answers 2 in_use true 7 in_use-Reach
      (unfold pdriver_probe hcsr04_init use_device operate_at in refl) removed

misc_register-balance_example :
    (registered 7 in_use.driver.calls
      ≡ deregistered 7 in_use.driver.calls + listed 7 in_use.driver.devices)
    × (listed 7 in_use.driver.devices ≤ count 7 in_use.bound)
    × (count 7 in_use.bound ≤ 1)
misc_register-balance_example = misc_register-balance answers 2 in_use 7 in_use-Reach

pdriver_probe-strays_example :
    let gone = (pdriver_remove 7 one_bound.driver).1 in
    let (r, s') = pdriver_probe answers ready 8 gone in
    (r ≡ success) × (strays s'.calls ≡ suc (strays gone.calls)) × (classes s'.calls ≡ 1)
pdriver_probe-strays_example =
    pdriver_probe-strays answers 1 one_bound 7 ready 8 one_bound-Reach (omega arith) is_bound
      is_alone

remove_device-probe_device_example :
    let s' = remove_device 8 (probe_device answers ready 8 one_bound) in
    (s'.driver.devices ≡ one_bound.driver.devices) × (s'.bound ≡ one_bound.bound)
remove_device-probe_device_example =
    remove_device-probe_device answers 1 one_bound ready 8 one_bound-Reach
      (unfold pdriver_probe in refl)
