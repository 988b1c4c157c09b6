-- ===== src/Hcsr/Tests/Board.antt =====
-- The theorems about the pins and the file operations of the HC-SR04 driver at concrete inputs.
use linux_kernel_programing.Prelude.{ℕ, ◌+◌, ◌≡◌, refl, true, some, List, [], ◌∷◌}
use linux_kernel_programing.Prelude.Int.{pos}
use linux_kernel_programing.Gpio.{requests, frees}
use linux_kernel_programing.Hcsr.Fifo.{cleared, fifo_read}
use linux_kernel_programing.Hcsr.Fifo.Stack.{contents, pop}
use linux_kernel_programing.Hcsr.Device.{Device}
use linux_kernel_programing.Hcsr.Files.{
  success, hcsr04_read, config_pins, lock, unlock, locked_read,
}
use linux_kernel_programing.Hcsr.Files.Commands.{ioctl_call, release_call, hcsr04_ioctl-config_pins}
use linux_kernel_programing.Hcsr.Files.Commands
use linux_kernel_programing.Hcsr.Files.Reading.{hcsr04_read-pop}
use linux_kernel_programing.Hcsr.Irqs.{irq_requests, irq_frees, held_irq}
use linux_kernel_programing.Hcsr.Module.{Answers, hcsr04_init, hcsr04_exit}
use linux_kernel_programing.Hcsr.Module.Life.{hcsr04_exit-returns_all}
use linux_kernel_programing.Hcsr.Irqs.Session.{commands, commands-irqs}
use linux_kernel_programing.Hcsr.Files.{hcsr04_release, set_parameters}
use linux_kernel_programing.Hcsr.Device.{initialize_device}
use linux_kernel_programing.Hcsr.Tests.{
  seen, two_measurements, two_measurements-IsValid, ready, kernel, shield,
}

abbrev answers : Answers
answers = record { misc_register = λ index. pos 0; minor_of = λ index. 55 + index }

-- A command and a release on one of two devices.
abbrev calls : List Commands.Call
calls = ioctl_call ready (config_pins (pos 3) (pos 2)) ∷ release_call ready ∷ []

hcsr04_exit-returns_all_example :
    let (r, l) = hcsr04_init answers ready 2 in
    let (pins, log) = Commands.run kernel calls l.pins [] in
    let (l', log') = hcsr04_exit (record { devices = l.devices; pins = pins }) log in
    requests 61 log' ≡ frees 61 log'
hcsr04_exit-returns_all_example = hcsr04_exit-returns_all answers ready 2 kernel calls 61

abbrev alone : ℕ → Device → Device
alone i d = d

abbrev after_read : Device
after_read = record ready {
  fifo = record { slots = cleared ∷ seen 30 7 ∷ cleared ∷ cleared ∷ cleared ∷ []; index = 1 };
}

hcsr04_read-pop_example : some (seen 31 8) ≡ some (pop (contents two_measurements)).0
hcsr04_read-pop_example =
    hcsr04_read-pop alone true ready
      (record { result = success; copies = seen 31 8 ∷ []; device = after_read })
      two_measurements-IsValid (unfold hcsr04_read locked_read lock unlock fifo_read in refl) refl

-- Pins 3 and 2 are configured: the interrupt of GPIO 61 has the number 161.
commands-irqs_example :
    let cs = config_pins (pos 3) (pos 2) ∷ set_parameters (pos 5) (pos 60) ∷ [] in
    let (d', pins, log) = commands kernel cs (initialize_device ready) shield [] in
    let (d'', pins', log') = hcsr04_release d' pins log in
    (irq_requests (pos 161) log ≡ irq_frees (pos 161) log + held_irq (pos 161) d'.irq_data.irq_no)
    × (irq_requests (pos 161) log' ≡ irq_frees (pos 161) log')
commands-irqs_example =
    commands-irqs kernel (config_pins (pos 3) (pos 2) ∷ set_parameters (pos 5) (pos 60) ∷ []) ready
      (pos 161)
