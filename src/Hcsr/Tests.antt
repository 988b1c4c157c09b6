-- ===== src/Hcsr/Tests.antt =====
-- The theorems about the buffer and the measurements of the HC-SR04 driver at concrete inputs;
-- `Board` has those about its pins and file operations, `Sessions` about its threads.
mod Board
mod Sessions
use linux_kernel_programing.Prelude.{
  ℕ, ◌+◌, ◌≤◌, ◌≡◌, refl, Bool, true, false, none, some, List, [], ◌∷◌, arith, replicate, ltb, ◌==◌,
  if◌then◌else◌,
}
use linux_kernel_programing.Prelude.Int.{pos}
use linux_kernel_programing.Gpio.{Gpio, Log, requests, frees}
use linux_kernel_programing.Hcsr.Fifo.{FifoBuffer, Fifo, cleared, fifo_write, fifo_read, clear}
use linux_kernel_programing.Hcsr.Fifo.Stack.{
  IsValid, contents, pop, write_call, read_call, run, run_stack, run_refines, clear-contents,
}
use linux_kernel_programing.Hcsr.Device.{
  Device, fresh_irq_data, interrupts, thread_write, divide_error, finished, pulse, pin_config,
}
use linux_kernel_programing.Hcsr.Device.Interrupts.{Counted, interrupts-echo}
use linux_kernel_programing.Hcsr.Device.Thread.{
  Near, echoes, thread_write-mean, thread_write-divide_error, level, pulse-level,
}
use linux_kernel_programing.Hcsr.Pins.{
  PinConfig, Kernel, configure_one, configure_entry, config_opt, assign_role, configure_interrupt,
  update_entry, populate_gen2_pins_data, populate_pin_data, configure_pins, release_gpio_pins,
}
use linux_kernel_programing.Hcsr.Pins.Balance.{
  IsBalanced, configured, configure_pins-IsBalanced, release_gpio_pins-IsBalanced,
}
use linux_kernel_programing.Hcsr.Files.{
  Reply, success, einval, hcsr04_read, hcsr04_write, hcsr04_ioctl, config_pins,
  initiate_measurement, write_result, lock, unlock, locked_read, is_edge_interruptible, take_pins,
  free_old_irq,
}
use linux_kernel_programing.Hcsr.Files.Commands.{ioctl_call, release_call, hcsr04_ioctl-config_pins}
use linux_kernel_programing.Hcsr.Files.Commands
use linux_kernel_programing.Hcsr.Files.Locking.{hcsr04_write-blocks, hcsr04_write-started}
use linux_kernel_programing.Hcsr.Files.Reading.{user_data, hcsr04_read-pop, hcsr04_read-contents}

abbrev seen : ℕ → ℕ → FifoBuffer
seen cm time = record { distance = pos cm; tsc = time }

abbrev no_measurement : Fifo
no_measurement = record { slots = replicate 5 cleared; index = 0 }

no_measurement-IsValid : IsValid no_measurement
no_measurement-IsValid = record { five = refl; within = omega arith }

-- Two measurements, the first of them at slot 1.
abbrev two_measurements : Fifo
two_measurements = record {
  slots = cleared ∷ seen 30 7 ∷ seen 31 8 ∷ cleared ∷ cleared ∷ [];
  index = 2;
}

two_measurements-IsValid : IsValid two_measurements
two_measurements-IsValid = record { five = refl; within = omega arith }

-- A device ready to measure with 2 + 2 rounds.
abbrev ready : Device
ready = record {
  minor = 55;
  irq_data = fresh_irq_data;
  trigger_pin = some 4;
  echo_pin = some 2;
  m = pos 2;
  delta = pos 60;
  measurement_in_progress = false;
  fifo = two_measurements;
  read_lock = 0;
  buffer_lock = false;
  are_pins_configured = true;
  are_m_delta_configured = true;
}

abbrev generous : Gpio
generous = record { grants = λ log pin. true; cansleep = λ pin. false }

-- A kernel that refuses GPIO 36 and gives every pin an interrupt.
abbrev kernel : Kernel
kernel = record {
  gpio = record {
    grants = λ log pin. if pin == 36 then false else true;
    cansleep = λ pin. ltb 63 pin;
  };
  gpio_to_irq = λ pin. pos (pin + 100);
  grants_irq = λ log irq. true;
}

abbrev shield : List PinConfig
shield = populate_gen2_pins_data []

run_refines_example :
    run (write_call (seen 40 9) ∷ read_call ∷ read_call ∷ []) two_measurements
    ≡ run_stack (write_call (seen 40 9) ∷ read_call ∷ read_call ∷ []) (contents two_measurements)
run_refines_example =
    run_refines (write_call (seen 40 9) ∷ read_call ∷ read_call ∷ []) two_measurements
      two_measurements-IsValid refl

-- The newest comes first.
newest_first :
    run (write_call (seen 40 9) ∷ read_call ∷ read_call ∷ []) two_measurements
    ≡ seen 40 9 ∷ seen 31 8 ∷ []
unfolding run fifo_write fifo_read
newest_first = refl

-- Echoes of 30 cm in each round, a round every 4,000,000 ticks.
abbrev rises : ℕ → ℕ
rises i = 1000000

abbrev falls : ℕ → ℕ
falls i = 1696000

thirty_cm-Near : Near rises falls
thirty_cm-Near = record {
  order = λ i. omega arith;
  stamp = λ i. omega arith;
  range = λ i. omega arith;
}

ready-Counted : Counted ready 0 0
ready-Counted = record { between = refl; number = refl; summed = refl }

thread_write-mean_example :
    (d' : Device) × (log' : Log) × (thread_write generous (echoes rises falls) 77 ready []
      ≡ finished d' log')
    × (d'.fifo ≡ fifo_write two_measurements (seen 30 77))
    × (d'.measurement_in_progress ≡ false)
    × (d'.buffer_lock ≡ false)
    × Counted d' 4 120
thread_write-mean_example =
    thread_write-mean rises falls generous 2 77 0 0 ready [] thirty_cm-Near ready-Counted refl refl
      (omega arith) (omega arith)
