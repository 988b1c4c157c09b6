-- ===== src/Hcsr/Device.antt =====
-- `struct hcsr04_device` of `user-space device interface for HC-SR04/HCSR_Driver.c`, its interrupt
-- handler and its measuring thread.
pub mod Interrupts
pub mod Thread
use linux_kernel_programing.Prelude.{
  ℕ, zero, suc, ◌+◌, ◌-◌, ◌/◌, ◌%◌, ◌^◌, Bool, true, false, not, ◌&&◌, Option, none, some, List, [],
  ◌∷◌, replicate, ◌==◌, ltb, if◌then◌else◌,
}
use linux_kernel_programing.Prelude.Int.{
  ℤ, pos, negsuc, pos_part, ◌+ℤ◌, ltb_ℤ, ◌==ℤ◌, signed32, wrap32,
}
use linux_kernel_programing.Gpio.{
  Gpio, Log, requested, refused, exported, direction_output, direction_input, value_set,
  value_set_cansleep,
}
use linux_kernel_programing.Hcsr.Fifo.{FifoBuffer, Fifo, cleared, fifo_write}

-- `struct hcsr04_irq_data`; `none` is `NO_VALUE` in a pin.
pub record IrqData : Type 0 where
  pub irq_no : ℤ
  pub irq_echo_pin : Option ℕ
  pub irq_trigger_pin : Option ℕ
  pub irq_edge : ℕ
  pub rising_edge_time : ℕ
  pub falling_edge_time : ℕ
  pub total_samples : ℤ
  pub outlier_lowest : ℤ
  pub outlier_highest : ℤ
  pub sample_sum : ℤ

-- `struct hcsr04_device`; `none` is `NO_PIN`. `read_lock` is the semaphore's count, `buffer_lock`
-- whether the spin lock is taken.
pub record Device : Type 0 where
  pub minor : ℕ
  pub irq_data : IrqData
  pub trigger_pin : Option ℕ
  pub echo_pin : Option ℕ
  pub m : ℤ
  pub delta : ℤ
  pub measurement_in_progress : Bool
  pub fifo : Fifo
  pub read_lock : ℕ
  pub buffer_lock : Bool
  pub are_pins_configured : Bool
  pub are_m_delta_configured : Bool

-- `NO_VALUE`
abbrev pub no_value : ℤ
no_value = negsuc 0

abbrev pub fresh_irq_data : IrqData
fresh_irq_data = record {
  irq_no = no_value;
  irq_echo_pin = none;
  irq_trigger_pin = none;
  irq_edge = 0;
  rising_edge_time = 0;
  falling_edge_time = 0;
  total_samples = pos 0;
  outlier_lowest = pos 0;
  outlier_highest = pos 0;
  sample_sum = pos 0;
}

-- Everything but the minor number is set anew.
unfoldable pub initialize_device : Device → Device
initialize_device d = record {
  minor = d.minor;
  irq_data = fresh_irq_data;
  trigger_pin = none;
  echo_pin = none;
  m = no_value;
  delta = no_value;
  measurement_in_progress = false;
  fifo = record { slots = replicate 5 cleared; index = 0 };
  read_lock = 0;
  buffer_lock = false;
  are_pins_configured = false;
  are_m_delta_configured = false;
}

-- `pin_config`: whether the request failed, and the calls made. The value set at the end is 0
-- whatever `val` is.
unfoldable pub pin_config : Gpio → ℕ → Bool → Bool → Bool → Log → Bool × Log
pin_config g pin io_flag val configure log =
    let ready = if configure then exported pin ∷ requested pin ∷ log else log in
    let out = if ltb pin 64 then direction_output pin val ∷ ready else ready in
    let directed = if io_flag then out else direction_input pin ∷ ready in
    let done =
      if g.cansleep pin
      then value_set_cansleep pin false ∷ directed
      else value_set pin false ∷ directed in
    if configure && not (g.grants log pin) then (true, refused pin ∷ log) else (false, done)

-- The distance in cm of a falling edge at `time`: the cast to `int` keeps the low 32 bits.
unfoldable pub distance_at : IrqData → ℕ → ℤ
distance_at q time = signed32 ((time + 2 ^ 64 - q.rising_edge_time) % 2 ^ 64 / 23200 % 2 ^ 32)

-- The bookkeeping of a distance that is not rejected.
unfoldable pub record_sample : ℤ → IrqData → IrqData
record_sample distance q = record q {
  outlier_highest = if ltb_ℤ q.outlier_highest distance then distance else q.outlier_highest;
  outlier_lowest =
      if ltb_ℤ q.outlier_highest distance
      then q.outlier_lowest
      else (if ltb_ℤ distance q.outlier_lowest then distance else q.outlier_lowest);
  total_samples = wrap32 (q.total_samples +ℤ pos 1);
  sample_sum = wrap32 (q.sample_sum +ℤ distance);
}

-- The interrupt at time `time`. `none`: `down_interruptible` finds the semaphore at 0 and goes to
-- sleep inside the handler.
unfoldable pub irq_handler : ℕ → Device → Option Device
irq_handler time d =
    let q = d.irq_data in
    let distance = distance_at q time in
    let fallen = record q { falling_edge_time = time; irq_edge = 0 } in
    let sampled = if ltb_ℤ (pos 400) distance then fallen else record_sample distance fallen in
    let woken = record d { irq_data = sampled; read_lock = d.read_lock - 1 } in
    if q.irq_edge == 0
    then some (record d { irq_data = record q { rising_edge_time = time; irq_edge = 1 } })
    else (if q.irq_edge == 1 then (if d.read_lock == 0 then none else some woken) else some d)

-- The interrupts of a stretch of time, in order.
unfoldable pub interrupts : List ℕ → Device → Option Device
interrupts [] d = some d
interrupts (time ∷ times) d = elim (irq_handler time d) [
  | none ↦ none
  | some d' ↦ interrupts times d'
]

-- How the measuring thread ends.
pub data Ending : Type 0 where
  finished : Device → Log → Ending
  divide_error : Ending
  asleep_in_interrupt : Ending
  spinning : Ending

-- C's division of `int`s: towards 0.
abbrev pub negated : ℕ → ℤ
negated zero = pos 0
negated (suc n) = negsuc n

abbrev pub quot_ℤ : ℤ → ℤ → ℤ
quot_ℤ (pos a) (pos b) = pos (a / b)
quot_ℤ (pos a) (negsuc b) = negated (a / (b + 1))
quot_ℤ (negsuc a) (pos b) = negated ((a + 1) / b)
quot_ℤ (negsuc a) (negsuc b) = pos ((a + 1) / (b + 1))

-- -1 as the `unsigned` that the kernel's calls take: no GPIO has the number.
abbrev pub no_gpio : ℕ
no_gpio = 2 ^ 32 - 1

-- `pin_config` of the pin -1, which is below 64 as an `int`, without a request.
unfoldable pub update_missing : Gpio → Bool → Log → Log
update_missing g val log =
    let directed = direction_output no_gpio val ∷ log in
    if g.cansleep no_gpio
    then value_set_cansleep no_gpio false ∷ directed
    else value_set no_gpio false ∷ directed

-- One pulse on the trigger pin: two updates of its direction, the pin high, then low. Without a
-- trigger pin the same calls are made for -1.
unfoldable pub pulse : Gpio → Option ℕ → Log → Log
pulse g none log = update_missing g false (update_missing g true log)
pulse g (some pin) log =
    (pin_config g pin true false false (pin_config g pin true true false log).1).1

-- The loop of the thread: `rounds` are left, `echoes i` are the times of the interrupts that come
-- in round `i`.
unfoldable pub sample_rounds : Gpio → (ℕ → List ℕ) → ℕ → ℕ → Device → Log → Option (Device × Log)
sample_rounds g echoes zero i d log = some (d, log)
sample_rounds g echoes (suc rounds) i d log =
    let log' = pulse g d.irq_data.irq_trigger_pin log in
    elim (interrupts (echoes i) (record d { read_lock = d.read_lock + 1 })) [
      | none ↦ none
      | some d' ↦ sample_rounds g echoes rounds (i + 1) d' log'
    ]

-- After the loop: the mean of the samples is stored with the time stamp.
unfoldable pub store_mean : ℕ → Device → Log → Ending
store_mean tsc d log =
    let q = d.irq_data in
    let mean : FifoBuffer = record { distance = quot_ℤ q.sample_sum q.total_samples; tsc = tsc } in
    if q.total_samples ==ℤ pos 0
    then divide_error
    else finished
        (record d {
          fifo = fifo_write d.fifo mean;
          measurement_in_progress = false;
          buffer_lock = false;
        })
        log

unfoldable pub thread_write : Gpio → (ℕ → List ℕ) → ℕ → Device → Log → Ending
thread_write g echoes tsc d log =
    let rounds = pos_part (wrap32 (d.m +ℤ pos 2)) in
    if d.buffer_lock
    then spinning
    else elim (sample_rounds g echoes rounds 0 (record d { buffer_lock = true }) log) [
      | none ↦ asleep_in_interrupt
      | some (d', log') ↦ store_mean tsc d' log'
    ]
