-- ===== src/Hcsr/Device/Interrupts.antt =====
-- One echo in `HCSR_Driver.c`: a rising and a falling edge.
use linux_kernel_programing.Prelude.{
  ℕ, ◌+◌, ◌-◌, ◌/◌, ◌%◌, ◌^◌, ◌≤◌, ◌<◌, ◌≡◌, ◌∙◌, refl, some, List, [], ◌∷◌, arith, ltb,
  if◌then◌else◌, Bool-cases, inl, inr,
}
use linux_kernel_programing.Prelude.Int.{pos, ◌+ℤ◌, wrap32-pos}
use linux_kernel_programing.Hcsr.Device.{
  IrqData, Device, distance_at, record_sample, irq_handler, interrupts,
}

-- The time in which an echo travels a centimetre and back, in ticks of the time stamp counter.
abbrev pub centimetres : ℕ → ℕ → ℕ
centimetres start stop = (stop - start) / 23200

pub distance_at-eq :
    (q : IrqData) (stop : ℕ)
    → q.rising_edge_time ≤ stop
    → stop < 2 ^ 64
    → centimetres q.rising_edge_time stop < 2 ^ 31
    → distance_at q stop ≡ pos (centimetres q.rising_edge_time stop)
unfolding distance_at
distance_at-eq q stop h k l =
    let e : (stop + 2 ^ 64 - q.rising_edge_time) % 2 ^ 64 ≡ stop - q.rising_edge_time =
      omega arith in
    rw e (ground arith)

-- The counters of the samples: their number and their sum.
pub record Counted (d : Device) (samples total : ℕ) : Type 0 where
  pub between : d.irq_data.irq_edge ≡ 0
  pub number : d.irq_data.total_samples ≡ pos samples
  pub summed : d.irq_data.sample_sum ≡ pos total

pub +ℤ-pos : (a b : ℕ) → pos a +ℤ pos b ≡ pos (a + b)
unfolding ◌+ℤ◌
+ℤ-pos a b = ground arith

pub record_sample-counts :
    (q : IrqData) (samples total cm : ℕ)
    → q.total_samples ≡ pos samples
    → q.sample_sum ≡ pos total
    → samples + 1 < 2 ^ 31
    → total + cm < 2 ^ 31
    → ((record_sample (pos cm) q).total_samples ≡ pos (samples + 1))
      × ((record_sample (pos cm) q).sample_sum ≡ pos (total + cm))
      × ((record_sample (pos cm) q).irq_edge ≡ q.irq_edge)
unfolding record_sample
record_sample-counts q samples total cm e f h k =
    (rw (e, +ℤ-pos) (wrap32-pos (samples + 1) h), rw (f, +ℤ-pos) (wrap32-pos (total + cm) k), refl)

-- The interrupt data after an echo.
abbrev pub echoed : ℕ → ℕ → IrqData → IrqData
echoed start stop q =
    let up = record q { rising_edge_time = start; irq_edge = 1 } in
    let fallen = record up { falling_edge_time = stop; irq_edge = 0 } in
    if ltb 400 (centimetres start stop)
    then fallen
    else record_sample (pos (centimetres start stop)) fallen

irq_handler-rises :
    (d : Device) (start : ℕ)
    → d.irq_data.irq_edge ≡ 0
    → irq_handler start d
      ≡ some
          (record d { irq_data = record (d.irq_data) { rising_edge_time = start; irq_edge = 1 } })
unfolding irq_handler
irq_handler-rises d start e = rw e refl

irq_handler-falls :
    (d : Device) (stop cm : ℕ)
    → d.irq_data.irq_edge ≡ 1
    → 0 < d.read_lock
    → distance_at d.irq_data stop ≡ pos cm
    → irq_handler stop d
      ≡ some (record d {
        irq_data =
            (let fallen = record (d.irq_data) { falling_edge_time = stop; irq_edge = 0 } in
              if ltb 400 cm then fallen else record_sample (pos cm) fallen);
        read_lock = d.read_lock - 1;
      })
unfolding irq_handler
irq_handler-falls d stop cm e r f = simp (e, f) (ground arith)

interrupts-nil : (d : Device) → interrupts [] d ≡ some d
unfolding interrupts
interrupts-nil d = refl

interrupts-cons :
    (time : ℕ) (times : List ℕ) (d : Device) {d' : Device}
    → irq_handler time d ≡ some d'
    → interrupts (time ∷ times) d ≡ interrupts times d'
unfolding interrupts
interrupts-cons time times d h = rw (h, interrupts)

interrupts-echoed :
    (d : Device) (start stop : ℕ)
    → d.irq_data.irq_edge ≡ 0
    → 0 < d.read_lock
    → start ≤ stop
    → stop < 2 ^ 64
    → centimetres start stop < 2 ^ 31
    → interrupts (start ∷ stop ∷ []) d
      ≡ some (record d { irq_data = echoed start stop d.irq_data; read_lock = d.read_lock - 1 })
interrupts-echoed d start stop e r h k l =
    let up = record (d.irq_data) { rising_edge_time = start; irq_edge = 1 } in
    let far = distance_at-eq up stop h k l in
    let risen = record d { irq_data = up } in
    interrupts-cons start (stop ∷ []) d (irq_handler-rises d start e)
    ∙ interrupts-cons stop [] risen
        (irq_handler-falls risen stop (centimetres start stop) refl r far)
    ∙ interrupts-nil _

echoed-Counted :
    (d : Device) (start stop samples total : ℕ)
    → Counted d samples total
    → samples + 1 < 2 ^ 31
    → total + 400 < 2 ^ 31
    → let cm = centimetres start stop in
      let far = ltb 400 cm in
      Counted
        (record d { irq_data = echoed start stop d.irq_data; read_lock = d.read_lock - 1 })
        (if far then samples else samples + 1)
        (if far then total else total + cm)
echoed-Counted d start stop samples total c h k =
    let cm = centimetres start stop in
    let up = record (d.irq_data) { rising_edge_time = start; irq_edge = 1 } in
    let fallen = record up { falling_edge_time = stop; irq_edge = 0 } in
    elim (Bool-cases (ltb 400 cm)) [
      | inl far ↦ rw far (record { between = refl; number = c.number; summed = c.summed })
      | inr near ↦
          let (number, summed, edge) =
            record_sample-counts fallen samples total cm c.number c.summed h (ground arith) in
          rw near (record { between = edge; number = number; summed = summed })
    ]

-- An echo whose edges come at `start` and `stop`, between two echoes and with the semaphore up:
-- the semaphore goes down by one and nothing else outside the interrupt's data changes; a distance
-- of up to 400 cm is counted and added to the sum, a greater one (below 2 ^ 31) is rejected.
pub interrupts-echo :
    (d : Device) (start stop samples total : ℕ)
    → Counted d samples total
    → 0 < d.read_lock
    → start ≤ stop
    → stop < 2 ^ 64
    → centimetres start stop < 2 ^ 31
    → samples + 1 < 2 ^ 31
    → total + 400 < 2 ^ 31
    → let cm = centimetres start stop in
      let far = ltb 400 cm in
      (d' : Device) × (interrupts (start ∷ stop ∷ []) d ≡ some d')
      × (d' ≡ record d { irq_data = d'.irq_data; read_lock = d.read_lock - 1 })
      × (d'.irq_data.irq_trigger_pin ≡ d.irq_data.irq_trigger_pin)
      × Counted d' (if far then samples else samples + 1) (if far then total else total + cm)
unfolding record_sample
interrupts-echo d start stop samples total c r h k l p q = (
  record d { irq_data = echoed start stop d.irq_data; read_lock = d.read_lock - 1 },
  interrupts-echoed d start stop c.between r h k l,
  refl,
  ground arith,
  echoed-Counted d start stop samples total c p q,
)
