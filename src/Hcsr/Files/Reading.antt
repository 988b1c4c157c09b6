-- ===== src/Hcsr/Files/Reading.antt =====
-- What `hcsr04_read` of the HC-SR04 driver gives the user.
use linux_kernel_programing.Prelude.{
  ℕ, ◌≡◌, ◌≢◌, refl, Bool, true, false, Option, none, some, List, [], ◌∷◌, arith, if◌then◌else◌,
}
use linux_kernel_programing.Prelude.Int.{negsuc}
use linux_kernel_programing.Hcsr.Fifo.{FifoBuffer, fifo_read}
use linux_kernel_programing.Hcsr.Fifo.Stack.{IsValid, contents, pop, fifo_read-pop}
use linux_kernel_programing.Hcsr.Device.{Device}
use linux_kernel_programing.Hcsr.Files.{
  Reply, success, lock, unlock, locked_read, ensure_measurement, read_again, read_empty, rejected,
  hcsr04_read,
}

-- What is in the user's buffer at the end: the last copy.
abbrev pub user_data : Reply → Option FifoBuffer
user_data r = elim r.copies [ [] ↦ none | buffer ∷ _ ↦ some buffer ]

-- A result, if there is one, holds the buffer `b` in case of success.
abbrev Gives : FifoBuffer → Option Reply → Type 0
Gives b r = (reply : Reply) → r ≡ some reply → reply.result ≡ success → user_data reply ≡ some b

read_again-Gives :
    (others : Device → Device) (b : FifoBuffer) (d : Device) → Gives b (read_again others b d)
unfolding read_again
read_again-Gives others b d = ground arith

read_empty-Gives :
    (others : ℕ → Device → Device) (started : Bool) (b : FifoBuffer) (d : Device)
    → Gives b (read_empty others started b d)
unfolding read_empty
read_empty-Gives others started b d =
    elim (ensure_measurement (others 1) started d)
      as (λ x. Gives b (elim x [
        | none ↦ none
        | some (ended, d') ↦ (if ended then some (rejected d') else read_again (others 2) b d')
      ])) [
        | none ↦ ground arith
        | some (true, d') ↦ ground arith
        | some (false, d') ↦ read_again-Gives (others 2) b d'
      ]

-- Whatever the other threads do between the locks: a read that succeeds gives the user the newest
-- measurement that a valid buffer holds when its lock is first taken, and the distance -1 of an
-- empty buffer if it holds none, even if a measurement comes in while the read waits.
pub hcsr04_read-pop :
    (others : ℕ → Device → Device) (started : Bool) (d : Device) (reply : Reply)
    → IsValid (others 0 d).fifo
    → hcsr04_read others started d ≡ some reply
    → reply.result ≡ success
    → user_data reply ≡ some (pop (contents (others 0 d).fifo)).0
unfolding hcsr04_read locked_read lock
hcsr04_read-pop others started d reply v e h =
    let popped = fifo_read-pop (others 0 d).fifo v in
    ground (
      arith,
      popped,
      read_empty-Gives others started (fifo_read (others 0 d).fifo).0
          (unlock (record (record (others 0 d) { buffer_lock = true }) {
            fifo = (fifo_read (others 0 d).fifo).1;
          }))
          reply,
    )

-- Of a buffer that holds a measurement a read takes one off and leaves the lock free, without any
-- other lock or thread.
pub hcsr04_read-contents :
    (others : ℕ → Device → Device) (started : Bool) (d : Device) (b : FifoBuffer)
    (rest : List FifoBuffer)
    → IsValid (others 0 d).fifo
    → (others 0 d).buffer_lock ≡ false
    → contents (others 0 d).fifo ≡ b ∷ rest
    → b.distance ≢ negsuc 0
    → (reply : Reply) × (hcsr04_read others started d ≡ some reply)
      × (user_data reply ≡ some b)
      × (contents reply.device.fifo ≡ rest)
      × (reply.device.buffer_lock ≡ false)
unfolding hcsr04_read locked_read lock unlock pop
hcsr04_read-contents others started d b rest v k c n =
    let popped = fifo_read-pop (others 0 d).fifo v in
    let d' = record (others 0 d) { fifo = (fifo_read (others 0 d).fifo).1; buffer_lock = false } in
    let reply : Reply = record { result = success; copies = b ∷ []; device = d' } in
    (reply, ground (arith, popped), refl, ground (arith, popped), refl)
