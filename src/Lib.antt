-- ===== src/Lib.antt =====
-- The drivers of the Galileo board, modelled and proved in antt. Each driver is a program of its
-- own that the kernel calls; what two of them share stands in modules of its own.
--
-- HashDriver: `Hash Table Driver/Hash_Driver.c`, two devices that each keep a hash table.
--   HashDriver holds the state of the module (`Driver`) and one function for each file operation
--   (`ht530_drv_driver_open`, `_write`, `_read`, `_release`, `_ioctl` are `open_device`, `write`,
--   `read`, `release`, `ioctl`). Api is the kernel's hash table, which is not part of the
--   repository: an interface with the laws of `hash_min`, `hash_init`, `hash_add` and of relinking
--   a chain. Chain has the loops over a bucket, Module the start and end of the module. Store shows
--   the table as a map, History sequences of calls, Dump the command `DUMP`, Memory the nodes that
--   no table holds. Program is `Hash Table Driver/Main.c`, whose threads are moves that interleave:
--   Counts and Moves count the threads at each place, Threads follows them to their end, Tables
--   their calls into the driver.
--
-- Gpio: the kernel's calls for pins and interrupts as a log, with its answers as a parameter.
--
-- LedStrip: the two drivers of a strip of 16 LEDs. Pixels is the pixel store, which both sources
--   repeat (`set_color`, `set_led_rgb`, `reset_leds`); Colors says what it holds after a write.
--   BitBang is `Bit Banging Approach to drive WS2812 based LED Strip/ws2812.c`: the writes to the
--   GPIO register with the delays between them, the file operations, the pins, the module's start
--   and end. Wires reads the waveform back as the strip does, Pins follows the three pins. Spi is
--   `SPI based driver for WS2812 LED Strip/spi_driver.c`: the bytes that go to the SPI core, the
--   file operations, probe and remove; Transfer says which bytes are sent. SpiDevice is
--   `spi_device.c` beside it. Driver is what a program sees of either driver and of the strip on
--   its line, and Program the program `main.c` that runs on it, which stands beside both: Choice is
--   about its dialogue, Frames and Whole about what the strip shows.
--
-- Hcsr: `user-space device interface for HC-SR04/HCSR_Driver.c`, the distance sensors. Fifo is the
--   measurement buffer (`fifoRead`, `fifoWrite`), and Stack what it is to its users. Device is the
--   data of a sensor, the interrupt handler and the measuring thread `hcsr04_thread_write`;
--   Interrupts and Thread are about them. Pins is the table of the shield's pins, `configure_pins`
--   and `release_gpio_pins`; Balance follows the pins that are held. Files has the file operations,
--   which call the parts before: Reading, Locking and Commands are about them. Details is what
--   `print_device_data` prints, which `hcsr04_release` calls first. Irqs follows the interrupt that
--   a device holds through a session. Module is the start and end of the module, and Life the pins
--   from the one to the other. Threads, on the state of Sensor, with a kernel whose spin locks keep
--   others out or do not (`Board`), lets users in `hcsr04_write` and `hcsr04_read`, the measuring
--   threads that they create, interrupts and ioctls take turns on one device: Frames is what the
--   last two leave alone, Mutex and Stuck are about the lock of the buffer, Stack and Replies about
--   what the buffer holds and the reads give, Details about what is printed of it, Ends and
--   Progress about the end of the calls, and Races about what the driver does not exclude. Program
--   is `Main.c` beside the driver, the calls of one user on two devices.
--
-- Platform: `Platform Driver and Device infrastructure for HC-SR04`, the same sensors with a
--   platform driver. `platform_driver.c` repeats the measurement buffer, the device's data, the
--   table of the pins and its release, and the opening, reading and releasing of a device: Shared
--   takes these operations from Hcsr. Device is what differs in the pins, the interrupt handler and
--   the measuring thread (Echoes, Thread and Mean are about it), Pins and Files what differs in the
--   commands and the writing (Same compares them with Hcsr; Clearing is about the writing), Sysfs
--   the attributes of a device (`trigger_pin_store` to `enable_store`; Leaks and Session, and
--   Unlocked for `distance_show`). Module is `hcsr04_init`, `Pdriver_probe`, `hcsr04_exit` and
--   `Pdriver_remove`; Bus lets devices come and go and be used in any order, as a step relation,
--   and its children say what holds in each state that is reached. Pdevice is `platform_device.c`,
--   the devices that the platform bus hands to the driver.
--
-- DumpStack: `Dynamic Stack Dumping using new syscalls/kernel files/dynamic_dump_stack.c`, the
--   system calls that plant and remove probes and the handler of a hit. The list of probes belongs
--   to a patched kernel that is not part of the repository: the interface `Kernel`. Access says who
--   gets a stack dump.
--
-- Mprobe: `Kprobe/Mprobe.c`, a probe in the hash table driver with a ring buffer of ten records:
--   the handler of a hit and the file operations; Module is its start and end. Probing follows hits
--   and reads, Missing the time after a write, in which there is no buffer. Program is
--   `Kprobe/Main.c`, which adds a thread that plants a probe to the threads of the hash table's
--   program; Planting says what becomes of them. `Kprobe/Hash_Driver.c` is the text of
--   `Hash Table Driver/Hash_Driver.c`.
--
-- Stateful code takes the state and returns the new one. `none` is a path on which the code does
-- not return: a write out of bounds, or a spin lock that nobody gives back. Outside Threads a spin
-- lock that is taken keeps the others out, as on several processors. What other threads do before a
-- lock is taken, the times of the interrupts, the answers of the kernel and whether a thread is
-- created are arguments. An `int` is an integer wrapped to 32 bits where the code computes with it;
-- a bit pattern is a natural number below 2 ^ 32; a time stamp is a natural number below 2 ^ 64.
--
-- Loops are structural recursion over the list or the count that the source loops over. The search
-- for a key of a bucket in `DUMP` runs the 1,000,000 rounds that the source gives it, and the
-- measuring thread `m + 2` rounds (the platform driver's `m + 3`), so no fuel of the model's own is
-- needed. The platform driver's thread never ends if `m + 2` is the greatest `int`: that is the
-- result `endless`. The display without end of the WS2812 program is a number of passes, an
-- argument; its dialogue recurs on the numbers that the user types and is `waiting` when they are
-- used up. A schedule of the threads of a program or of a sensor, and a history of the platform
-- bus, is a list of steps.
--
-- Not modelled: messages to the log of the kernel, but for those of the HC-SR04 driver's
-- `print_device_data`; allocations whose result the source does not test, which are taken to
-- succeed, as are copies between user and kernel whose result it does not test; stopping a thread
-- from outside; what the calls of the kernel's device model do with an error pointer; what the
-- memory of a freed entry of the pins reads as when the release of all pins goes on from it (as
-- before, but in `remove_in_memory`); on the line of the WS2812 the time of anything but delays and
-- writes of the register, and the spin lock `spi_lock` round a single write; in the WS2812 program
-- the overflow of the LED's number, which takes 2 ^ 31 frames of a second; in the programs of the
-- hash table and of the probe a failure of the clock. In the turns of the threads of a sensor a
-- `fifoRead` or `fifoWrite` under the lock is one step, also where a write clears the buffer
-- without the lock, and no device is opened or closed. The programs in user space that try the
-- stack dumps with fixed arguments and print what they get, and `timer_delay_test.c`, which tries
-- delays, are input and output only.
pub mod Prelude
pub mod HashDriver
pub mod LedStrip
pub mod Gpio
pub mod Hcsr
pub mod DumpStack
pub mod Mprobe
pub mod Platform
