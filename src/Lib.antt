-- ===== src/Lib.antt =====
-- Verification library of lpf, the Linux peripheral framework: the Peripheral Driver Model (PDM)
-- of the kernel, the library PDI through which programs use it, and parts of the operating system
-- layer (OSAL) of user space.
--
-- The parts of the program and the files that model them
--
-- - Pdm: kernel/pdm and kernel/include/pdm. Devices stand on the PDM bus; a driver is matched with a
--   device, probed, and then serves commands through a device file of its own; /dev/pdm_manager
--   lists the bound devices.
--     Pdm/Device, Pdm/Errors: struct pdm_device and its ring of errors (include/pdm/bus/pdm_device.h:
--       pdm_device_record_error_type). Errors reads the ring as a log.
--     Pdm/Ids: ids of devices (pdm/bus/pdm_device.c: pdm_id_alloc, pdm_id_free, pdm_device_bind,
--       pdm_device_unbind). Ids/Interface is the part of the kernel's IDA that is used, Ids/Listed an
--       instance of it, Ids/Unique the invariant, Ids/Binding bind and unbind under it.
--     Pdm/Bus: pdm/bus/pdm_bus.c (pdm_bus_device_match_impl, pdm_bus_device_probe,
--       pdm_bus_device_remove, pdm_bus_register_driver); Bus/Probe has the steps of the bus as a
--       relation, over any number of devices, Bus/Outcome one probe, Bus/Matching the tables.
--     Pdm/Manager: the second half of pdm/bus/pdm_cdev.c (pdm_manager_ioctl and what it calls).
--       Manager/Walk is bus_for_each_dev, Manager/Find discovery by index and by capability,
--       Manager/Names discovery by name. Pdm/User has the copies to and from user space.
--     Pdm/Registry: pdm/registry (pdm_driver_entries_init, pdm_backend_entries_init, their exits,
--       pdm_backend_find). The linker section is a list, the calls are a trace of events.
--     Pdm/Module: pdm/pdm.c, the start and the stop of the module with its six parts.
--     Pdm/Led: pdm/drivers/led/pdm_led.c. Led/Backend is what the driver needs of its backend,
--       Led/Config the device tree, Led/Ioctl the commands, Led/Lifecycle probe and removal,
--       Led/Probe them with the commands. Led/Gpio is the backend of pdm_led_gpio.c over the GPIO
--       lines of the kernel, Led/Pwm the one of pdm_led_pwm.c over its PWM devices.
--     Pdm/Mcu: pdm/drivers/mcu/pdm_mcu_protocol.c, with Mcu/Driver for pdm_mcu.c. Mcu/Transport is
--       what the protocol needs of its transport, Mcu/Xfer the bounds of a transfer, Mcu/States the
--       state after each command, Mcu/Lifecycle probe and removal, Mcu/Probe them with the commands;
--       Mcu/I2c is the transport of pdm_mcu_i2c.c over an I2C adapter, Mcu/I2cFrame its frames;
--       Mcu/Spi that of pdm_mcu_spi.c, Mcu/Can and Mcu/CanFrame that of pdm_mcu_can.c over raw CAN
--       sockets, Mcu/Uart that of pdm_mcu_uart.c and pdm_mcu_uart_serdev.c over a serial port, and
--       Mcu/UartWrite the loop that writes to the port.
-- - Pdi: user/pdi/src. Pdi/Ctl is the client of /dev/pdm_manager (pdi_ctl.c), whose calls are
--   answered by Pdm/Manager; Pdi/Led and Pdi/Mcu are the clients of the devices. Pdi/Listing and
--   Pdi/Lookup put the client and the kernel together, Pdi/Contexts follows open descriptors, Pdi/Paths
--   is about the file that is opened for a name.
-- - Osal: user/osal/src, with the error codes in Osal itself.
--     Osal/Flock: lib/osal_flock.c. Flock/Clock is elapsed time, Flock/Held what the structure notes,
--       Flock/Polling and Flock/Freed the lock with a timeout.
--     Osal/Heap: lib/osal_heap.c, blocks with their headers at addresses. Heap/Accounts is about the
--       counters over sequences of calls, Heap/Blocks about reallocation, Heap/Alerts the threshold.
--     Osal/Log: util/osal_log.c. Log/Files has the log file and its backups, Log/Emit the text of a
--       message and where it goes, Log/Counts, Log/Life and Log/Runs the variables over sequences of
--       calls, Log/Rotation, Log/Pairs and Log/Sampling what their names say.
-- - ShmCache: user/osal/src/ipc/osal_shm_cache.c, a cache of entries in POSIX shared memory. The table
--   of caches of a process and the segments of the system, with their sizes, are the state;
--   osal_cache_create, open, delete, write, read, invalidate, invalidate_batch and get_stats are
--   functions on it, and ShmCache/Steps runs sequences of them. An access beyond the pages, of 4096
--   bytes, that a descriptor maps or that its segment has ends the process.
-- - Crc: user/osal/src/osal_crc.c, with the bitwise CRC-32 of the shared memory cache. The tables are
--   copied entry by entry; the division by the polynomial is their specification.
-- - Common: shared names, Boolean tests, lists, return codes, C strings, decimal numbers (`%d`,
--   `%u`), laws of exclusive or.
--
-- How the code is read
--
-- Unsigned fields are natural numbers, with the wrap at their width written out; `int` is the
-- integers, with a return code as 0 or `negsuc` of the error number less one. A null pointer is
-- `none`. Code that fails returns its code beside the state. A C string is the list of its bytes
-- before the NUL. A body that runs under a mutex is one step; in the drivers, the mutex of an
-- instance is the number of times it is held, so that a missing release shows. Loops are structural
-- recursion on their list or count, but for three that run on fuel: the polling of a file lock, whose
-- rounds take 10 ms or use up a signal that ends the sleep, so that timeout / 10 + 2 and one for each
-- signal are enough; the loops over a serial port, where each
-- round takes bytes or time, so that the length and the jiffies of the timeout, and two, are enough to
-- write; and the digits of a number of 32 bits, of which there are at most ten.
--
-- Parameters, for code outside the repository: the IDA, the walk over the bus, the GPIO lines, the PWM
-- devices, the I2C adapter, the SPI device, the CAN sockets and the serial port of the kernel; record
-- locks, the monotonic clock and nanosleep; with documented laws where a proof uses them. Further, the
-- results of the system calls, of allocations, of regular expressions, of opening files, of copies to
-- user space and of the registration of device files, and the numbers that /proc reports. The backend
-- of an LED and the transport of an MCU are parameters of their drivers, with the laws that
-- Led/Backend and Mcu/Transport state; the GPIO and PWM backends and the I2C, SPI and CAN transports
-- fill them. Each interface has an instance that runs in the tests.
--
-- Not modelled: the device files of the instances (reference counts and minors of the driver core),
-- the device tree enumerator, the receive callback of the serial port, diagnostics, the thin wrappers
-- of the kernel and user OSAL, the parse of /proc, the user library ACONFIG, the applications, and the
-- copy of kconfig in scripts.
pub mod Common
pub mod Crc
pub mod Osal
pub mod Pdi
pub mod Pdm
pub mod ShmCache
