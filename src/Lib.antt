-- ===== src/Lib.antt =====
-- The firmware of the RTOS-HM board: an ATxmega microcontroller that samples a piezo signal,
-- transforms it, and answers requests over the Cubesat Space Protocol (CSP).
--
-- How the parts interact. A frame for the board comes over I2C byte by byte into the TWI slave
-- driver, whose callback in csp_interface.c hands it to libcsp. The task of cspTask.c takes the
-- packets of a connection from libcsp and puts an event for each into the queue; the task of
-- mainTask.c takes the events and answers them, through libcsp, i2c_send and the TWI master driver.
-- A request to process starts the sampling interrupt of system.c, which writes 2048 words into the
-- external SPI memory; fft_memory.c then works on points in that memory. A second timer interrupt
-- counts the uptime.
--
-- Files, with the code they model (paths from the repository's root):
--   Config        the constants of config.h and spi_memory_23lcxx.h
--   SpiMemory     spi_memory_23lcxx.c; Bus has the SPI service and the chip as records, Laws, Reads
--                 and RoundTrip compare the functions with the chip's contents
--   Clock         the counters of system.c and ISR(TCC1_OVF_vect)
--   Sampling      adca_read_ch0 and ISR(TCD0_OVF_vect) of system.c
--   TwiMaster     MyDrivers/twi_master_driver.c: TWI_MasterWriteRead is write_read, and the
--                 interrupt handlers are interrupt, write_handler, read_handler, error_handler;
--                 Transfer has whole transactions, Recovery those after a failure
--   TwiSlave      MyDrivers/twi_slave_driver.c, likewise
--   CspInterface  csp_interface.c: i2c_init, i2c_send and TWI_CSP_SlaveProcessData
--   Adt           MyDrivers/ADT7420.c; Silent is about a sensor that sends nothing
--   TimerCounter  MyDrivers/TC_driver.c, for timers of type 0 and of type 1
--   Boot          main of main.c, boardInit and adc_init of system.c, with spi_mem_init
--   Clksys        MyDrivers/clksys_driver.c, and enable_xtal of system.c
--   Port, Pmic    MyDrivers/port_driver.c and MyDrivers/pmic_driver.c
--   Usart         MyDrivers/usart_driver_RTOS.c: put_byte, get_byte, rx_complete, data_reg_empty;
--                 Interleaving has their steps as a relation
--   Text          sprintf of the C library for the formats that mainTask.c uses
--   Fft           fft_memory.c: the tables, decimate_and_store and FFT_calculate; Points and
--                 Transform have the points in the memory as an array, Expressions has what is
--                 computed of them as expressions, which Dft, Exact and Fourier compare with the
--                 Fourier transform; Angles is about the table of sines
--   CspTask       cspTask.c and cspTask.h
--   MainTask      mainTask.c: one function for each handler, and handle for the switch;
--                 Fulfils says exactly what each handler does; System has the queue of events, the
--                 main task and the two timer interrupts as a relation, in which a round of the
--                 main task is one step, and Invariant is about its runs; Waiting is about the
--                 delay and the loop of processAll, and Measured about a measurement, its transform
--                 and its spectrum
--   Prelude       shared names, lists, bits, fields of registers, signed integers, and rings
--   Tests         runs on concrete boards
--
-- How state is modelled. Globals are records that the functions take and return. A hardware module
-- is the list of the writes to its registers, and each interrupt is given what its registers hold
-- throughout the interrupt. `int` has 16 bits and `long` 32; both are patterns of bits in ℕ, with
-- the wrap-around written out, and Prelude.Signed has the integers that they stand for. A write past
-- the end of a local array, after which nothing more is said, and a loop that never ends are outcomes
-- of their own in MainTask.
--
-- Parameters. The masks of the device header (MasterBits, SlaveBits, TcBits, ClksysBits, PortBits,
-- UsartBits, BootBits); what the clock system does with a write (ClksysHardware, HardwareLaws); the
-- SPI service with the memory chip (SpiBus, with the data sheet as SerialMemory); floating point
-- (FloatOps, FloatLaws); an exact arithmetic to compare the floats' expressions with (ExactOps,
-- ExactTable), which is not that of the floats, and which the residues of the prime 7681 have; the
-- queues of FreeRTOS (EventQueue, QueueLaws, ByteQueue, ByteQueueLaws); what lies at the pointer
-- newEvent of cspTask.c, which is never initialised (EventPointer, and HoldsEvents for the case that
-- it leads to memory); the interrupts while processAll waits, and whether the compiler reads the flag
-- sampling again in its loop (Wait); the pin of the power switch; whether csp_sendto accepts a
-- packet. Tests instantiates them all.
--
-- Bounds and fuel. The texts print five digits, enough for 16 bits; the transform has a fuel of ten
-- for its nine stages and the test that ends them.
--
-- Not modelled: FreeRTOS, libscp and src/ASF, which are copies of other projects, and the build's
-- output in Debug; the compiler's macros in MyDrivers/avr_compiler.h but for the clock, and
-- MyDrivers/spi_memory_25lcxx.h, a memory that the board does not use.
pub mod Prelude
pub mod Config
pub mod SpiMemory
pub mod Clock
pub mod Sampling
pub mod TwiMaster
pub mod TimerCounter
pub mod Adt
pub mod TwiSlave
pub mod Port
pub mod Clksys
pub mod Boot
pub mod Pmic
pub mod Usart
pub mod CspInterface
pub mod Text
pub mod Fft
pub mod CspTask
pub mod MainTask
pub mod Tests
