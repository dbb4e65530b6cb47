-- ===== src/Config.antt =====
-- config.h, spi_memory_23lcxx.h and the clock of avr_compiler.h: the constants that the modelled code uses.
use rtos_hm_board.Prelude.{ℕ, ◌*◌, ◌/◌, ◌-◌}

-- The allocation of the external memory.
abbrev pub mem_signal_begin : ℕ
mem_signal_begin = 0x000000

abbrev pub mem_attenuation_begin : ℕ
mem_attenuation_begin = 0x001000

abbrev pub mem_fft_begin : ℕ
mem_fft_begin = 0x001800

abbrev pub mem_signal_offset : ℕ
mem_signal_offset = 0x011800

abbrev pub mem_signal_length : ℕ
mem_signal_length = 2048

abbrev pub no_points : ℕ
no_points = 512

-- The opcodes of the memory.
abbrev pub spi_read : ℕ
spi_read = 0x03

abbrev pub spi_write : ℕ
spi_write = 0x02

-- The addresses on the network, the memory for packets and the router's task.
abbrev pub csp_my_address : ℕ
csp_my_address = 6

abbrev pub csp_obc_address : ℕ
csp_obc_address = 1

abbrev pub csp_i2c_slave_address : ℕ
csp_i2c_slave_address = csp_my_address

abbrev pub csp_i2c_obc_address : ℕ
csp_i2c_obc_address = csp_obc_address

abbrev pub csp_buffer_count : ℕ
csp_buffer_count = 3

abbrev pub csp_buffer_size : ℕ
csp_buffer_size = 86

abbrev pub csp_router_stack : ℕ
csp_router_stack = 255

abbrev pub csp_router_priority : ℕ
csp_router_priority = 1

-- `F_CPU` of avr_compiler.h
abbrev pub f_cpu : ℕ
f_cpu = 16470000

abbrev pub csp_i2c_baudrate : ℕ
csp_i2c_baudrate = 100000

-- `TWI_BAUD` of twi_master_driver.h
abbrev pub twi_baud : ℕ → ℕ → ℕ
twi_baud f_sys f_twi = f_sys / (2 * f_twi) - 5

abbrev pub csp_i2c_baudsetting : ℕ
csp_i2c_baudsetting = twi_baud f_cpu csp_i2c_baudrate

abbrev pub adt_i2c_baudrate : ℕ
adt_i2c_baudrate = 100000

abbrev pub adt_i2c_baudsetting : ℕ
adt_i2c_baudsetting = twi_baud f_cpu adt_i2c_baudrate
