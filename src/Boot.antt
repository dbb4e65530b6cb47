-- ===== src/Boot.antt =====
-- `main` of main.c, `boardInit` and `adc_init` of system.c, and `spi_mem_init` of spi_memory_23lcxx.c:
-- what is set up before the tasks start.
pub mod Ends
use rtos_hm_board.Prelude.{
  ℕ, ◌==◌, if◌then◌else◌, bit_or, Bool, true, false, List, [], ◌∷◌, ◌++◌, Option, none, some,
}
use rtos_hm_board.Config.{
  csp_my_address, csp_obc_address, csp_i2c_slave_address, csp_i2c_obc_address, csp_buffer_count,
  csp_buffer_size, csp_router_stack, csp_router_priority, csp_i2c_baudsetting,
}
use rtos_hm_board.Adt.{Adt, adt_init}
use rtos_hm_board.Clksys.{Clksys, ClksysHardware, ClksysBits, enable_xtal}
use rtos_hm_board.Clock.{Timers, cleared}
use rtos_hm_board.TimerCounter.{TimerCounter, TcBits}
use rtos_hm_board.TimerCounter.Tc0
use rtos_hm_board.TimerCounter.Tc1
use rtos_hm_board.TwiMaster.{MasterBits}

-- The calls of the vendored code. A pin of the SPI port has its number and whether it is an
-- output, which then starts high; the ports are numbered from GEN and A to F, and the mask of their
-- clocks is always 0xff. A task has its stack.
pub data Call : Type 0 where
  ioport_init sysclk_init : Call
  ioport_configure_port_pin : ℕ → Bool → Call
  spi_master_init spi_enable : Call
  spi_master_setup_device : ℕ → Call
  sysclk_enable_module : ℕ → Call
  delay_us : ℕ → Call
  power_switch_output power_switch_high : Call
  csp_buffer_init : ℕ → ℕ → Call
  csp_init : ℕ → Call
  csp_i2c_init : ℕ → ℕ → ℕ → Call
  csp_route_set : ℕ → ℕ → Call
  csp_route_start_task : ℕ → ℕ → Call
  create_csp_task create_main_task : ℕ → Call
  start_scheduler : Call

-- The registers of the converter ADCA and of its channel 0, and PORTA.DIR.
pub record Adc : Type 0 where
  pub porta_dir : ℕ
  pub ctrla : ℕ
  pub ctrlb : ℕ
  pub refctrl : ℕ
  pub prescaler : ℕ
  pub evctrl : ℕ
  pub ch0_ctrl : ℕ
  pub ch0_muxctrl : ℕ
  pub ch0_intflags : ℕ

-- The codes of the compiler's device header.
pub record BootBits : Type 0 where
  pub adc_conmode : ℕ
  pub adc_resolution_12bit : ℕ
  pub adc_prescaler_div128 : ℕ
  pub adc_ch_inputmode_diff : ℕ
  pub adc_ch_muxpos_pin1 : ℕ
  pub adc_ch_muxneg_pin0 : ℕ
  pub adc_ch_start : ℕ
  pub adc_ch_chif : ℕ
  pub tc_clksel_div1 : ℕ
  pub tc_ovfintlvl_lo : ℕ
  pub tc_ovfintlvl_med : ℕ
  pub twi_master_intlvl_lo : ℕ

-- What `boardInit` sets up; `period_c1` and `period_d0` are PER of the two timers.
pub record Peripherals : Type 0 where
  pub clksys : Clksys
  pub adc : Adc
  pub adt : Adt
  pub tcc1 : TimerCounter
  pub tcd0 : TimerCounter
  pub period_c1 : ℕ
  pub period_d0 : ℕ
  pub timers : Timers
  pub calls : List Call

abbrev pub call : List Call → Peripherals → Peripherals
call cs s = record s { calls = s.calls ++ cs }

-- `spi_mem_init`
unfoldable pub spi_mem_init : List Call
spi_mem_init =
    ioport_configure_port_pin 4 true
    ∷ ioport_configure_port_pin 5 true
    ∷ ioport_configure_port_pin 6 false
    ∷ ioport_configure_port_pin 7 true
    ∷ spi_master_init
    ∷ spi_master_setup_device 2000000
    ∷ spi_enable
    ∷ []

module _ (b : BootBits) where
  -- The settings in `adc_init`, up to the delay.
  abbrev pub adc_settings : Adc → Adc
  adc_settings a = record a {
    porta_dir = 0;
    ctrla = bit_or a.ctrla 0x1;
    ctrlb = bit_or b.adc_conmode b.adc_resolution_12bit;
    refctrl = 0x12;
    prescaler = b.adc_prescaler_div128;
    ch0_ctrl = b.adc_ch_inputmode_diff;
    evctrl = 0x1a;
    ch0_muxctrl = bit_or b.adc_ch_muxpos_pin1 b.adc_ch_muxneg_pin0;
  }

  abbrev pub start_conversion : Adc → Adc
  start_conversion a = record a { ch0_ctrl = bit_or a.ch0_ctrl b.adc_ch_start }

  -- The loop that waits for the flag, on the values that INTFLAGS takes; if there are no more, it
  -- waits forever, which is `none`. The flag is then cleared by writing it.
  unfoldable pub wait_conversion : List ℕ → Adc → Option Adc
  wait_conversion [] a = none
  wait_conversion (flags ∷ rest) a =
      let later = wait_conversion rest a in
      if flags == 0 then later else some (record a { ch0_intflags = b.adc_ch_chif })

  -- `adc_init`
  unfoldable pub adc_init : List ℕ → Peripherals → Option Peripherals
  adc_init flags s =
      let s1 = call (delay_us 10 ∷ []) (record s { adc = adc_settings s.adc }) in
      elim (wait_conversion flags (start_conversion s1.adc)) [
        | none ↦ none
        | some adc ↦ some (record s1 { adc = adc })
      ]

module _ (b : BootBits) (mb : MasterBits) (hw : ClksysHardware) (cb : ClksysBits)
    (t0 t1 : TcBits) where
  -- The two timers and the counters of the uptime.
  abbrev pub set_timers : Peripherals → Peripherals
  set_timers s = record s {
    tcc1 =
        Tc1.set_overflow_int_level t1 b.tc_ovfintlvl_lo
          (Tc1.config_clock_source t1 b.tc_clksel_div1 s.tcc1);
    period_c1 = 16469;
    timers = cleared;
    tcd0 =
        Tc0.set_overflow_int_level t0 b.tc_ovfintlvl_med
          (Tc0.config_clock_source t0 b.tc_clksel_div1 s.tcd0);
    period_d0 = 8234;
  }

  -- From the ADC on, `boardInit` up to its end.
  abbrev pub finish : Peripherals → Peripherals
  finish s =
      call (power_switch_output ∷ power_switch_high ∷ [])
        (set_timers (record s { adt = adt_init mb b.twi_master_intlvl_lo s.adt }))

  abbrev pub module_calls : List Call
  module_calls =
      sysclk_enable_module 0
      ∷ sysclk_enable_module 1
      ∷ sysclk_enable_module 2
      ∷ sysclk_enable_module 3
      ∷ sysclk_enable_module 4
      ∷ sysclk_enable_module 5
      ∷ sysclk_enable_module 6
      ∷ []

  -- `boardInit`, on the values that OSC.STATUS and the flags of the converter take while it waits.
  unfoldable pub board_init : List ℕ → List ℕ → Peripherals → Option Peripherals
  board_init statuses flags s =
      let s1 = call (ioport_init ∷ sysclk_init ∷ []) s in
      elim (enable_xtal hw cb statuses s1.clksys) [
        | none ↦ none
        | some clksys ↦
            elim (adc_init b flags
              (call module_calls (call spi_mem_init (record s1 { clksys = clksys })))) [
                | none ↦ none
                | some s2 ↦ some (finish s2)
              ]
      ]

-- The calls of `main` after `boardInit`. The route goes over the I2C interface, and the two tasks have
-- the lowest priority.
abbrev pub network_calls : List Call
network_calls =
    csp_buffer_init csp_buffer_count csp_buffer_size
    ∷ csp_init csp_my_address
    ∷ csp_i2c_init csp_i2c_slave_address 0 csp_i2c_baudsetting
    ∷ csp_route_set csp_obc_address csp_i2c_obc_address
    ∷ csp_route_start_task csp_router_stack csp_router_priority
    ∷ create_csp_task 256
    ∷ create_main_task 512
    ∷ start_scheduler
    ∷ []

module _ (b : BootBits) (mb : MasterBits) (hw : ClksysHardware) (cb : ClksysBits)
    (t0 t1 : TcBits) where
  -- `main`, up to the start of the scheduler.
  unfoldable pub main : List ℕ → List ℕ → Peripherals → Option Peripherals
  main statuses flags s = elim (board_init b mb hw cb t0 t1 statuses flags s) [
    | none ↦ none
    | some s1 ↦ some (call network_calls s1)
  ]
