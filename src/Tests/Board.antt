-- ===== src/Tests/Board.antt =====
-- The temperature sensor and the RTOS's timer on concrete registers.
use rtos_hm_board.Prelude.{
  ◌+◌, ◌*◌, ◌%◌, ◌^◌, ◌≡◌, refl, arith, [], ◌∷◌, ◌++◌, replicate, bit_or, get_or, inl, inr,
}
use rtos_hm_board.TwiMaster.{Registers, to_addr, to_data, to_ctrlc, twim_status_ready}
use rtos_hm_board.TwiMaster.Phases.{IsReceived, stop}
use rtos_hm_board.Adt.{Adt, adt_get_temperature}
use rtos_hm_board.Adt.Request.{adt_get_temperature_lem}
use rtos_hm_board.Adt.Silent.{adt_get_temperature_stale}
use rtos_hm_board.TimerCounter.{TimerCounter, TcBits}
use rtos_hm_board.Tests.Master.{bits, master, master-IsValid, acked, acked-IsAcknowledged}

abbrev pub adt : Adt
adt = record { master = master; buffer = replicate 8 0 }

-- 25 degrees.
abbrev high : Registers
high = record { status = 0xa2; received = 0x0c }

abbrev low : Registers
low = record { status = 0xa2; received = 0x80 }

high-IsReceived : IsReceived bits high
high-IsReceived = record {
  kept_arbitration = refl;
  no_error = refl;
  no_write_flag = refl;
  read_flag = refl;
}

low-IsReceived : IsReceived bits low
low-IsReceived = record {
  kept_arbitration = refl;
  no_error = refl;
  no_write_flag = refl;
  read_flag = refl;
}

adt_get_temperature_lem_example :
    let (temp, a') = adt_get_temperature bits (acked ∷ acked ∷ high ∷ low ∷ []) adt in
    (temp ≡ 0x0c * 2 ^ 8 + 0x80)
    × (a'.master.status ≡ twim_status_ready)
    × (a'.master.log
        ≡ []
          ++ (to_addr 0x90
              ∷ to_data 0
              ∷ to_addr 0x91
              ∷ to_ctrlc bits.cmd_recvtrans
              ∷ stop bits
              ∷ []))
adt_get_temperature_lem_example =
    adt_get_temperature_lem bits adt acked acked high low master-IsValid refl refl
      acked-IsAcknowledged acked-IsAcknowledged high-IsReceived low-IsReceived (omega arith)
      (omega arith)

-- The sensor does not acknowledge its address.
abbrev nack : Registers
nack = record { status = 0x72; received = 0 }

-- The sensor was at 25 degrees in an earlier request.
abbrev read_before : Adt
read_before = record adt { master = record master { read_data = 0x0c ∷ 0x80 ∷ replicate 18 0 } }

adt_get_temperature_stale_example :
    let (temp, a') = adt_get_temperature bits (nack ∷ []) read_before in
    let old = read_before.master.read_data in
    (temp ≡ bit_or (get_or old 0 0 * 2 ^ 8 % 2 ^ 16) (get_or old 1 0)) × (a'.master.read_data ≡ old)
adt_get_temperature_stale_example =
    adt_get_temperature_stale bits (nack ∷ []) read_before (inr (inr (inl refl)), tt)

abbrev pub tc_bits : TcBits
tc_bits = record {
  clksel = 0x0f;
  clksel_off = 0x00;
  wgmode = 0x07;
  evsel = 0x0f;
  evact = 0xe0;
  evact_capt = 0x20;
  channels = 0xf0;
  ovfintlvl = 0x03;
  errintlvl = 0x0c;
  ccaintlvl = 0x03;
  ccbintlvl = 0x0c;
  cccintlvl = 0x30;
  ccdintlvl = 0xc0;
  cmd_reset = 0x0c;
}

-- TCC0, at a 64th of the clock.
abbrev tcc0 : TimerCounter
tcc0 = record { ctrla = 0x05; ctrlb = 0; ctrld = 0; ctrlfset = 0; intctrla = 1; intctrlb = 0 }
