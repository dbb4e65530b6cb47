-- ===== src/Tests/Slave.antt =====
-- The TWI slave and the I2C frames on concrete transfers, with the bits of the XMEGA's registers.
use rtos_hm_board.Prelude.{◌≡◌, refl, arith, List, [], ◌∷◌, ◌++◌, replicate, false, map}
use rtos_hm_board.Prelude.Slices.{slice, put}
use rtos_hm_board.TwiMaster
use rtos_hm_board.TwiSlave.{
  TwiSlave, Registers, SlaveBits, ok, unknown, interrupts, twis_status_ready,
}
use rtos_hm_board.TwiSlave.Invariant.{IsValid, interrupts-IsValid_slave}
use rtos_hm_board.TwiSlave.Receive.{IsMatch, IsByte, IsStop}
use rtos_hm_board.CspInterface.{Frame, slave_process_data, i2c_send, e_no_err}
use rtos_hm_board.CspInterface.Frames.{receive_frame}
use rtos_hm_board.CspInterface.EndToEnd.{
  IsRequest, read_delivers_stack, i2c_send_delivers, sent_bytes,
}
use rtos_hm_board.Tests.Master

abbrev pub bits : SlaveBits
bits = record {
  dien = 0x20;
  apien = 0x10;
  enable = 0x08;
  pien = 0x04;
  buserr = 0x04;
  coll = 0x08;
  apif = 0x40;
  ap = 0x01;
  dif = 0x80;
  dir = 0x02;
  rxack = 0x10;
  cmd_comptrans = 0x02;
  cmd_response = 0x03;
  ackact = 0x04;
}

-- What the local frame of the callback happens to hold.
abbrev pub stack : Frame
stack = record { dest = 3; len = 99; bytes = replicate 255 1 }

abbrev pub slave : TwiSlave (List Frame)
slave = record {
  received_data = replicate 72 0;
  send_data = 0 ∷ [];
  bytes_received = 0;
  bytes_sent = 0;
  status = 0;
  result = unknown;
  abort = false;
  ctrla = 0x38;
  log = [];
  env = [];
}

pub slave-IsValid : IsValid slave
slave-IsValid = record {
  receive_size = refl;
  send_size = refl;
  received_in = omega arith;
  sent_in = omega arith;
}

-- The slave is addressed; it gets 7, and 9; the transfer ends; the master asks for a byte, and
-- for no more.
abbrev pub matched : Registers
matched = record { status = 0x61; received = 84 }

abbrev pub seven : Registers
seven = record { status = 0xa0; received = 7 }

abbrev pub nine : Registers
nine = record { status = 0xa0; received = 9 }

abbrev pub ended : Registers
ended = record { status = 0x40; received = 0 }

abbrev asked : Registers
asked = record { status = 0xa2; received = 0 }

abbrev refused : Registers
refused = record { status = 0xb2; received = 0 }

pub matched-IsMatch : IsMatch bits matched
matched-IsMatch = record {
  no_error = refl;
  no_collision = refl;
  address_or_stop = refl;
  address = refl;
}

pub seven-IsByte : IsByte bits seven
seven-IsByte = record {
  no_error = refl;
  no_collision = refl;
  no_address = refl;
  byte = refl;
  from_master = refl;
}

pub nine-IsByte : IsByte bits nine
nine-IsByte = record {
  no_error = refl;
  no_collision = refl;
  no_address = refl;
  byte = refl;
  from_master = refl;
}

pub ended-IsStop : IsStop bits ended
ended-IsStop = record { no_error = refl; no_collision = refl; address_or_stop = refl; stop = refl }

asked-IsRequest : IsRequest bits asked
asked-IsRequest = record {
  no_error = refl;
  no_collision = refl;
  no_address = refl;
  byte = refl;
  to_master = refl;
}

refused-IsRequest : IsRequest bits refused
refused-IsRequest = record {
  no_error = refl;
  no_collision = refl;
  no_address = refl;
  byte = refl;
  to_master = refl;
}

interrupts-IsValid_slave_example :
    IsValid
      (interrupts bits (slave_process_data stack) (matched ∷ seven ∷ asked ∷ asked ∷ []) slave)
interrupts-IsValid_slave_example =
    interrupts-IsValid_slave bits (slave_process_data stack) (matched ∷ seven ∷ asked ∷ asked ∷ [])
      slave-IsValid

receive_frame_example :
    let t' =
      interrupts bits (slave_process_data stack) (matched ∷ seven ∷ nine ∷ ended ∷ []) slave in
    (t'.env ≡ [] ++ (record stack { len = 2; bytes = put stack.bytes 0 (7 ∷ 9 ∷ []) } ∷ []))
    × (t'.status ≡ twis_status_ready)
    × (t'.result ≡ ok)
    × (slice (put stack.bytes 0 (7 ∷ 9 ∷ [])) 0 2 ≡ 7 ∷ 9 ∷ [])
receive_frame_example =
    receive_frame bits stack slave-IsValid refl matched (seven ∷ nine ∷ []) ended (omega arith)
      (omega arith) refl matched-IsMatch (seven-IsByte, (nine-IsByte, tt)) ended-IsStop

abbrev frame : Frame
frame = record { dest = 42; len = 2; bytes = 7 ∷ 9 ∷ 11 ∷ [] }

on_the_bus :
    map (λ (q : Registers). q.received) (seven ∷ nine ∷ [])
    ≡ sent_bytes
        (TwiMaster.interrupts Master.bits
          (Master.acked ∷ Master.acked ∷ Master.acked ∷ [])
          (i2c_send frame Master.master).0).log
unfolding i2c_send TwiMaster.master_write TwiMaster.write_read TwiMaster.start TwiMaster.copy
    TwiMaster.interrupts TwiMaster.interrupt TwiMaster.write_handler sent_bytes
on_the_bus = refl

i2c_send_delivers_example :
    let acks = Master.acked ∷ Master.acked ∷ [] in
    ((i2c_send frame Master.master).1 ≡ e_no_err)
    × ((TwiMaster.interrupts Master.bits
          (acks ++ (Master.acked ∷ []))
          (i2c_send frame Master.master).0).status
        ≡ TwiMaster.twim_status_ready)
    × ((interrupts bits (slave_process_data stack) (matched ∷ seven ∷ nine ∷ ended ∷ []) slave).env
        ≡ [] ++ (record stack { len = 2; bytes = put stack.bytes 0 (slice frame.bytes 0 2) } ∷ []))
i2c_send_delivers_example =
    i2c_send_delivers Master.bits bits frame stack Master.master-IsValid slave-IsValid
      (Master.acked ∷ Master.acked ∷ []) Master.acked matched (seven ∷ nine ∷ []) ended refl refl
      (omega arith) (omega arith) (omega arith) (omega arith)
      (Master.acked-IsAcknowledged, (Master.acked-IsAcknowledged, tt)) Master.acked-IsAcknowledged
      refl refl refl matched-IsMatch (seven-IsByte, (nine-IsByte, tt)) ended-IsStop on_the_bus

read_delivers_stack_example :
    (interrupts bits (slave_process_data stack) (matched ∷ asked ∷ refused ∷ []) slave).env
    ≡ [] ++ (stack ∷ [])
read_delivers_stack_example =
    read_delivers_stack bits stack slave matched asked refused refl matched-IsMatch asked-IsRequest
      refused-IsRequest refl
