-- ===== src/CspInterface.antt =====
-- csp_interface.c: the I2C frames of the CSP library, carried by the two TWI drivers.
pub mod Frames
pub mod Overlong
pub mod EndToEnd
use rtos_hm_board.Prelude.{
  ◌-◌, ℕ, zero, suc, ◌+◌, ◌%◌, ◌^◌, ltb, if◌then◌else◌, Bool, true, false, List, [], ◌∷◌, ◌++◌, set,
  get_or,
}
use rtos_hm_board.TwiSlave
use rtos_hm_board.TwiSlave.{TwiSlave, SlaveBits, initialize_driver, initialize_module}
use rtos_hm_board.TwiMaster.{TwiMaster, MasterBits, master_write, master_init}

-- The fields of `i2c_frame_t` that the code sets or reads.
pub record Frame : Type 0 where
  pub dest : ℕ
  pub len : ℕ
  pub bytes : List ℕ

abbrev pub is_ok : TwiSlave.Result → Bool
is_ok TwiSlave.Result.ok = true
is_ok TwiSlave.Result.unknown = false
is_ok TwiSlave.Result.buffer_overflow = false
is_ok TwiSlave.Result.transmit_collision = false
is_ok TwiSlave.Result.bus_error = false
is_ok TwiSlave.Result.fail = false
is_ok TwiSlave.Result.aborted = false

-- The loop that copies the received bytes, with `n` rounds left at index `i`.
unfoldable pub copy_received : ℕ → ℕ → List ℕ → List ℕ → List ℕ
copy_received zero i from to = to
copy_received (suc n) i from to = copy_received n (i + 1) from (set to i (get_or from i 0))

-- `newFrame` before the call of the callback. It is a local variable that is not initialised:
-- `stack` is what it happens to hold.
unfoldable pub new_frame : Frame → TwiSlave (List Frame) → Frame
new_frame stack t =
    if ltb 0 t.bytes_received
    then record stack {
      len = t.bytes_received;
      bytes = copy_received t.bytes_received 0 t.received_data stack.bytes;
    }
    else stack

-- `TWI_CSP_SlaveProcessData`: the frames that `callbackFunction` has been called with so far.
unfoldable pub slave_process_data : Frame → TwiSlave (List Frame) → List Frame
unfolding new_frame
slave_process_data stack t = if is_ok t.result then t.env ++ (new_frame stack t ∷ []) else t.env

-- `E_NO_ERR` of libcsp, the `int` -1.
abbrev pub e_no_err : ℕ
e_no_err = 2 ^ 16 - 1

-- `i2c_send`: the length is cut to the byte that `TWI_MasterWrite` takes.
unfoldable pub i2c_send : Frame → TwiMaster → TwiMaster × ℕ
i2c_send frame t =
    let (t', accepted) = master_write frame.dest frame.bytes (frame.len % 2 ^ 8) t in
    (t', if accepted then e_no_err else 1)

-- `i2c_init`: the speed is cut to the byte that `TWI_MasterInit` takes. The two levels are those of
-- the device header; the callback is what `slave_process_data` calls.
unfoldable pub i2c_init :
    MasterBits
    → SlaveBits
    → ℕ
    → ℕ
    → ℕ
    → ℕ
    → TwiMaster × TwiSlave (List Frame)
    → TwiMaster × TwiSlave (List Frame)
i2c_init mb sb master_level slave_level address speed (master, slave) = (
  master_init mb master_level (speed % 2 ^ 8) master,
  initialize_module sb (λ t. t.env) address slave_level (initialize_driver slave),
)
