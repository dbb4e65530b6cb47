-- ===== src/TwiMaster/Phases.antt =====
-- The two phases of a transaction of the TWI master, interrupt by interrupt.
use rtos_hm_board.Prelude.{
  ◌+◌, ◌≤◌, ◌<◌, ◌≡◌, arith, List, [], ◌∷◌, ◌++◌, map, true, false, length, set, get_or, bit_or, ap,
  ap₂, ◌∙◌, sym, replicate, All,
}
use mathlib.Core.List.{append_assoc, append-nil}
use rtos_hm_board.TwiMaster.{
  TwiMaster, Registers, MasterBits, RegisterWrite, to_addr, to_data, to_ctrlc, ok, flag,
  write_handler, read_handler, interrupt, interrupts, twim_status_ready,
}
use rtos_hm_board.Prelude.Slices.{slice, put}

module _ (b : MasterBits) where
  -- An interrupt after a byte that the slave acknowledged.
  pub record IsAcknowledged (r : Registers) : Type 0 where
    pub kept_arbitration : flag r.status b.arblost ≡ false
    pub no_error : flag r.status b.buserr ≡ false
    pub write_flag : flag r.status b.wif ≡ true
    pub ack : flag r.status b.rxack ≡ false

  -- An interrupt after a byte that the slave sent.
  pub record IsReceived (r : Registers) : Type 0 where
    pub kept_arbitration : flag r.status b.arblost ≡ false
    pub no_error : flag r.status b.buserr ≡ false
    pub no_write_flag : flag r.status b.wif ≡ false
    pub read_flag : flag r.status b.rif ≡ true

  -- While bytes are left, each acknowledged interrupt sends the next one.
  send_byte :
      (r : Registers) (t : TwiMaster)
      → IsAcknowledged r
      → t.bytes_written < t.bytes_to_write
      → t.bytes_to_write ≤ 255
      → interrupt b r t ≡ record t {
        bytes_written = t.bytes_written + 1;
        log = t.log ++ (to_data (get_or t.write_data t.bytes_written 0) ∷ []);
      }
  unfolding interrupt write_handler
  send_byte r t a h k = ground (arith, a.kept_arbitration)

  pub send_bytes :
      (rs : List Registers) (t : TwiMaster)
      → All IsAcknowledged rs
      → t.bytes_written + length rs ≡ t.bytes_to_write
      → t.bytes_to_write ≤ 255
      → interrupts b rs t ≡ record t {
        bytes_written = t.bytes_to_write;
        log = t.log ++ map to_data (slice t.write_data t.bytes_written (length rs));
      }
  unfolding interrupts slice
  send_bytes [] t a e k =
      ap₂ (λ w l. record t { bytes_written = w; log = l }) same (sym (append-nil t.log))
    where
      same : t.bytes_written ≡ t.bytes_to_write
      same = omega arith
  send_bytes (r ∷ rs) t a e k =
      let sent : TwiMaster = record t {
        bytes_written = t.bytes_written + 1;
        log = t.log ++ (to_data (get_or t.write_data t.bytes_written 0) ∷ []);
      } in
      rw (send_byte r t a.0 (omega arith) k) (
        send_bytes rs sent a.1 (omega arith) k
        ∙ ap (λ l. record t { bytes_written = t.bytes_to_write; log = l }) (append_assoc t.log _ _))

  -- The acknowledgement of the last byte, with nothing to read: STOP.
  pub finish_writing :
      (r : Registers) (t : TwiMaster)
      → IsAcknowledged r
      → t.bytes_written ≡ t.bytes_to_write
      → t.bytes_to_read ≤ t.bytes_read
      → interrupt b r t ≡ record t {
        status = twim_status_ready;
        result = ok;
        log = t.log ++ (to_ctrlc b.cmd_stop ∷ []);
      }
  unfolding interrupt write_handler
  finish_writing r t a e k = ground (arith, a.kept_arbitration)

  -- The acknowledgement of the last byte, with bytes to read: a repeated START.
  pub turn_around :
      (r : Registers) (t : TwiMaster)
      → IsAcknowledged r
      → t.bytes_written ≡ t.bytes_to_write
      → t.bytes_read < t.bytes_to_read
      → interrupt b r t ≡ record t { log = t.log ++ (to_addr (bit_or t.address 0x01) ∷ []) }
  unfolding interrupt write_handler
  turn_around r t a e k = ground (arith, a.kept_arbitration)

  abbrev pub stop : RegisterWrite
  stop = to_ctrlc (bit_or b.ackact b.cmd_stop)

  receive_byte :
      (r : Registers) (t : TwiMaster)
      → IsReceived r
      → t.bytes_read + 1 < t.bytes_to_read
      → t.bytes_to_read ≤ 20
      → interrupt b r t ≡ record t {
        bytes_read = t.bytes_read + 1;
        read_data = set t.read_data t.bytes_read r.received;
        log = t.log ++ (to_ctrlc b.cmd_recvtrans ∷ []);
      }
  unfolding interrupt read_handler
  receive_byte r t a h k = ground (arith, a.kept_arbitration)

  receive_last :
      (r : Registers) (t : TwiMaster)
      → IsReceived r
      → t.bytes_read + 1 ≡ t.bytes_to_read
      → t.bytes_to_read ≤ 20
      → interrupt b r t ≡ record t {
        bytes_read = t.bytes_to_read;
        read_data = set t.read_data t.bytes_read r.received;
        status = twim_status_ready;
        result = ok;
        log = t.log ++ (stop ∷ []);
      }
  unfolding interrupt read_handler
  receive_last r t a h k = ground (arith, a.kept_arbitration)

  -- Each byte but the last is acknowledged; the last one is refused, and STOP follows.
  pub receive_bytes :
      (r : Registers) (rs : List Registers) (t : TwiMaster)
      → All IsReceived (r ∷ rs)
      → t.bytes_read + length (r ∷ rs) ≡ t.bytes_to_read
      → t.bytes_to_read ≤ 20
      → interrupts b (r ∷ rs) t ≡ record t {
        bytes_read = t.bytes_to_read;
        read_data = put t.read_data t.bytes_read (map (λ q. q.received) (r ∷ rs));
        status = twim_status_ready;
        result = ok;
        log = t.log ++ (replicate (length rs) (to_ctrlc b.cmd_recvtrans) ++ (stop ∷ []));
      }
  unfolding interrupts put
  receive_bytes r [] t a e k = receive_last r t a.0 e k
  receive_bytes r (q ∷ rs) t a e k =
      let got : TwiMaster = record t {
        bytes_read = t.bytes_read + 1;
        read_data = set t.read_data t.bytes_read r.received;
        log = t.log ++ (to_ctrlc b.cmd_recvtrans ∷ []);
      } in
      rw (receive_byte r t a.0 (omega arith) k) (
        receive_bytes q rs got a.1 (omega arith) k
        ∙ ap
            (λ l. record t {
              bytes_read = t.bytes_to_read;
              read_data = put t.read_data t.bytes_read (map (λ q. q.received) (r ∷ q ∷ rs));
              status = twim_status_ready;
              result = ok;
              log = l;
            })
            (append_assoc t.log _ _))
