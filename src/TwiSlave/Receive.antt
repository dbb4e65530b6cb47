-- ===== src/TwiSlave/Receive.antt =====
-- A transfer to the TWI slave, interrupt by interrupt.
use rtos_hm_board.Prelude.{
  ℕ, zero, suc, ◌+◌, ◌≤◌, ◌<◌, ◌≡◌, arith, List, [], ◌∷◌, ◌++◌, map, true, false, length, set,
  bit_and, bit_or, ap₂, ◌∙◌, sym, replicate, All,
}
use mathlib.Core.List.{append_assoc, append-nil}
use rtos_hm_board.Prelude.Slices.{put}
use rtos_hm_board.TwiSlave.{
  TwiSlave, Registers, SlaveBits, to_ctrlb, to_status, ok, unknown, flag, address_match_handler,
  stop_handler, data_handler, interrupt, interrupts, twis_status_ready, twis_status_busy,
  complement,
}

module _ (b : SlaveBits) where
  -- The slave is addressed.
  pub record IsMatch (r : Registers) : Type 0 where
    pub no_error : flag r.status b.buserr ≡ false
    pub no_collision : flag r.status b.coll ≡ false
    pub address_or_stop : flag r.status b.apif ≡ true
    pub address : flag r.status b.ap ≡ true

  -- A byte has come from the master.
  pub record IsByte (r : Registers) : Type 0 where
    pub no_error : flag r.status b.buserr ≡ false
    pub no_collision : flag r.status b.coll ≡ false
    pub no_address : flag r.status b.apif ≡ false
    pub byte : flag r.status b.dif ≡ true
    pub from_master : flag r.status b.dir ≡ false

  -- The master has ended the transfer.
  pub record IsStop (r : Registers) : Type 0 where
    pub no_error : flag r.status b.buserr ≡ false
    pub no_collision : flag r.status b.coll ≡ false
    pub address_or_stop : flag r.status b.apif ≡ true
    pub stop : flag r.status b.ap ≡ false

  module _ {E : Type 0} (process_data : TwiSlave E → E) where
    pub addressed :
        (r : Registers) (t : TwiSlave E)
        → IsMatch r
        → t.abort ≡ false
        → interrupt b process_data r t ≡ record t {
          status = twis_status_busy;
          result = unknown;
          ctrla = bit_and t.ctrla (complement b.pien);
          bytes_received = 0;
          bytes_sent = 0;
          log = t.log ++ (to_ctrlb b.cmd_response ∷ []);
        }
    unfolding interrupt address_match_handler
    addressed r t m a = ground (arith, m.no_error)

    receive_byte :
        (r : Registers) (t : TwiSlave E)
        → IsByte r
        → t.abort ≡ false
        → t.bytes_received < 72
        → interrupt b process_data r t ≡ record t {
          ctrla = bit_or t.ctrla b.pien;
          received_data = set t.received_data t.bytes_received r.received;
          bytes_received = t.bytes_received + 1;
          log = t.log ++ (to_ctrlb b.cmd_response ∷ []);
        }
    unfolding interrupt data_handler
    receive_byte r t m a k = ground (arith, m.no_error)

    -- The control register after `n` bytes.
    abbrev pub enabled : ℕ → ℕ → ℕ
    enabled zero c = c
    enabled (suc n) c = enabled n (bit_or c b.pien)

    pub receive_bytes :
        (rs : List Registers) (t : TwiSlave E)
        → All IsByte rs
        → t.abort ≡ false
        → t.bytes_received + length rs ≤ 72
        → interrupts b process_data rs t ≡ record t {
          ctrla = enabled (length rs) t.ctrla;
          received_data = put t.received_data t.bytes_received (map (λ q. q.received) rs);
          bytes_received = t.bytes_received + length rs;
          log = t.log ++ replicate (length rs) (to_ctrlb b.cmd_response);
        }
    unfolding interrupts put
    receive_bytes [] t m a k =
        ap₂ (λ n l. record t { bytes_received = n; log = l }) same (sym (append-nil t.log))
      where
        same : t.bytes_received ≡ t.bytes_received + 0
        same = omega arith
    receive_bytes (r ∷ rs) t m a k =
        let got : TwiSlave E = record t {
          ctrla = bit_or t.ctrla b.pien;
          received_data = set t.received_data t.bytes_received r.received;
          bytes_received = t.bytes_received + 1;
          log = t.log ++ (to_ctrlb b.cmd_response ∷ []);
        } in
        rw (receive_byte r t m.0 a (omega arith)) (
          receive_bytes rs got m.1 a (omega arith)
          ∙ ap₂
              (λ n l. record t {
                ctrla = enabled (length rs) (bit_or t.ctrla b.pien);
                received_data =
                    put t.received_data t.bytes_received (map (λ q. q.received) (r ∷ rs));
                bytes_received = n;
                log = l;
              })
              (omega arith) (append_assoc t.log _ _))

    abbrev pub stopped : Registers → TwiSlave E → TwiSlave E
    stopped r t = record t {
      result = ok;
      status = twis_status_ready;
      ctrla = bit_and t.ctrla (complement b.pien);
      log = t.log ++ (to_status (bit_or r.status b.apif) ∷ []);
    }

    pub ended :
        (r : Registers) (t : TwiSlave E)
        → IsStop r
        → interrupt b process_data r t ≡ record (stopped r t) { env = process_data (stopped r t) }
    unfolding interrupt stop_handler
    ended r t m = ground (arith, m.no_error)
