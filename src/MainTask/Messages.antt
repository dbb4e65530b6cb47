-- ===== src/MainTask/Messages.antt =====
-- The texts that the handlers of mainTask.c print.
use rtos_hm_board.Prelude.{ℕ, ◌-◌, ◌*◌, ◌/◌, ◌%◌, ◌^◌, ltb, if◌then◌else◌, List, [], ◌∷◌, ◌++◌}
use rtos_hm_board.Prelude.Signed.{pos, negsuc}
use rtos_hm_board.Config.{no_points}
use rtos_hm_board.SpiMemory.{FloatOps, Complex}
use rtos_hm_board.Clock.{Timers}
use rtos_hm_board.Text.{codes, print_int, divide16, remainder16}

-- `"%i;%d\n"` of `sendSignal`: the time of sample `i`, and its value.
unfoldable pub signal_line : ℕ → ℕ → List ℕ
signal_line i word = print_int (i * 5 % 2 ^ 16) ++ (b';' ∷ (print_int word ++ (10 ∷ [])))

-- The logarithm of the squared modulus, times 10.
abbrev pub level : (f : FloatOps) → Complex f → ℕ
level f point =
    let power = f.add (f.mul point.real point.real) (f.mul point.imag point.imag) in
    f.to_int (f.mul (f.log power) (f.of_int 10))

-- One line of the spectrum.
unfoldable pub spectrum_line : (f : FloatOps) → ℕ → Complex f → List ℕ
spectrum_line f i point =
    print_int (i * 10000 / no_points % 2 ^ 16) ++ (b';' ∷ (print_int (level f point) ++ (10 ∷ [])))

-- The hundredths of a degree: `(int)((((long)temp)*100)/128)%100`.
abbrev pub hundredths : ℕ → ℕ
hundredths temp =
    remainder16
      (if ltb temp (2 ^ 15)
        then temp * 100 / 128 % 2 ^ 16
        else (2 ^ 16 - (2 ^ 16 - temp) * 100 / 128) % 2 ^ 16)
      100

-- `"%i.%i\n"` of `sendFreeHeapSpace`.
unfoldable pub temperature_text : ℕ → List ℕ
temperature_text temp =
    print_int (divide16 temp 128) ++ (b'.' ∷ (print_int (hundredths temp) ++ (10 ∷ [])))

-- The text of the reply of `houseKeeping`. `(int16_t)` takes the low 16 bits of a counter.
unfoldable pub house_keeping_text : Timers → List ℕ
house_keeping_text t =
    let hours = t.hours % 2 ^ 16 in
    let seconds = t.seconds % 2 ^ 16 in
    codes "*** Board\n\rSoftware v1.0\n\rUptime: "
    ++ (print_int (divide16 hours 24)
        ++ (codes "d "
            ++ (print_int (remainder16 hours 24)
                ++ (codes "h "
                    ++ (print_int (divide16 seconds 60)
                        ++ (codes "m "
                            ++ (print_int (remainder16 seconds 60) ++ codes "s\n\r")))))))

-- The point that `houseKeeping` writes and reads back; what it compares goes into a local
-- variable that nothing reads, as does the conversion that follows.
abbrev pub test_point : (f : FloatOps) → Complex f
test_point f = record { real = f.of_micro (negsuc 3469999); imag = f.of_micro (pos 1876450000) }
