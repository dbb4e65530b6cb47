-- ===== src/MainTask/Texts.antt =====
-- How long the texts of mainTask.c are, and the arrays they are printed to.
use rtos_hm_board.Prelude.{
  ℕ, ◌*◌, ◌/◌, ◌%◌, ◌^◌, ◌≤◌, ◌<◌, ◌≡◌, refl, arith, ltb, true, List, [], ◌∷◌, ◌++◌, length,
  length-append,
}
use rtos_hm_board.SpiMemory.{FloatOps, Complex}
use rtos_hm_board.Clock.{Timers}
use rtos_hm_board.Config.{no_points}
use rtos_hm_board.Text.{codes, print_int, divide16, remainder16}
use rtos_hm_board.Text.Decimal.{length-print_int, length-print_int_small}
use rtos_hm_board.MainTask.State.{done, sprintf}
use rtos_hm_board.MainTask.Messages.{
  signal_line, spectrum_line, temperature_text, house_keeping_text, hundredths, level,
}

two_numbers : (v w c : ℕ) → length (print_int v ++ (c ∷ (print_int w ++ (10 ∷ [])))) ≤ 14
two_numbers v w c = omega (
  arith,
  length-append (print_int v) (c ∷ (print_int w ++ (10 ∷ []))),
  length-append (print_int w) (10 ∷ []),
  length-print_int w,
  length-print_int v,
)

four :
    (a b c d : ℕ)
    → length (print_int b) ≤ 3
    → length (print_int d) ≤ 3
    → length (
        codes "*** Board\n\rSoftware v1.0\n\rUptime: "
        ++ (print_int a
            ++ (codes "d "
                ++ (print_int b
                    ++ (codes "h "
                        ++ (print_int c ++ (codes "m " ++ (print_int d ++ codes "s\n\r"))))))))
      < 64
four a b c d hb hd = omega (
  arith,
  length-append (print_int d) (codes "s\n\r"),
  length-append (print_int c) (codes "m " ++ (print_int d ++ codes "s\n\r")),
  length-append (print_int b)
      (codes "h " ++ (print_int c ++ (codes "m " ++ (print_int d ++ codes "s\n\r")))),
  length-append (print_int a) (
      codes "d "
      ++ (print_int b
          ++ (codes "h " ++ (print_int c ++ (codes "m " ++ (print_int d ++ codes "s\n\r")))))),
  length-print_int a,
  length-print_int c,
)

-- The texts fit into the arrays they are printed to.
pub signal_line_fits : (i w : ℕ) → length (signal_line i w) < 30
unfolding signal_line
signal_line_fits i w = omega (arith, two_numbers (i * 5 % 2 ^ 16) w b';')

pub sprintf-fits : (size : ℕ) (text : List ℕ) → length text < size → sprintf size text ≡ done text
unfolding sprintf
sprintf-fits size text h = let fits : ltb (length text) size ≡ true = ground arith in rw fits refl

pub spectrum_line_fits : (f : FloatOps) (i : ℕ) (c : Complex f) → length (spectrum_line f i c) < 30
unfolding spectrum_line
spectrum_line_fits f i c =
    omega (arith, two_numbers (i * 10000 / no_points % 2 ^ 16) (level f c) b';')

pub temperature_text_fits : (temp : ℕ) → length (temperature_text temp) < 20
unfolding temperature_text
temperature_text_fits temp = omega (arith, two_numbers (divide16 temp 128) (hundredths temp) b'.')

pub house_keeping_text_fits : (t : Timers) → length (house_keeping_text t) < 64
unfolding house_keeping_text
house_keeping_text_fits t =
    let hours = t.hours % 2 ^ 16 in
    let seconds = t.seconds % 2 ^ 16 in
    let part =
      four (divide16 hours 24) (remainder16 hours 24) (divide16 seconds 60)
        (remainder16 seconds 60) in
    part (length-print_int_small (remainder16 hours 24) (ground arith))
      (length-print_int_small (remainder16 seconds 60) (ground arith))
