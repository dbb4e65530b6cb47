-- ===== src/Fft/Sincos.antt =====
-- fft_memory.c: the table `sincos`, in millionths, as its two halves. Sines and cosines alternate.
use rtos_hm_board.Prelude.{ℕ, ◌-◌, List, [], ◌∷◌}
use rtos_hm_board.Prelude.Signed.{ℤ, pos, negsuc}

-- A negative entry of the table.
abbrev neg : ℕ → ℤ
neg n = negsuc (n - 1)

-- The angles from 0 to a quarter turn.
abbrev pub sincos_first : List ℤ
sincos_first =
    pos 0
    ∷ pos 1000000
    ∷ pos 12272
    ∷ pos 999925
    ∷ pos 24541
    ∷ pos 999699
    ∷ pos 36807
    ∷ pos 999322
    ∷ pos 49068
    ∷ pos 998795
    ∷ pos 61321
    ∷ pos 998118
    ∷ pos 73565
    ∷ pos 997290
    ∷ pos 85797
    ∷ pos 996313
    ∷ pos 98017
    ∷ pos 995185
    ∷ pos 110222
    ∷ pos 993907
    ∷ pos 122411
    ∷ pos 992480
    ∷ pos 134581
    ∷ pos 990903
    ∷ pos 146730
    ∷ pos 989177
    ∷ pos 158858
    ∷ pos 987301
    ∷ pos 170962
    ∷ pos 985278
    ∷ pos 183040
    ∷ pos 983105
    ∷ pos 195090
    ∷ pos 980785
    ∷ pos 207111
    ∷ pos 978317
    ∷ pos 219101
    ∷ pos 975702
    ∷ pos 231058
    ∷ pos 972940
    ∷ pos 242980
    ∷ pos 970031
    ∷ pos 254866
    ∷ pos 966976
    ∷ pos 266713
    ∷ pos 963776
    ∷ pos 278520
    ∷ pos 960431
    ∷ pos 290285
    ∷ pos 956940
    ∷ pos 302006
    ∷ pos 953306
    ∷ pos 313682
    ∷ pos 949528
    ∷ pos 325310
    ∷ pos 945607
    ∷ pos 336890
    ∷ pos 941544
    ∷ pos 348419
    ∷ pos 937339
    ∷ pos 359895
    ∷ pos 932993
    ∷ pos 371317
    ∷ pos 928506
    ∷ pos 382683
    ∷ pos 923880
    ∷ pos 393992
    ∷ pos 919114
    ∷ pos 405241
    ∷ pos 914210
    ∷ pos 416430
    ∷ pos 909168
    ∷ pos 427555
    ∷ pos 903989
    ∷ pos 438616
    ∷ pos 898674
    ∷ pos 449611
    ∷ pos 893224
    ∷ pos 460539
    ∷ pos 887640
    ∷ pos 471397
    ∷ pos 881921
    ∷ pos 482184
    ∷ pos 876070
    ∷ pos 492898
    ∷ pos 870087
    ∷ pos 503538
    ∷ pos 863973
    ∷ pos 514103
    ∷ pos 857729
    ∷ pos 524590
    ∷ pos 851355
    ∷ pos 534998
    ∷ pos 844854
    ∷ pos 545325
    ∷ pos 838225
    ∷ pos 555570
    ∷ pos 831470
    ∷ pos 565732
    ∷ pos 824589
    ∷ pos 575808
    ∷ pos 817585
    ∷ pos 585798
    ∷ pos 810457
    ∷ pos 595699
    ∷ pos 803208
    ∷ pos 605511
    ∷ pos 795837
    ∷ pos 615232
    ∷ pos 788346
    ∷ pos 624859
    ∷ pos 780737
    ∷ pos 634393
    ∷ pos 773010
    ∷ pos 643832
    ∷ pos 765167
    ∷ pos 653173
    ∷ pos 757209
    ∷ pos 662416
    ∷ pos 749136
    ∷ pos 671559
    ∷ pos 740951
    ∷ pos 680601
    ∷ pos 732654
    ∷ pos 689541
    ∷ pos 724247
    ∷ pos 698376
    ∷ pos 715731
    ∷ pos 707107
    ∷ pos 707107
    ∷ pos 715731
    ∷ pos 698376
    ∷ pos 724247
    ∷ pos 689541
    ∷ pos 732654
    ∷ pos 680601
    ∷ pos 740951
    ∷ pos 671559
    ∷ pos 749136
    ∷ pos 662416
    ∷ pos 757209
    ∷ pos 653173
    ∷ pos 765167
    ∷ pos 643832
    ∷ pos 773010
    ∷ pos 634393
    ∷ pos 780737
    ∷ pos 624859
    ∷ pos 788346
    ∷ pos 615232
    ∷ pos 795837
    ∷ pos 605511
    ∷ pos 803208
    ∷ pos 595699
    ∷ pos 810457
    ∷ pos 585798
    ∷ pos 817585
    ∷ pos 575808
    ∷ pos 824589
    ∷ pos 565732
    ∷ pos 831470
    ∷ pos 555570
    ∷ pos 838225
    ∷ pos 545325
    ∷ pos 844854
    ∷ pos 534998
    ∷ pos 851355
    ∷ pos 524590
    ∷ pos 857729
    ∷ pos 514103
    ∷ pos 863973
    ∷ pos 503538
    ∷ pos 870087
    ∷ pos 492898
    ∷ pos 876070
    ∷ pos 482184
    ∷ pos 881921
    ∷ pos 471397
    ∷ pos 887640
    ∷ pos 460539
    ∷ pos 893224
    ∷ pos 449611
    ∷ pos 898674
    ∷ pos 438616
    ∷ pos 903989
    ∷ pos 427555
    ∷ pos 909168
    ∷ pos 416430
    ∷ pos 914210
    ∷ pos 405241
    ∷ pos 919114
    ∷ pos 393992
    ∷ pos 923880
    ∷ pos 382683
    ∷ pos 928506
    ∷ pos 371317
    ∷ pos 932993
    ∷ pos 359895
    ∷ pos 937339
    ∷ pos 348419
    ∷ pos 941544
    ∷ pos 336890
    ∷ pos 945607
    ∷ pos 325310
    ∷ pos 949528
    ∷ pos 313682
    ∷ pos 953306
    ∷ pos 302006
    ∷ pos 956940
    ∷ pos 290285
    ∷ pos 960431
    ∷ pos 278520
    ∷ pos 963776
    ∷ pos 266713
    ∷ pos 966976
    ∷ pos 254866
    ∷ pos 970031
    ∷ pos 242980
    ∷ pos 972940
    ∷ pos 231058
    ∷ pos 975702
    ∷ pos 219101
    ∷ pos 978317
    ∷ pos 207111
    ∷ pos 980785
    ∷ pos 195090
    ∷ pos 983105
    ∷ pos 183040
    ∷ pos 985278
    ∷ pos 170962
    ∷ pos 987301
    ∷ pos 158858
    ∷ pos 989177
    ∷ pos 146730
    ∷ pos 990903
    ∷ pos 134581
    ∷ pos 992480
    ∷ pos 122411
    ∷ pos 993907
    ∷ pos 110222
    ∷ pos 995185
    ∷ pos 98017
    ∷ pos 996313
    ∷ pos 85797
    ∷ pos 997290
    ∷ pos 73565
    ∷ pos 998118
    ∷ pos 61321
    ∷ pos 998795
    ∷ pos 49068
    ∷ pos 999322
    ∷ pos 36807
    ∷ pos 999699
    ∷ pos 24541
    ∷ pos 999925
    ∷ pos 12272
    ∷ pos 1000000
    ∷ pos 0
    ∷ []

-- The angles from there to half a turn.
abbrev pub sincos_second : List ℤ
sincos_second =
    pos 999925
    ∷ neg 12272
    ∷ pos 999699
    ∷ neg 24541
    ∷ pos 999322
    ∷ neg 36807
    ∷ pos 998795
    ∷ neg 49068
    ∷ pos 998118
    ∷ neg 61321
    ∷ pos 997290
    ∷ neg 73565
    ∷ pos 996313
    ∷ neg 85797
    ∷ pos 995185
    ∷ neg 98017
    ∷ pos 993907
    ∷ neg 110222
    ∷ pos 992480
    ∷ neg 122411
    ∷ pos 990903
    ∷ neg 134581
    ∷ pos 989177
    ∷ neg 146730
    ∷ pos 987301
    ∷ neg 158858
    ∷ pos 985278
    ∷ neg 170962
    ∷ pos 983105
    ∷ neg 183040
    ∷ pos 980785
    ∷ neg 195090
    ∷ pos 978317
    ∷ neg 207111
    ∷ pos 975702
    ∷ neg 219101
    ∷ pos 972940
    ∷ neg 231058
    ∷ pos 970031
    ∷ neg 242980
    ∷ pos 966976
    ∷ neg 254866
    ∷ pos 963776
    ∷ neg 266713
    ∷ pos 960431
    ∷ neg 278520
    ∷ pos 956940
    ∷ neg 290285
    ∷ pos 953306
    ∷ neg 302006
    ∷ pos 949528
    ∷ neg 313682
    ∷ pos 945607
    ∷ neg 325310
    ∷ pos 941544
    ∷ neg 336890
    ∷ pos 937339
    ∷ neg 348419
    ∷ pos 932993
    ∷ neg 359895
    ∷ pos 928506
    ∷ neg 371317
    ∷ pos 923880
    ∷ neg 382683
    ∷ pos 919114
    ∷ neg 393992
    ∷ pos 914210
    ∷ neg 405241
    ∷ pos 909168
    ∷ neg 416430
    ∷ pos 903989
    ∷ neg 427555
    ∷ pos 898674
    ∷ neg 438616
    ∷ pos 893224
    ∷ neg 449611
    ∷ pos 887640
    ∷ neg 460539
    ∷ pos 881921
    ∷ neg 471397
    ∷ pos 876070
    ∷ neg 482184
    ∷ pos 870087
    ∷ neg 492898
    ∷ pos 863973
    ∷ neg 503538
    ∷ pos 857729
    ∷ neg 514103
    ∷ pos 851355
    ∷ neg 524590
    ∷ pos 844854
    ∷ neg 534998
    ∷ pos 838225
    ∷ neg 545325
    ∷ pos 831470
    ∷ neg 555570
    ∷ pos 824589
    ∷ neg 565732
    ∷ pos 817585
    ∷ neg 575808
    ∷ pos 810457
    ∷ neg 585798
    ∷ pos 803208
    ∷ neg 595699
    ∷ pos 795837
    ∷ neg 605511
    ∷ pos 788346
    ∷ neg 615232
    ∷ pos 780737
    ∷ neg 624859
    ∷ pos 773010
    ∷ neg 634393
    ∷ pos 765167
    ∷ neg 643832
    ∷ pos 757209
    ∷ neg 653173
    ∷ pos 749136
    ∷ neg 662416
    ∷ pos 740951
    ∷ neg 671559
    ∷ pos 732654
    ∷ neg 680601
    ∷ pos 724247
    ∷ neg 689541
    ∷ pos 715731
    ∷ neg 698376
    ∷ pos 707107
    ∷ neg 707107
    ∷ pos 698376
    ∷ neg 715731
    ∷ pos 689541
    ∷ neg 724247
    ∷ pos 680601
    ∷ neg 732654
    ∷ pos 671559
    ∷ neg 740951
    ∷ pos 662416
    ∷ neg 749136
    ∷ pos 653173
    ∷ neg 757209
    ∷ pos 643832
    ∷ neg 765167
    ∷ pos 634393
    ∷ neg 773010
    ∷ pos 624859
    ∷ neg 780737
    ∷ pos 615232
    ∷ neg 788346
    ∷ pos 605511
    ∷ neg 795837
    ∷ pos 595699
    ∷ neg 803208
    ∷ pos 585798
    ∷ neg 810457
    ∷ pos 575808
    ∷ neg 817585
    ∷ pos 565732
    ∷ neg 824589
    ∷ pos 555570
    ∷ neg 831470
    ∷ pos 545325
    ∷ neg 838225
    ∷ pos 534998
    ∷ neg 844854
    ∷ pos 524590
    ∷ neg 851355
    ∷ pos 514103
    ∷ neg 857729
    ∷ pos 503538
    ∷ neg 863973
    ∷ pos 492898
    ∷ neg 870087
    ∷ pos 482184
    ∷ neg 876070
    ∷ pos 471397
    ∷ neg 881921
    ∷ pos 460539
    ∷ neg 887640
    ∷ pos 449611
    ∷ neg 893224
    ∷ pos 438616
    ∷ neg 898674
    ∷ pos 427555
    ∷ neg 903989
    ∷ pos 416430
    ∷ neg 909168
    ∷ pos 405241
    ∷ neg 914210
    ∷ pos 393992
    ∷ neg 919114
    ∷ pos 382683
    ∷ neg 923880
    ∷ pos 371317
    ∷ neg 928506
    ∷ pos 359895
    ∷ neg 932993
    ∷ pos 348419
    ∷ neg 937339
    ∷ pos 336890
    ∷ neg 941544
    ∷ pos 325310
    ∷ neg 945607
    ∷ pos 313682
    ∷ neg 949528
    ∷ pos 302006
    ∷ neg 953306
    ∷ pos 290285
    ∷ neg 956940
    ∷ pos 278520
    ∷ neg 960431
    ∷ pos 266713
    ∷ neg 963776
    ∷ pos 254866
    ∷ neg 966976
    ∷ pos 242980
    ∷ neg 970031
    ∷ pos 231058
    ∷ neg 972940
    ∷ pos 219101
    ∷ neg 975702
    ∷ pos 207111
    ∷ neg 978317
    ∷ pos 195090
    ∷ neg 980785
    ∷ pos 183040
    ∷ neg 983105
    ∷ pos 170962
    ∷ neg 985278
    ∷ pos 158858
    ∷ neg 987301
    ∷ pos 146730
    ∷ neg 989177
    ∷ pos 134581
    ∷ neg 990903
    ∷ pos 122411
    ∷ neg 992480
    ∷ pos 110222
    ∷ neg 993907
    ∷ pos 98017
    ∷ neg 995185
    ∷ pos 85797
    ∷ neg 996313
    ∷ pos 73565
    ∷ neg 997290
    ∷ pos 61321
    ∷ neg 998118
    ∷ pos 49068
    ∷ neg 998795
    ∷ pos 36807
    ∷ neg 999322
    ∷ pos 24541
    ∷ neg 999699
    ∷ pos 12272
    ∷ neg 999925
    ∷ pos 0
    ∷ neg 1000000
    ∷ []
