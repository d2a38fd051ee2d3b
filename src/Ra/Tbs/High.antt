-- ===== src/Ra/Tbs/High.antt =====
-- Rows 14 to 26 of `tbs_table` of srslte/lib/phch/tbs_tables.h: the transport block sizes for 1 to
-- 110 resource blocks.
use vbbu.Prelude.{ℕ, List, [], ◌∷◌}

abbrev pub tbs_14 : List ℕ
tbs_14 =
    256 ∷ 552 ∷ 840 ∷ 1128 ∷ 1416 ∷ 1736 ∷ 1992 ∷ 2280 ∷ 2600 ∷ 2856 ∷ 3112 ∷ 3496 ∷ 3752 ∷ 4008
    ∷ 4264 ∷ 4584 ∷ 4968 ∷ 5160 ∷ 5544 ∷ 5736 ∷ 5992 ∷ 6200 ∷ 6456 ∷ 6968 ∷ 7224 ∷ 7480 ∷ 7736
    ∷ 7992 ∷ 8248 ∷ 8504 ∷ 8760 ∷ 9144 ∷ 9528 ∷ 9912 ∷ 9912 ∷ 10296 ∷ 10680 ∷ 11064 ∷ 11064 ∷ 11448
    ∷ 11832 ∷ 12216 ∷ 12216 ∷ 12576 ∷ 12960 ∷ 12960 ∷ 13536 ∷ 13536 ∷ 14112 ∷ 14112 ∷ 14688 ∷ 14688
    ∷ 15264 ∷ 15264 ∷ 15840 ∷ 15840 ∷ 16416 ∷ 16416 ∷ 16992 ∷ 16992 ∷ 17568 ∷ 17568 ∷ 18336 ∷ 18336
    ∷ 18336 ∷ 19080 ∷ 19080 ∷ 19848 ∷ 19848 ∷ 19848 ∷ 20616 ∷ 20616 ∷ 20616 ∷ 21384 ∷ 21384 ∷ 22152
    ∷ 22152 ∷ 22152 ∷ 22920 ∷ 22920 ∷ 22920 ∷ 23688 ∷ 23688 ∷ 24496 ∷ 24496 ∷ 24496 ∷ 25456 ∷ 25456
    ∷ 25456 ∷ 25456 ∷ 26416 ∷ 26416 ∷ 26416 ∷ 27376 ∷ 27376 ∷ 27376 ∷ 28336 ∷ 28336 ∷ 28336 ∷ 28336
    ∷ 29296 ∷ 29296 ∷ 29296 ∷ 29296 ∷ 30576 ∷ 30576 ∷ 30576 ∷ 30576 ∷ 31704 ∷ 31704 ∷ []

abbrev pub tbs_15 : List ℕ
tbs_15 =
    280 ∷ 600 ∷ 904 ∷ 1224 ∷ 1544 ∷ 1800 ∷ 2152 ∷ 2472 ∷ 2728 ∷ 3112 ∷ 3368 ∷ 3624 ∷ 4008 ∷ 4264
    ∷ 4584 ∷ 4968 ∷ 5160 ∷ 5544 ∷ 5736 ∷ 6200 ∷ 6456 ∷ 6712 ∷ 6968 ∷ 7224 ∷ 7736 ∷ 7992 ∷ 8248
    ∷ 8504 ∷ 8760 ∷ 9144 ∷ 9528 ∷ 9912 ∷ 10296 ∷ 10296 ∷ 10680 ∷ 11064 ∷ 11448 ∷ 11832 ∷ 11832
    ∷ 12216 ∷ 12576 ∷ 12960 ∷ 12960 ∷ 13536 ∷ 13536 ∷ 14112 ∷ 14688 ∷ 14688 ∷ 15264 ∷ 15264 ∷ 15840
    ∷ 15840 ∷ 16416 ∷ 16416 ∷ 16992 ∷ 16992 ∷ 17568 ∷ 17568 ∷ 18336 ∷ 18336 ∷ 18336 ∷ 19080 ∷ 19080
    ∷ 19848 ∷ 19848 ∷ 20616 ∷ 20616 ∷ 20616 ∷ 21384 ∷ 21384 ∷ 22152 ∷ 22152 ∷ 22152 ∷ 22920 ∷ 22920
    ∷ 23688 ∷ 23688 ∷ 23688 ∷ 24496 ∷ 24496 ∷ 24496 ∷ 25456 ∷ 25456 ∷ 25456 ∷ 26416 ∷ 26416 ∷ 26416
    ∷ 27376 ∷ 27376 ∷ 27376 ∷ 28336 ∷ 28336 ∷ 28336 ∷ 29296 ∷ 29296 ∷ 29296 ∷ 29296 ∷ 30576 ∷ 30576
    ∷ 30576 ∷ 30576 ∷ 31704 ∷ 31704 ∷ 31704 ∷ 31704 ∷ 32856 ∷ 32856 ∷ 32856 ∷ 34008 ∷ 34008 ∷ []

abbrev pub tbs_16 : List ℕ
tbs_16 =
    328 ∷ 632 ∷ 968 ∷ 1288 ∷ 1608 ∷ 1928 ∷ 2280 ∷ 2600 ∷ 2984 ∷ 3240 ∷ 3624 ∷ 3880 ∷ 4264 ∷ 4584
    ∷ 4968 ∷ 5160 ∷ 5544 ∷ 5992 ∷ 6200 ∷ 6456 ∷ 6712 ∷ 7224 ∷ 7480 ∷ 7736 ∷ 7992 ∷ 8504 ∷ 8760
    ∷ 9144 ∷ 9528 ∷ 9912 ∷ 9912 ∷ 10296 ∷ 10680 ∷ 11064 ∷ 11448 ∷ 11832 ∷ 12216 ∷ 12216 ∷ 12576
    ∷ 12960 ∷ 13536 ∷ 13536 ∷ 14112 ∷ 14112 ∷ 14688 ∷ 14688 ∷ 15264 ∷ 15840 ∷ 15840 ∷ 16416 ∷ 16416
    ∷ 16992 ∷ 16992 ∷ 17568 ∷ 17568 ∷ 18336 ∷ 18336 ∷ 19080 ∷ 19080 ∷ 19848 ∷ 19848 ∷ 19848 ∷ 20616
    ∷ 20616 ∷ 21384 ∷ 21384 ∷ 22152 ∷ 22152 ∷ 22152 ∷ 22920 ∷ 22920 ∷ 23688 ∷ 23688 ∷ 24496 ∷ 24496
    ∷ 24496 ∷ 25456 ∷ 25456 ∷ 25456 ∷ 26416 ∷ 26416 ∷ 26416 ∷ 27376 ∷ 27376 ∷ 27376 ∷ 28336 ∷ 28336
    ∷ 28336 ∷ 29296 ∷ 29296 ∷ 29296 ∷ 30576 ∷ 30576 ∷ 30576 ∷ 30576 ∷ 31704 ∷ 31704 ∷ 31704 ∷ 31704
    ∷ 32856 ∷ 32856 ∷ 32856 ∷ 34008 ∷ 34008 ∷ 34008 ∷ 34008 ∷ 35160 ∷ 35160 ∷ 35160 ∷ 35160 ∷ []

abbrev pub tbs_17 : List ℕ
tbs_17 =
    336 ∷ 696 ∷ 1064 ∷ 1416 ∷ 1800 ∷ 2152 ∷ 2536 ∷ 2856 ∷ 3240 ∷ 3624 ∷ 4008 ∷ 4392 ∷ 4776 ∷ 5160
    ∷ 5352 ∷ 5736 ∷ 6200 ∷ 6456 ∷ 6712 ∷ 7224 ∷ 7480 ∷ 7992 ∷ 8248 ∷ 8760 ∷ 9144 ∷ 9528 ∷ 9912
    ∷ 10296 ∷ 10296 ∷ 10680 ∷ 11064 ∷ 11448 ∷ 11832 ∷ 12216 ∷ 12576 ∷ 12960 ∷ 13536 ∷ 13536 ∷ 14112
    ∷ 14688 ∷ 14688 ∷ 15264 ∷ 15264 ∷ 15840 ∷ 16416 ∷ 16416 ∷ 16992 ∷ 17568 ∷ 17568 ∷ 18336 ∷ 18336
    ∷ 19080 ∷ 19080 ∷ 19848 ∷ 19848 ∷ 20616 ∷ 20616 ∷ 20616 ∷ 21384 ∷ 21384 ∷ 22152 ∷ 22152 ∷ 22920
    ∷ 22920 ∷ 23688 ∷ 23688 ∷ 24496 ∷ 24496 ∷ 24496 ∷ 25456 ∷ 25456 ∷ 26416 ∷ 26416 ∷ 26416 ∷ 27376
    ∷ 27376 ∷ 27376 ∷ 28336 ∷ 28336 ∷ 29296 ∷ 29296 ∷ 29296 ∷ 30576 ∷ 30576 ∷ 30576 ∷ 30576 ∷ 31704
    ∷ 31704 ∷ 31704 ∷ 32856 ∷ 32856 ∷ 32856 ∷ 34008 ∷ 34008 ∷ 34008 ∷ 35160 ∷ 35160 ∷ 35160 ∷ 35160
    ∷ 36696 ∷ 36696 ∷ 36696 ∷ 36696 ∷ 37888 ∷ 37888 ∷ 37888 ∷ 39232 ∷ 39232 ∷ 39232 ∷ 39232 ∷ []

abbrev pub tbs_18 : List ℕ
tbs_18 =
    376 ∷ 776 ∷ 1160 ∷ 1544 ∷ 1992 ∷ 2344 ∷ 2792 ∷ 3112 ∷ 3624 ∷ 4008 ∷ 4392 ∷ 4776 ∷ 5160 ∷ 5544
    ∷ 5992 ∷ 6200 ∷ 6712 ∷ 7224 ∷ 7480 ∷ 7992 ∷ 8248 ∷ 8760 ∷ 9144 ∷ 9528 ∷ 9912 ∷ 10296 ∷ 10680
    ∷ 11064 ∷ 11448 ∷ 11832 ∷ 12216 ∷ 12576 ∷ 12960 ∷ 13536 ∷ 14112 ∷ 14112 ∷ 14688 ∷ 15264 ∷ 15264
    ∷ 15840 ∷ 16416 ∷ 16416 ∷ 16992 ∷ 17568 ∷ 17568 ∷ 18336 ∷ 18336 ∷ 19080 ∷ 19080 ∷ 19848 ∷ 19848
    ∷ 20616 ∷ 21384 ∷ 21384 ∷ 22152 ∷ 22152 ∷ 22920 ∷ 22920 ∷ 23688 ∷ 23688 ∷ 24496 ∷ 24496 ∷ 24496
    ∷ 25456 ∷ 25456 ∷ 26416 ∷ 26416 ∷ 27376 ∷ 27376 ∷ 27376 ∷ 28336 ∷ 28336 ∷ 29296 ∷ 29296 ∷ 29296
    ∷ 30576 ∷ 30576 ∷ 30576 ∷ 31704 ∷ 31704 ∷ 31704 ∷ 32856 ∷ 32856 ∷ 32856 ∷ 34008 ∷ 34008 ∷ 34008
    ∷ 35160 ∷ 35160 ∷ 35160 ∷ 36696 ∷ 36696 ∷ 36696 ∷ 37888 ∷ 37888 ∷ 37888 ∷ 37888 ∷ 39232 ∷ 39232
    ∷ 39232 ∷ 40576 ∷ 40576 ∷ 40576 ∷ 40576 ∷ 42368 ∷ 42368 ∷ 42368 ∷ 42368 ∷ 43816 ∷ 43816 ∷ []

abbrev pub tbs_19 : List ℕ
tbs_19 =
    408 ∷ 840 ∷ 1288 ∷ 1736 ∷ 2152 ∷ 2600 ∷ 2984 ∷ 3496 ∷ 3880 ∷ 4264 ∷ 4776 ∷ 5160 ∷ 5544 ∷ 5992
    ∷ 6456 ∷ 6968 ∷ 7224 ∷ 7736 ∷ 8248 ∷ 8504 ∷ 9144 ∷ 9528 ∷ 9912 ∷ 10296 ∷ 10680 ∷ 11064 ∷ 11448
    ∷ 12216 ∷ 12576 ∷ 12960 ∷ 13536 ∷ 13536 ∷ 14112 ∷ 14688 ∷ 15264 ∷ 15264 ∷ 15840 ∷ 16416 ∷ 16992
    ∷ 16992 ∷ 17568 ∷ 18336 ∷ 18336 ∷ 19080 ∷ 19080 ∷ 19848 ∷ 20616 ∷ 20616 ∷ 21384 ∷ 21384 ∷ 22152
    ∷ 22152 ∷ 22920 ∷ 22920 ∷ 23688 ∷ 24496 ∷ 24496 ∷ 25456 ∷ 25456 ∷ 25456 ∷ 26416 ∷ 26416 ∷ 27376
    ∷ 27376 ∷ 28336 ∷ 28336 ∷ 29296 ∷ 29296 ∷ 29296 ∷ 30576 ∷ 30576 ∷ 30576 ∷ 31704 ∷ 31704 ∷ 32856
    ∷ 32856 ∷ 32856 ∷ 34008 ∷ 34008 ∷ 34008 ∷ 35160 ∷ 35160 ∷ 35160 ∷ 36696 ∷ 36696 ∷ 36696 ∷ 37888
    ∷ 37888 ∷ 37888 ∷ 39232 ∷ 39232 ∷ 39232 ∷ 40576 ∷ 40576 ∷ 40576 ∷ 40576 ∷ 42368 ∷ 42368 ∷ 42368
    ∷ 43816 ∷ 43816 ∷ 43816 ∷ 43816 ∷ 45352 ∷ 45352 ∷ 45352 ∷ 46888 ∷ 46888 ∷ 46888 ∷ 46888 ∷ []

abbrev pub tbs_20 : List ℕ
tbs_20 =
    440 ∷ 904 ∷ 1384 ∷ 1864 ∷ 2344 ∷ 2792 ∷ 3240 ∷ 3752 ∷ 4136 ∷ 4584 ∷ 5160 ∷ 5544 ∷ 5992 ∷ 6456
    ∷ 6968 ∷ 7480 ∷ 7992 ∷ 8248 ∷ 8760 ∷ 9144 ∷ 9912 ∷ 10296 ∷ 10680 ∷ 11064 ∷ 11448 ∷ 12216 ∷ 12576
    ∷ 12960 ∷ 13536 ∷ 14112 ∷ 14688 ∷ 14688 ∷ 15264 ∷ 15840 ∷ 16416 ∷ 16992 ∷ 16992 ∷ 17568 ∷ 18336
    ∷ 18336 ∷ 19080 ∷ 19848 ∷ 19848 ∷ 20616 ∷ 20616 ∷ 21384 ∷ 22152 ∷ 22152 ∷ 22920 ∷ 22920 ∷ 23688
    ∷ 24496 ∷ 24496 ∷ 25456 ∷ 25456 ∷ 26416 ∷ 26416 ∷ 27376 ∷ 27376 ∷ 28336 ∷ 28336 ∷ 29296 ∷ 29296
    ∷ 29296 ∷ 30576 ∷ 30576 ∷ 31704 ∷ 31704 ∷ 31704 ∷ 32856 ∷ 32856 ∷ 34008 ∷ 34008 ∷ 34008 ∷ 35160
    ∷ 35160 ∷ 35160 ∷ 36696 ∷ 36696 ∷ 36696 ∷ 37888 ∷ 37888 ∷ 39232 ∷ 39232 ∷ 39232 ∷ 40576 ∷ 40576
    ∷ 40576 ∷ 42368 ∷ 42368 ∷ 42368 ∷ 42368 ∷ 43816 ∷ 43816 ∷ 43816 ∷ 45352 ∷ 45352 ∷ 45352 ∷ 46888
    ∷ 46888 ∷ 46888 ∷ 46888 ∷ 48936 ∷ 48936 ∷ 48936 ∷ 48936 ∷ 48936 ∷ 51024 ∷ 51024 ∷ 51024 ∷ []

abbrev pub tbs_21 : List ℕ
tbs_21 =
    488 ∷ 1000 ∷ 1480 ∷ 1992 ∷ 2472 ∷ 2984 ∷ 3496 ∷ 4008 ∷ 4584 ∷ 4968 ∷ 5544 ∷ 5992 ∷ 6456 ∷ 6968
    ∷ 7480 ∷ 7992 ∷ 8504 ∷ 9144 ∷ 9528 ∷ 9912 ∷ 10680 ∷ 11064 ∷ 11448 ∷ 12216 ∷ 12576 ∷ 12960
    ∷ 13536 ∷ 14112 ∷ 14688 ∷ 15264 ∷ 15840 ∷ 15840 ∷ 16416 ∷ 16992 ∷ 17568 ∷ 18336 ∷ 18336 ∷ 19080
    ∷ 19848 ∷ 19848 ∷ 20616 ∷ 21384 ∷ 21384 ∷ 22152 ∷ 22920 ∷ 22920 ∷ 23688 ∷ 24496 ∷ 24496 ∷ 25456
    ∷ 25456 ∷ 26416 ∷ 26416 ∷ 27376 ∷ 27376 ∷ 28336 ∷ 28336 ∷ 29296 ∷ 29296 ∷ 30576 ∷ 30576 ∷ 31704
    ∷ 31704 ∷ 31704 ∷ 32856 ∷ 32856 ∷ 34008 ∷ 34008 ∷ 35160 ∷ 35160 ∷ 35160 ∷ 36696 ∷ 36696 ∷ 36696
    ∷ 37888 ∷ 37888 ∷ 39232 ∷ 39232 ∷ 39232 ∷ 40576 ∷ 40576 ∷ 40576 ∷ 42368 ∷ 42368 ∷ 42368 ∷ 43816
    ∷ 43816 ∷ 43816 ∷ 45352 ∷ 45352 ∷ 45352 ∷ 46888 ∷ 46888 ∷ 46888 ∷ 46888 ∷ 48936 ∷ 48936 ∷ 48936
    ∷ 48936 ∷ 51024 ∷ 51024 ∷ 51024 ∷ 51024 ∷ 52752 ∷ 52752 ∷ 52752 ∷ 52752 ∷ 55056 ∷ 55056 ∷ 55056
    ∷ []

abbrev pub tbs_22 : List ℕ
tbs_22 =
    520 ∷ 1064 ∷ 1608 ∷ 2152 ∷ 2664 ∷ 3240 ∷ 3752 ∷ 4264 ∷ 4776 ∷ 5352 ∷ 5992 ∷ 6456 ∷ 6968 ∷ 7480
    ∷ 7992 ∷ 8504 ∷ 9144 ∷ 9528 ∷ 10296 ∷ 10680 ∷ 11448 ∷ 11832 ∷ 12576 ∷ 12960 ∷ 13536 ∷ 14112
    ∷ 14688 ∷ 15264 ∷ 15840 ∷ 16416 ∷ 16992 ∷ 16992 ∷ 17568 ∷ 18336 ∷ 19080 ∷ 19080 ∷ 19848 ∷ 20616
    ∷ 21384 ∷ 21384 ∷ 22152 ∷ 22920 ∷ 22920 ∷ 23688 ∷ 24496 ∷ 24496 ∷ 25456 ∷ 25456 ∷ 26416 ∷ 27376
    ∷ 27376 ∷ 28336 ∷ 28336 ∷ 29296 ∷ 29296 ∷ 30576 ∷ 30576 ∷ 31704 ∷ 31704 ∷ 32856 ∷ 32856 ∷ 34008
    ∷ 34008 ∷ 34008 ∷ 35160 ∷ 35160 ∷ 36696 ∷ 36696 ∷ 36696 ∷ 37888 ∷ 37888 ∷ 39232 ∷ 39232 ∷ 40576
    ∷ 40576 ∷ 40576 ∷ 42368 ∷ 42368 ∷ 42368 ∷ 43816 ∷ 43816 ∷ 43816 ∷ 45352 ∷ 45352 ∷ 45352 ∷ 46888
    ∷ 46888 ∷ 46888 ∷ 48936 ∷ 48936 ∷ 48936 ∷ 48936 ∷ 51024 ∷ 51024 ∷ 51024 ∷ 51024 ∷ 52752 ∷ 52752
    ∷ 52752 ∷ 55056 ∷ 55056 ∷ 55056 ∷ 55056 ∷ 57336 ∷ 57336 ∷ 57336 ∷ 57336 ∷ 59256 ∷ 59256 ∷ 59256
    ∷ []

abbrev pub tbs_23 : List ℕ
tbs_23 =
    552 ∷ 1128 ∷ 1736 ∷ 2280 ∷ 2856 ∷ 3496 ∷ 4008 ∷ 4584 ∷ 5160 ∷ 5736 ∷ 6200 ∷ 6968 ∷ 7480 ∷ 7992
    ∷ 8504 ∷ 9144 ∷ 9912 ∷ 10296 ∷ 11064 ∷ 11448 ∷ 12216 ∷ 12576 ∷ 12960 ∷ 13536 ∷ 14112 ∷ 14688
    ∷ 15264 ∷ 15840 ∷ 16416 ∷ 16992 ∷ 17568 ∷ 18336 ∷ 19080 ∷ 19848 ∷ 19848 ∷ 20616 ∷ 21384 ∷ 22152
    ∷ 22152 ∷ 22920 ∷ 23688 ∷ 24496 ∷ 24496 ∷ 25456 ∷ 25456 ∷ 26416 ∷ 27376 ∷ 27376 ∷ 28336 ∷ 28336
    ∷ 29296 ∷ 29296 ∷ 30576 ∷ 30576 ∷ 31704 ∷ 31704 ∷ 32856 ∷ 32856 ∷ 34008 ∷ 34008 ∷ 35160 ∷ 35160
    ∷ 36696 ∷ 36696 ∷ 37888 ∷ 37888 ∷ 37888 ∷ 39232 ∷ 39232 ∷ 40576 ∷ 40576 ∷ 40576 ∷ 42368 ∷ 42368
    ∷ 43816 ∷ 43816 ∷ 43816 ∷ 45352 ∷ 45352 ∷ 45352 ∷ 46888 ∷ 46888 ∷ 46888 ∷ 48936 ∷ 48936 ∷ 48936
    ∷ 51024 ∷ 51024 ∷ 51024 ∷ 51024 ∷ 52752 ∷ 52752 ∷ 52752 ∷ 55056 ∷ 55056 ∷ 55056 ∷ 55056 ∷ 57336
    ∷ 57336 ∷ 57336 ∷ 57336 ∷ 59256 ∷ 59256 ∷ 59256 ∷ 59256 ∷ 61664 ∷ 61664 ∷ 61664 ∷ 61664 ∷ 63776
    ∷ []

abbrev pub tbs_24 : List ℕ
tbs_24 =
    584 ∷ 1192 ∷ 1800 ∷ 2408 ∷ 2984 ∷ 3624 ∷ 4264 ∷ 4968 ∷ 5544 ∷ 5992 ∷ 6712 ∷ 7224 ∷ 7992 ∷ 8504
    ∷ 9144 ∷ 9912 ∷ 10296 ∷ 11064 ∷ 11448 ∷ 12216 ∷ 12960 ∷ 13536 ∷ 14112 ∷ 14688 ∷ 15264 ∷ 15840
    ∷ 16416 ∷ 16992 ∷ 17568 ∷ 18336 ∷ 19080 ∷ 19848 ∷ 19848 ∷ 20616 ∷ 21384 ∷ 22152 ∷ 22920 ∷ 22920
    ∷ 23688 ∷ 24496 ∷ 25456 ∷ 25456 ∷ 26416 ∷ 26416 ∷ 27376 ∷ 28336 ∷ 28336 ∷ 29296 ∷ 29296 ∷ 30576
    ∷ 31704 ∷ 31704 ∷ 32856 ∷ 32856 ∷ 34008 ∷ 34008 ∷ 35160 ∷ 35160 ∷ 36696 ∷ 36696 ∷ 36696 ∷ 37888
    ∷ 37888 ∷ 39232 ∷ 39232 ∷ 40576 ∷ 40576 ∷ 42368 ∷ 42368 ∷ 42368 ∷ 43816 ∷ 43816 ∷ 45352 ∷ 45352
    ∷ 45352 ∷ 46888 ∷ 46888 ∷ 46888 ∷ 48936 ∷ 48936 ∷ 48936 ∷ 51024 ∷ 51024 ∷ 51024 ∷ 52752 ∷ 52752
    ∷ 52752 ∷ 52752 ∷ 55056 ∷ 55056 ∷ 55056 ∷ 57336 ∷ 57336 ∷ 57336 ∷ 57336 ∷ 59256 ∷ 59256 ∷ 59256
    ∷ 61664 ∷ 61664 ∷ 61664 ∷ 61664 ∷ 63776 ∷ 63776 ∷ 63776 ∷ 63776 ∷ 66592 ∷ 66592 ∷ 66592 ∷ 66592
    ∷ []

abbrev pub tbs_25 : List ℕ
tbs_25 =
    616 ∷ 1256 ∷ 1864 ∷ 2536 ∷ 3112 ∷ 3752 ∷ 4392 ∷ 5160 ∷ 5736 ∷ 6200 ∷ 6968 ∷ 7480 ∷ 8248 ∷ 8760
    ∷ 9528 ∷ 10296 ∷ 10680 ∷ 11448 ∷ 12216 ∷ 12576 ∷ 13536 ∷ 14112 ∷ 14688 ∷ 15264 ∷ 15840 ∷ 16416
    ∷ 16992 ∷ 17568 ∷ 18336 ∷ 19080 ∷ 19848 ∷ 20616 ∷ 20616 ∷ 21384 ∷ 22152 ∷ 22920 ∷ 23688 ∷ 24496
    ∷ 24496 ∷ 25456 ∷ 26416 ∷ 26416 ∷ 27376 ∷ 28336 ∷ 28336 ∷ 29296 ∷ 29296 ∷ 30576 ∷ 31704 ∷ 31704
    ∷ 32856 ∷ 32856 ∷ 34008 ∷ 34008 ∷ 35160 ∷ 35160 ∷ 36696 ∷ 36696 ∷ 37888 ∷ 37888 ∷ 39232 ∷ 39232
    ∷ 40576 ∷ 40576 ∷ 40576 ∷ 42368 ∷ 42368 ∷ 43816 ∷ 43816 ∷ 43816 ∷ 45352 ∷ 45352 ∷ 46888 ∷ 46888
    ∷ 46888 ∷ 48936 ∷ 48936 ∷ 48936 ∷ 51024 ∷ 51024 ∷ 51024 ∷ 52752 ∷ 52752 ∷ 52752 ∷ 55056 ∷ 55056
    ∷ 55056 ∷ 55056 ∷ 57336 ∷ 57336 ∷ 57336 ∷ 59256 ∷ 59256 ∷ 59256 ∷ 61664 ∷ 61664 ∷ 61664 ∷ 61664
    ∷ 63776 ∷ 63776 ∷ 63776 ∷ 63776 ∷ 66592 ∷ 66592 ∷ 66592 ∷ 66592 ∷ 68808 ∷ 68808 ∷ 68808 ∷ 71112
    ∷ []

abbrev pub tbs_26 : List ℕ
tbs_26 =
    712 ∷ 1480 ∷ 2216 ∷ 2984 ∷ 3752 ∷ 4392 ∷ 5160 ∷ 5992 ∷ 6712 ∷ 7480 ∷ 8248 ∷ 8760 ∷ 9528 ∷ 10296
    ∷ 11064 ∷ 11832 ∷ 12576 ∷ 13536 ∷ 14112 ∷ 14688 ∷ 15264 ∷ 16416 ∷ 16992 ∷ 17568 ∷ 18336 ∷ 19080
    ∷ 19848 ∷ 20616 ∷ 21384 ∷ 22152 ∷ 22920 ∷ 23688 ∷ 24496 ∷ 25456 ∷ 25456 ∷ 26416 ∷ 27376 ∷ 28336
    ∷ 29296 ∷ 29296 ∷ 30576 ∷ 30576 ∷ 31704 ∷ 32856 ∷ 32856 ∷ 34008 ∷ 35160 ∷ 35160 ∷ 36696 ∷ 36696
    ∷ 37888 ∷ 37888 ∷ 39232 ∷ 40576 ∷ 40576 ∷ 40576 ∷ 42368 ∷ 42368 ∷ 43816 ∷ 43816 ∷ 45352 ∷ 45352
    ∷ 46888 ∷ 46888 ∷ 48936 ∷ 48936 ∷ 48936 ∷ 51024 ∷ 51024 ∷ 52752 ∷ 52752 ∷ 52752 ∷ 55056 ∷ 55056
    ∷ 55056 ∷ 55056 ∷ 57336 ∷ 57336 ∷ 57336 ∷ 59256 ∷ 59256 ∷ 59256 ∷ 61664 ∷ 61664 ∷ 61664 ∷ 63776
    ∷ 63776 ∷ 63776 ∷ 66592 ∷ 66592 ∷ 66592 ∷ 68808 ∷ 68808 ∷ 68808 ∷ 71112 ∷ 71112 ∷ 71112 ∷ 73712
    ∷ 73712 ∷ 75376 ∷ 75376 ∷ 75376 ∷ 75376 ∷ 75376 ∷ 75376 ∷ 75376 ∷ 75376 ∷ 75376 ∷ 75376 ∷ 75376
    ∷ []
