-- ===== src/Ra/Tbs/Low.antt =====
-- Rows 0 to 13 of `tbs_table` of srslte/lib/phch/tbs_tables.h: the transport block sizes for 1 to
-- 110 resource blocks.
use vbbu.Prelude.{ℕ, List, [], ◌∷◌}

abbrev pub tbs_0 : List ℕ
tbs_0 =
    16 ∷ 32 ∷ 56 ∷ 88 ∷ 120 ∷ 152 ∷ 176 ∷ 208 ∷ 224 ∷ 256 ∷ 288 ∷ 328 ∷ 344 ∷ 376 ∷ 392 ∷ 424 ∷ 456
    ∷ 488 ∷ 504 ∷ 536 ∷ 568 ∷ 600 ∷ 616 ∷ 648 ∷ 680 ∷ 712 ∷ 744 ∷ 776 ∷ 776 ∷ 808 ∷ 840 ∷ 872 ∷ 904
    ∷ 936 ∷ 968 ∷ 1000 ∷ 1032 ∷ 1032 ∷ 1064 ∷ 1096 ∷ 1128 ∷ 1160 ∷ 1192 ∷ 1224 ∷ 1256 ∷ 1256 ∷ 1288
    ∷ 1320 ∷ 1352 ∷ 1384 ∷ 1416 ∷ 1416 ∷ 1480 ∷ 1480 ∷ 1544 ∷ 1544 ∷ 1608 ∷ 1608 ∷ 1608 ∷ 1672
    ∷ 1672 ∷ 1736 ∷ 1736 ∷ 1800 ∷ 1800 ∷ 1800 ∷ 1864 ∷ 1864 ∷ 1928 ∷ 1928 ∷ 1992 ∷ 1992 ∷ 2024
    ∷ 2088 ∷ 2088 ∷ 2088 ∷ 2152 ∷ 2152 ∷ 2216 ∷ 2216 ∷ 2280 ∷ 2280 ∷ 2280 ∷ 2344 ∷ 2344 ∷ 2408
    ∷ 2408 ∷ 2472 ∷ 2472 ∷ 2536 ∷ 2536 ∷ 2536 ∷ 2600 ∷ 2600 ∷ 2664 ∷ 2664 ∷ 2728 ∷ 2728 ∷ 2728
    ∷ 2792 ∷ 2792 ∷ 2856 ∷ 2856 ∷ 2856 ∷ 2984 ∷ 2984 ∷ 2984 ∷ 2984 ∷ 2984 ∷ 3112 ∷ []

abbrev pub tbs_1 : List ℕ
tbs_1 =
    24 ∷ 56 ∷ 88 ∷ 144 ∷ 176 ∷ 208 ∷ 224 ∷ 256 ∷ 328 ∷ 344 ∷ 376 ∷ 424 ∷ 456 ∷ 488 ∷ 520 ∷ 568 ∷ 600
    ∷ 632 ∷ 680 ∷ 712 ∷ 744 ∷ 776 ∷ 808 ∷ 872 ∷ 904 ∷ 936 ∷ 968 ∷ 1000 ∷ 1032 ∷ 1064 ∷ 1128 ∷ 1160
    ∷ 1192 ∷ 1224 ∷ 1256 ∷ 1288 ∷ 1352 ∷ 1384 ∷ 1416 ∷ 1416 ∷ 1480 ∷ 1544 ∷ 1544 ∷ 1608 ∷ 1608
    ∷ 1672 ∷ 1736 ∷ 1736 ∷ 1800 ∷ 1800 ∷ 1864 ∷ 1864 ∷ 1928 ∷ 1992 ∷ 1992 ∷ 2024 ∷ 2088 ∷ 2088
    ∷ 2152 ∷ 2152 ∷ 2216 ∷ 2280 ∷ 2280 ∷ 2344 ∷ 2344 ∷ 2408 ∷ 2472 ∷ 2472 ∷ 2536 ∷ 2536 ∷ 2600
    ∷ 2600 ∷ 2664 ∷ 2728 ∷ 2728 ∷ 2792 ∷ 2792 ∷ 2856 ∷ 2856 ∷ 2856 ∷ 2984 ∷ 2984 ∷ 2984 ∷ 3112
    ∷ 3112 ∷ 3112 ∷ 3240 ∷ 3240 ∷ 3240 ∷ 3240 ∷ 3368 ∷ 3368 ∷ 3368 ∷ 3496 ∷ 3496 ∷ 3496 ∷ 3496
    ∷ 3624 ∷ 3624 ∷ 3624 ∷ 3752 ∷ 3752 ∷ 3752 ∷ 3752 ∷ 3880 ∷ 3880 ∷ 3880 ∷ 4008 ∷ 4008 ∷ 4008 ∷ []

abbrev pub tbs_2 : List ℕ
tbs_2 =
    32 ∷ 72 ∷ 144 ∷ 176 ∷ 208 ∷ 256 ∷ 296 ∷ 328 ∷ 376 ∷ 424 ∷ 472 ∷ 520 ∷ 568 ∷ 616 ∷ 648 ∷ 696
    ∷ 744 ∷ 776 ∷ 840 ∷ 872 ∷ 936 ∷ 968 ∷ 1000 ∷ 1064 ∷ 1096 ∷ 1160 ∷ 1192 ∷ 1256 ∷ 1288 ∷ 1320
    ∷ 1384 ∷ 1416 ∷ 1480 ∷ 1544 ∷ 1544 ∷ 1608 ∷ 1672 ∷ 1672 ∷ 1736 ∷ 1800 ∷ 1800 ∷ 1864 ∷ 1928
    ∷ 1992 ∷ 2024 ∷ 2088 ∷ 2088 ∷ 2152 ∷ 2216 ∷ 2216 ∷ 2280 ∷ 2344 ∷ 2344 ∷ 2408 ∷ 2472 ∷ 2536
    ∷ 2536 ∷ 2600 ∷ 2664 ∷ 2664 ∷ 2728 ∷ 2792 ∷ 2856 ∷ 2856 ∷ 2856 ∷ 2984 ∷ 2984 ∷ 3112 ∷ 3112
    ∷ 3112 ∷ 3240 ∷ 3240 ∷ 3240 ∷ 3368 ∷ 3368 ∷ 3368 ∷ 3496 ∷ 3496 ∷ 3496 ∷ 3624 ∷ 3624 ∷ 3624
    ∷ 3752 ∷ 3752 ∷ 3880 ∷ 3880 ∷ 3880 ∷ 4008 ∷ 4008 ∷ 4008 ∷ 4136 ∷ 4136 ∷ 4136 ∷ 4264 ∷ 4264
    ∷ 4264 ∷ 4392 ∷ 4392 ∷ 4392 ∷ 4584 ∷ 4584 ∷ 4584 ∷ 4584 ∷ 4584 ∷ 4776 ∷ 4776 ∷ 4776 ∷ 4776
    ∷ 4968 ∷ 4968 ∷ []

abbrev pub tbs_3 : List ℕ
tbs_3 =
    40 ∷ 104 ∷ 176 ∷ 208 ∷ 256 ∷ 328 ∷ 392 ∷ 440 ∷ 504 ∷ 568 ∷ 616 ∷ 680 ∷ 744 ∷ 808 ∷ 872 ∷ 904
    ∷ 968 ∷ 1032 ∷ 1096 ∷ 1160 ∷ 1224 ∷ 1256 ∷ 1320 ∷ 1384 ∷ 1416 ∷ 1480 ∷ 1544 ∷ 1608 ∷ 1672 ∷ 1736
    ∷ 1800 ∷ 1864 ∷ 1928 ∷ 1992 ∷ 2024 ∷ 2088 ∷ 2152 ∷ 2216 ∷ 2280 ∷ 2344 ∷ 2408 ∷ 2472 ∷ 2536
    ∷ 2536 ∷ 2600 ∷ 2664 ∷ 2728 ∷ 2792 ∷ 2856 ∷ 2856 ∷ 2984 ∷ 2984 ∷ 3112 ∷ 3112 ∷ 3240 ∷ 3240
    ∷ 3368 ∷ 3368 ∷ 3496 ∷ 3496 ∷ 3624 ∷ 3624 ∷ 3624 ∷ 3752 ∷ 3752 ∷ 3880 ∷ 3880 ∷ 4008 ∷ 4008
    ∷ 4136 ∷ 4136 ∷ 4264 ∷ 4264 ∷ 4392 ∷ 4392 ∷ 4392 ∷ 4584 ∷ 4584 ∷ 4584 ∷ 4776 ∷ 4776 ∷ 4776
    ∷ 4776 ∷ 4968 ∷ 4968 ∷ 4968 ∷ 5160 ∷ 5160 ∷ 5160 ∷ 5352 ∷ 5352 ∷ 5352 ∷ 5352 ∷ 5544 ∷ 5544
    ∷ 5544 ∷ 5736 ∷ 5736 ∷ 5736 ∷ 5736 ∷ 5992 ∷ 5992 ∷ 5992 ∷ 5992 ∷ 6200 ∷ 6200 ∷ 6200 ∷ 6200
    ∷ 6456 ∷ 6456 ∷ []

abbrev pub tbs_4 : List ℕ
tbs_4 =
    56 ∷ 120 ∷ 208 ∷ 256 ∷ 328 ∷ 408 ∷ 488 ∷ 552 ∷ 632 ∷ 696 ∷ 776 ∷ 840 ∷ 904 ∷ 1000 ∷ 1064 ∷ 1128
    ∷ 1192 ∷ 1288 ∷ 1352 ∷ 1416 ∷ 1480 ∷ 1544 ∷ 1608 ∷ 1736 ∷ 1800 ∷ 1864 ∷ 1928 ∷ 1992 ∷ 2088
    ∷ 2152 ∷ 2216 ∷ 2280 ∷ 2344 ∷ 2408 ∷ 2472 ∷ 2600 ∷ 2664 ∷ 2728 ∷ 2792 ∷ 2856 ∷ 2984 ∷ 2984
    ∷ 3112 ∷ 3112 ∷ 3240 ∷ 3240 ∷ 3368 ∷ 3496 ∷ 3496 ∷ 3624 ∷ 3624 ∷ 3752 ∷ 3752 ∷ 3880 ∷ 4008
    ∷ 4008 ∷ 4136 ∷ 4136 ∷ 4264 ∷ 4264 ∷ 4392 ∷ 4392 ∷ 4584 ∷ 4584 ∷ 4584 ∷ 4776 ∷ 4776 ∷ 4968
    ∷ 4968 ∷ 4968 ∷ 5160 ∷ 5160 ∷ 5160 ∷ 5352 ∷ 5352 ∷ 5544 ∷ 5544 ∷ 5544 ∷ 5736 ∷ 5736 ∷ 5736
    ∷ 5992 ∷ 5992 ∷ 5992 ∷ 5992 ∷ 6200 ∷ 6200 ∷ 6200 ∷ 6456 ∷ 6456 ∷ 6456 ∷ 6456 ∷ 6712 ∷ 6712
    ∷ 6712 ∷ 6968 ∷ 6968 ∷ 6968 ∷ 6968 ∷ 7224 ∷ 7224 ∷ 7224 ∷ 7480 ∷ 7480 ∷ 7480 ∷ 7480 ∷ 7736
    ∷ 7736 ∷ 7736 ∷ 7992 ∷ []

abbrev pub tbs_5 : List ℕ
tbs_5 =
    72 ∷ 144 ∷ 224 ∷ 328 ∷ 424 ∷ 504 ∷ 600 ∷ 680 ∷ 776 ∷ 872 ∷ 968 ∷ 1032 ∷ 1128 ∷ 1224 ∷ 1320
    ∷ 1384 ∷ 1480 ∷ 1544 ∷ 1672 ∷ 1736 ∷ 1864 ∷ 1928 ∷ 2024 ∷ 2088 ∷ 2216 ∷ 2280 ∷ 2344 ∷ 2472
    ∷ 2536 ∷ 2664 ∷ 2728 ∷ 2792 ∷ 2856 ∷ 2984 ∷ 3112 ∷ 3112 ∷ 3240 ∷ 3368 ∷ 3496 ∷ 3496 ∷ 3624
    ∷ 3752 ∷ 3752 ∷ 3880 ∷ 4008 ∷ 4008 ∷ 4136 ∷ 4264 ∷ 4392 ∷ 4392 ∷ 4584 ∷ 4584 ∷ 4776 ∷ 4776
    ∷ 4776 ∷ 4968 ∷ 4968 ∷ 5160 ∷ 5160 ∷ 5352 ∷ 5352 ∷ 5544 ∷ 5544 ∷ 5736 ∷ 5736 ∷ 5736 ∷ 5992
    ∷ 5992 ∷ 5992 ∷ 6200 ∷ 6200 ∷ 6200 ∷ 6456 ∷ 6456 ∷ 6712 ∷ 6712 ∷ 6712 ∷ 6968 ∷ 6968 ∷ 6968
    ∷ 7224 ∷ 7224 ∷ 7224 ∷ 7480 ∷ 7480 ∷ 7480 ∷ 7736 ∷ 7736 ∷ 7736 ∷ 7992 ∷ 7992 ∷ 7992 ∷ 8248
    ∷ 8248 ∷ 8248 ∷ 8504 ∷ 8504 ∷ 8760 ∷ 8760 ∷ 8760 ∷ 8760 ∷ 9144 ∷ 9144 ∷ 9144 ∷ 9144 ∷ 9528
    ∷ 9528 ∷ 9528 ∷ 9528 ∷ 9528 ∷ []

abbrev pub tbs_6 : List ℕ
tbs_6 =
    328 ∷ 176 ∷ 256 ∷ 392 ∷ 504 ∷ 600 ∷ 712 ∷ 808 ∷ 936 ∷ 1032 ∷ 1128 ∷ 1224 ∷ 1352 ∷ 1480 ∷ 1544
    ∷ 1672 ∷ 1736 ∷ 1864 ∷ 1992 ∷ 2088 ∷ 2216 ∷ 2280 ∷ 2408 ∷ 2472 ∷ 2600 ∷ 2728 ∷ 2792 ∷ 2984
    ∷ 2984 ∷ 3112 ∷ 3240 ∷ 3368 ∷ 3496 ∷ 3496 ∷ 3624 ∷ 3752 ∷ 3880 ∷ 4008 ∷ 4136 ∷ 4136 ∷ 4264
    ∷ 4392 ∷ 4584 ∷ 4584 ∷ 4776 ∷ 4776 ∷ 4968 ∷ 4968 ∷ 5160 ∷ 5160 ∷ 5352 ∷ 5352 ∷ 5544 ∷ 5736
    ∷ 5736 ∷ 5992 ∷ 5992 ∷ 5992 ∷ 6200 ∷ 6200 ∷ 6456 ∷ 6456 ∷ 6456 ∷ 6712 ∷ 6712 ∷ 6968 ∷ 6968
    ∷ 6968 ∷ 7224 ∷ 7224 ∷ 7480 ∷ 7480 ∷ 7736 ∷ 7736 ∷ 7736 ∷ 7992 ∷ 7992 ∷ 8248 ∷ 8248 ∷ 8248
    ∷ 8504 ∷ 8504 ∷ 8760 ∷ 8760 ∷ 8760 ∷ 9144 ∷ 9144 ∷ 9144 ∷ 9144 ∷ 9528 ∷ 9528 ∷ 9528 ∷ 9528
    ∷ 9912 ∷ 9912 ∷ 9912 ∷ 10296 ∷ 10296 ∷ 10296 ∷ 10296 ∷ 10680 ∷ 10680 ∷ 10680 ∷ 10680 ∷ 11064
    ∷ 11064 ∷ 11064 ∷ 11448 ∷ 11448 ∷ 11448 ∷ []

abbrev pub tbs_7 : List ℕ
tbs_7 =
    104 ∷ 224 ∷ 328 ∷ 472 ∷ 584 ∷ 712 ∷ 840 ∷ 968 ∷ 1096 ∷ 1224 ∷ 1320 ∷ 1480 ∷ 1608 ∷ 1672 ∷ 1800
    ∷ 1928 ∷ 2088 ∷ 2216 ∷ 2344 ∷ 2472 ∷ 2536 ∷ 2664 ∷ 2792 ∷ 2984 ∷ 3112 ∷ 3240 ∷ 3368 ∷ 3368
    ∷ 3496 ∷ 3624 ∷ 3752 ∷ 3880 ∷ 4008 ∷ 4136 ∷ 4264 ∷ 4392 ∷ 4584 ∷ 4584 ∷ 4776 ∷ 4968 ∷ 4968
    ∷ 5160 ∷ 5352 ∷ 5352 ∷ 5544 ∷ 5736 ∷ 5736 ∷ 5992 ∷ 5992 ∷ 6200 ∷ 6200 ∷ 6456 ∷ 6456 ∷ 6712
    ∷ 6712 ∷ 6712 ∷ 6968 ∷ 6968 ∷ 7224 ∷ 7224 ∷ 7480 ∷ 7480 ∷ 7736 ∷ 7736 ∷ 7992 ∷ 7992 ∷ 8248
    ∷ 8248 ∷ 8504 ∷ 8504 ∷ 8760 ∷ 8760 ∷ 8760 ∷ 9144 ∷ 9144 ∷ 9144 ∷ 9528 ∷ 9528 ∷ 9528 ∷ 9912
    ∷ 9912 ∷ 9912 ∷ 10296 ∷ 10296 ∷ 10296 ∷ 10680 ∷ 10680 ∷ 10680 ∷ 11064 ∷ 11064 ∷ 11064 ∷ 11448
    ∷ 11448 ∷ 11448 ∷ 11448 ∷ 11832 ∷ 11832 ∷ 11832 ∷ 12216 ∷ 12216 ∷ 12216 ∷ 12576 ∷ 12576 ∷ 12576
    ∷ 12960 ∷ 12960 ∷ 12960 ∷ 12960 ∷ 13536 ∷ 13536 ∷ []

abbrev pub tbs_8 : List ℕ
tbs_8 =
    120 ∷ 256 ∷ 392 ∷ 536 ∷ 680 ∷ 808 ∷ 968 ∷ 1096 ∷ 1256 ∷ 1384 ∷ 1544 ∷ 1672 ∷ 1800 ∷ 1928 ∷ 2088
    ∷ 2216 ∷ 2344 ∷ 2536 ∷ 2664 ∷ 2792 ∷ 2984 ∷ 3112 ∷ 3240 ∷ 3368 ∷ 3496 ∷ 3624 ∷ 3752 ∷ 3880
    ∷ 4008 ∷ 4264 ∷ 4392 ∷ 4584 ∷ 4584 ∷ 4776 ∷ 4968 ∷ 4968 ∷ 5160 ∷ 5352 ∷ 5544 ∷ 5544 ∷ 5736
    ∷ 5992 ∷ 5992 ∷ 6200 ∷ 6200 ∷ 6456 ∷ 6456 ∷ 6712 ∷ 6968 ∷ 6968 ∷ 7224 ∷ 7224 ∷ 7480 ∷ 7480
    ∷ 7736 ∷ 7736 ∷ 7992 ∷ 7992 ∷ 8248 ∷ 8504 ∷ 8504 ∷ 8760 ∷ 8760 ∷ 9144 ∷ 9144 ∷ 9144 ∷ 9528
    ∷ 9528 ∷ 9528 ∷ 9912 ∷ 9912 ∷ 9912 ∷ 10296 ∷ 10296 ∷ 10680 ∷ 10680 ∷ 10680 ∷ 11064 ∷ 11064
    ∷ 11064 ∷ 11448 ∷ 11448 ∷ 11448 ∷ 11832 ∷ 11832 ∷ 12216 ∷ 12216 ∷ 12216 ∷ 12576 ∷ 12576 ∷ 12576
    ∷ 12960 ∷ 12960 ∷ 12960 ∷ 13536 ∷ 13536 ∷ 13536 ∷ 13536 ∷ 14112 ∷ 14112 ∷ 14112 ∷ 14112 ∷ 14688
    ∷ 14688 ∷ 14688 ∷ 14688 ∷ 15264 ∷ 15264 ∷ 15264 ∷ 15264 ∷ []

abbrev pub tbs_9 : List ℕ
tbs_9 =
    136 ∷ 296 ∷ 456 ∷ 616 ∷ 776 ∷ 936 ∷ 1096 ∷ 1256 ∷ 1416 ∷ 1544 ∷ 1736 ∷ 1864 ∷ 2024 ∷ 2216 ∷ 2344
    ∷ 2536 ∷ 2664 ∷ 2856 ∷ 2984 ∷ 3112 ∷ 3368 ∷ 3496 ∷ 3624 ∷ 3752 ∷ 4008 ∷ 4136 ∷ 4264 ∷ 4392
    ∷ 4584 ∷ 4776 ∷ 4968 ∷ 5160 ∷ 5160 ∷ 5352 ∷ 5544 ∷ 5736 ∷ 5736 ∷ 5992 ∷ 6200 ∷ 6200 ∷ 6456
    ∷ 6712 ∷ 6712 ∷ 6968 ∷ 6968 ∷ 7224 ∷ 7480 ∷ 7480 ∷ 7736 ∷ 7992 ∷ 7992 ∷ 8248 ∷ 8248 ∷ 8504
    ∷ 8760 ∷ 8760 ∷ 9144 ∷ 9144 ∷ 9144 ∷ 9528 ∷ 9528 ∷ 9912 ∷ 9912 ∷ 10296 ∷ 10296 ∷ 10296 ∷ 10680
    ∷ 10680 ∷ 11064 ∷ 11064 ∷ 11064 ∷ 11448 ∷ 11448 ∷ 11832 ∷ 11832 ∷ 11832 ∷ 12216 ∷ 12216 ∷ 12576
    ∷ 12576 ∷ 12960 ∷ 12960 ∷ 12960 ∷ 13536 ∷ 13536 ∷ 13536 ∷ 13536 ∷ 14112 ∷ 14112 ∷ 14112 ∷ 14112
    ∷ 14688 ∷ 14688 ∷ 14688 ∷ 15264 ∷ 15264 ∷ 15264 ∷ 15264 ∷ 15840 ∷ 15840 ∷ 15840 ∷ 16416 ∷ 16416
    ∷ 16416 ∷ 16416 ∷ 16992 ∷ 16992 ∷ 16992 ∷ 16992 ∷ 17568 ∷ []

abbrev pub tbs_10 : List ℕ
tbs_10 =
    144 ∷ 328 ∷ 504 ∷ 680 ∷ 872 ∷ 1032 ∷ 1224 ∷ 1384 ∷ 1544 ∷ 1736 ∷ 1928 ∷ 2088 ∷ 2280 ∷ 2472
    ∷ 2664 ∷ 2792 ∷ 2984 ∷ 3112 ∷ 3368 ∷ 3496 ∷ 3752 ∷ 3880 ∷ 4008 ∷ 4264 ∷ 4392 ∷ 4584 ∷ 4776
    ∷ 4968 ∷ 5160 ∷ 5352 ∷ 5544 ∷ 5736 ∷ 5736 ∷ 5992 ∷ 6200 ∷ 6200 ∷ 6456 ∷ 6712 ∷ 6712 ∷ 6968
    ∷ 7224 ∷ 7480 ∷ 7480 ∷ 7736 ∷ 7992 ∷ 7992 ∷ 8248 ∷ 8504 ∷ 8504 ∷ 8760 ∷ 9144 ∷ 9144 ∷ 9144
    ∷ 9528 ∷ 9528 ∷ 9912 ∷ 9912 ∷ 10296 ∷ 10296 ∷ 10680 ∷ 10680 ∷ 11064 ∷ 11064 ∷ 11448 ∷ 11448
    ∷ 11448 ∷ 11832 ∷ 11832 ∷ 12216 ∷ 12216 ∷ 12576 ∷ 12576 ∷ 12960 ∷ 12960 ∷ 12960 ∷ 13536 ∷ 13536
    ∷ 13536 ∷ 14112 ∷ 14112 ∷ 14112 ∷ 14688 ∷ 14688 ∷ 14688 ∷ 14688 ∷ 15264 ∷ 15264 ∷ 15264 ∷ 15840
    ∷ 15840 ∷ 15840 ∷ 16416 ∷ 16416 ∷ 16416 ∷ 16992 ∷ 16992 ∷ 16992 ∷ 16992 ∷ 17568 ∷ 17568 ∷ 17568
    ∷ 18336 ∷ 18336 ∷ 18336 ∷ 18336 ∷ 18336 ∷ 19080 ∷ 19080 ∷ 19080 ∷ 19080 ∷ []

abbrev pub tbs_11 : List ℕ
tbs_11 =
    176 ∷ 376 ∷ 584 ∷ 776 ∷ 1000 ∷ 1192 ∷ 1384 ∷ 1608 ∷ 1800 ∷ 2024 ∷ 2216 ∷ 2408 ∷ 2600 ∷ 2792
    ∷ 2984 ∷ 3240 ∷ 3496 ∷ 3624 ∷ 3880 ∷ 4008 ∷ 4264 ∷ 4392 ∷ 4584 ∷ 4776 ∷ 4968 ∷ 5352 ∷ 5544
    ∷ 5736 ∷ 5992 ∷ 5992 ∷ 6200 ∷ 6456 ∷ 6712 ∷ 6968 ∷ 6968 ∷ 7224 ∷ 7480 ∷ 7736 ∷ 7736 ∷ 7992
    ∷ 8248 ∷ 8504 ∷ 8760 ∷ 8760 ∷ 9144 ∷ 9144 ∷ 9528 ∷ 9528 ∷ 9912 ∷ 9912 ∷ 10296 ∷ 10680 ∷ 10680
    ∷ 11064 ∷ 11064 ∷ 11448 ∷ 11448 ∷ 11832 ∷ 11832 ∷ 12216 ∷ 12216 ∷ 12576 ∷ 12576 ∷ 12960 ∷ 12960
    ∷ 13536 ∷ 13536 ∷ 13536 ∷ 14112 ∷ 14112 ∷ 14112 ∷ 14688 ∷ 14688 ∷ 14688 ∷ 15264 ∷ 15264 ∷ 15840
    ∷ 15840 ∷ 15840 ∷ 16416 ∷ 16416 ∷ 16416 ∷ 16992 ∷ 16992 ∷ 16992 ∷ 17568 ∷ 17568 ∷ 17568 ∷ 18336
    ∷ 18336 ∷ 18336 ∷ 18336 ∷ 19080 ∷ 19080 ∷ 19080 ∷ 19080 ∷ 19848 ∷ 19848 ∷ 19848 ∷ 19848 ∷ 20616
    ∷ 20616 ∷ 20616 ∷ 21384 ∷ 21384 ∷ 21384 ∷ 21384 ∷ 22152 ∷ 22152 ∷ 22152 ∷ []

abbrev pub tbs_12 : List ℕ
tbs_12 =
    208 ∷ 440 ∷ 680 ∷ 904 ∷ 1128 ∷ 1352 ∷ 1608 ∷ 1800 ∷ 2024 ∷ 2280 ∷ 2472 ∷ 2728 ∷ 2984 ∷ 3240
    ∷ 3368 ∷ 3624 ∷ 3880 ∷ 4136 ∷ 4392 ∷ 4584 ∷ 4776 ∷ 4968 ∷ 5352 ∷ 5544 ∷ 5736 ∷ 5992 ∷ 6200
    ∷ 6456 ∷ 6712 ∷ 6712 ∷ 6968 ∷ 7224 ∷ 7480 ∷ 7736 ∷ 7992 ∷ 8248 ∷ 8504 ∷ 8760 ∷ 8760 ∷ 9144
    ∷ 9528 ∷ 9528 ∷ 9912 ∷ 9912 ∷ 10296 ∷ 10680 ∷ 10680 ∷ 11064 ∷ 11064 ∷ 11448 ∷ 11832 ∷ 11832
    ∷ 12216 ∷ 12216 ∷ 12576 ∷ 12576 ∷ 12960 ∷ 12960 ∷ 13536 ∷ 13536 ∷ 14112 ∷ 14112 ∷ 14112 ∷ 14688
    ∷ 14688 ∷ 15264 ∷ 15264 ∷ 15264 ∷ 15840 ∷ 15840 ∷ 16416 ∷ 16416 ∷ 16416 ∷ 16992 ∷ 16992 ∷ 17568
    ∷ 17568 ∷ 17568 ∷ 18336 ∷ 18336 ∷ 18336 ∷ 19080 ∷ 19080 ∷ 19080 ∷ 19080 ∷ 19848 ∷ 19848 ∷ 19848
    ∷ 20616 ∷ 20616 ∷ 20616 ∷ 21384 ∷ 21384 ∷ 21384 ∷ 21384 ∷ 22152 ∷ 22152 ∷ 22152 ∷ 22920 ∷ 22920
    ∷ 22920 ∷ 23688 ∷ 23688 ∷ 23688 ∷ 23688 ∷ 24496 ∷ 24496 ∷ 24496 ∷ 24496 ∷ 25456 ∷ []

abbrev pub tbs_13 : List ℕ
tbs_13 =
    224 ∷ 488 ∷ 744 ∷ 1000 ∷ 1256 ∷ 1544 ∷ 1800 ∷ 2024 ∷ 2280 ∷ 2536 ∷ 2856 ∷ 3112 ∷ 3368 ∷ 3624
    ∷ 3880 ∷ 4136 ∷ 4392 ∷ 4584 ∷ 4968 ∷ 5160 ∷ 5352 ∷ 5736 ∷ 5992 ∷ 6200 ∷ 6456 ∷ 6712 ∷ 6968
    ∷ 7224 ∷ 7480 ∷ 7736 ∷ 7992 ∷ 8248 ∷ 8504 ∷ 8760 ∷ 9144 ∷ 9144 ∷ 9528 ∷ 9912 ∷ 9912 ∷ 10296
    ∷ 10680 ∷ 10680 ∷ 11064 ∷ 11448 ∷ 11448 ∷ 11832 ∷ 12216 ∷ 12216 ∷ 12576 ∷ 12960 ∷ 12960 ∷ 13536
    ∷ 13536 ∷ 14112 ∷ 14112 ∷ 14688 ∷ 14688 ∷ 14688 ∷ 15264 ∷ 15264 ∷ 15840 ∷ 15840 ∷ 16416 ∷ 16416
    ∷ 16992 ∷ 16992 ∷ 16992 ∷ 17568 ∷ 17568 ∷ 18336 ∷ 18336 ∷ 18336 ∷ 19080 ∷ 19080 ∷ 19080 ∷ 19848
    ∷ 19848 ∷ 19848 ∷ 20616 ∷ 20616 ∷ 20616 ∷ 21384 ∷ 21384 ∷ 21384 ∷ 22152 ∷ 22152 ∷ 22152 ∷ 22920
    ∷ 22920 ∷ 22920 ∷ 23688 ∷ 23688 ∷ 23688 ∷ 24496 ∷ 24496 ∷ 24496 ∷ 25456 ∷ 25456 ∷ 25456 ∷ 25456
    ∷ 26416 ∷ 26416 ∷ 26416 ∷ 26416 ∷ 27376 ∷ 27376 ∷ 27376 ∷ 27376 ∷ 28336 ∷ 28336 ∷ []
