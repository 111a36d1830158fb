-- ===== src/Splash/Second.antt =====
-- The second half of the strokes of src/splash.c, in their order.
use itmmorgue.Base.{List, [], ◌∷◌}
use itmmorgue.Splash.Macro.{Stroke, stroke}

abbrev pub second_strokes : List Stroke
second_strokes =
    stroke 4 13 "|" 8 72 "-"
    ∷ stroke 5 13 "|" 8 73 "-"
    ∷ stroke 6 13 "|" 7 74 "/"
    ∷ stroke 7 14 "\\" 6 74 "|"
    ∷ stroke 8 14 "-" 5 74 "|"
    ∷ stroke 8 13 "-" 4 74 "|"
    ∷ stroke 8 12 "-" 3 74 "|"
    ∷ stroke 8 11 "-" 2 74 "|"
    ∷ stroke 8 10 "-" 1 74 "\\"
    ∷ stroke 7 10 "/" 0 73 "-"
    ∷ stroke 6 11 "|" 0 74 "-"
    ∷ stroke 5 11 "|" 0 75 "-"
    ∷ stroke 4 11 "|" 0 76 "-"
    ∷ stroke 3 11 "|" 1 76 "|"
    ∷ stroke 2 11 "|" 2 76 "|"
    ∷ stroke 1 10 "\\" 3 76 "|"
    ∷ stroke 0 10 "-" 4 76 "|"
    ∷ stroke 0 11 "-" 5 76 "|"
    ∷ stroke 0 12 "-" 6 76 "|"
    ∷ stroke 0 13 "-" 7 76 "|"
    ∷ stroke 0 14 "-" 8 76 "-"
    ∷ stroke 0 15 "=" 8 77 "-"
    ∷ stroke 0 16 "-" 8 78 "-"
    ∷ stroke 0 17 "-" 8 79 "-"
    ∷ stroke 0 18 "-" 8 80 "-"
    ∷ stroke 0 19 "-" 8 81 "-"
    ∷ stroke 0 20 "-" 8 82 "-"
    ∷ stroke 0 21 "-" 7 82 "\\"
    ∷ stroke 0 22 "-" 6 81 "_"
    ∷ stroke 0 23 "=" 6 80 "_"
    ∷ stroke 0 24 "-" 6 79 "_"
    ∷ stroke 0 25 "-" 6 78 "|"
    ∷ stroke 1 26 "\\" 5 78 "|"
    ∷ stroke 2 27 "\\" 4 79 "_"
    ∷ stroke 2 28 "/" 4 80 "_"
    ∷ stroke 1 29 "/" 4 81 "|"
    ∷ stroke 0 30 "-" 3 80 "_"
    ∷ stroke 0 31 "-" 3 79 "_"
    ∷ stroke 0 32 "=" 3 78 "|"
    ∷ stroke 0 33 "-" 2 78 "|"
    ∷ stroke 0 34 "-" 1 79 "_"
    ∷ stroke 1 35 "\\" 1 80 "_"
    ∷ stroke 2 36 "\\" 1 81 "_"
    ∷ stroke 2 37 "/" 1 82 "/"
    ∷ stroke 1 38 "/" 0 82 "-"
    ∷ stroke 0 39 "-" 0 81 "-"
    ∷ stroke 0 40 "-" 0 80 "-"
    ∷ stroke 0 41 "=" 0 80 "-"
    ∷ stroke 0 42 "=" 0 79 "-"
    ∷ stroke 0 43 "=" 0 78 "-"
    ∷ stroke 1 42 "/" 0 77 "-"
    ∷ stroke 2 42 "|" 0 76 "-"
    ∷ stroke 3 42 "|" 0 75 "="
    ∷ stroke 4 42 "|" 0 74 "="
    ∷ stroke 4 43 "-" 0 74 "="
    ∷ stroke 5 44 "|" 0 73 "="
    ∷ stroke 6 44 "|" 1 72 "/"
    ∷ stroke 6 45 "_" 2 72 "|"
    ∷ stroke 6 46 "|" 3 72 "|"
    ∷ stroke 5 46 "|" 4 72 "|"
    ∷ stroke 4 46 "|" 5 72 "|"
    ∷ stroke 3 46 "|" 6 72 "|"
    ∷ stroke 2 46 "|" 6 71 "_"
    ∷ stroke 1 45 "_" 6 70 "|"
    ∷ stroke 2 44 "|" 5 70 "|"
    ∷ stroke 3 44 "|" 4 70 "|"
    ∷ stroke 4 44 "|" 3 70 "|"
    ∷ stroke 4 43 "=" 2 70 "|"
    ∷ stroke 5 42 "|" 1 70 "\\"
    ∷ stroke 6 42 "|" 0 69 "="
    ∷ stroke 7 42 "\\" 0 68 "="
    ∷ stroke 8 43 "-" 0 67 "="
    ∷ stroke 8 44 "-" 0 66 "="
    ∷ stroke 8 45 "-" 0 65 "-"
    ∷ stroke 8 46 "-" 0 64 "-"
    ∷ stroke 8 47 "-" 0 63 "-"
    ∷ stroke 7 48 "/" 0 62 "-"
    ∷ stroke 6 48 "|" 0 61 "-"
    ∷ stroke 5 48 "|" 0 60 "="
    ∷ stroke 4 48 "|" 0 59 "="
    ∷ stroke 3 48 "|" 0 58 "="
    ∷ stroke 2 48 "|" 0 57 "="
    ∷ stroke 1 48 "\\" 0 56 "="
    ∷ stroke 0 47 "-" 0 55 "-"
    ∷ stroke 0 46 "-" 0 54 "-"
    ∷ stroke 0 45 "-" 1 53 "/"
    ∷ stroke 0 44 "-" 1 52 "\\"
    ∷ stroke 0 44 "=" 0 51 "-"
    ∷ stroke 0 45 "=" 0 50 "="
    ∷ stroke 0 46 "=" 0 49 "="
    ∷ stroke 0 47 "@" 0 48 "@"
    ∷ []
