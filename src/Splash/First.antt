-- ===== src/Splash/First.antt =====
-- The first half of the strokes of src/splash.c, in their order.
use itmmorgue.Base.{List, [], ◌∷◌}
use itmmorgue.Splash.Macro.{Stroke, stroke}

abbrev pub first_strokes : List Stroke
first_strokes =
    stroke 0 43 "-" 0 48 "-"
    ∷ stroke 0 42 "-" 0 49 "-"
    ∷ stroke 0 41 "-" 0 50 "-"
    ∷ stroke 0 40 "-" 1 50 "|"
    ∷ stroke 1 40 "|" 2 50 "|"
    ∷ stroke 2 40 "|" 3 50 "|"
    ∷ stroke 3 40 "|" 4 50 "|"
    ∷ stroke 4 40 "|" 5 50 "|"
    ∷ stroke 5 40 "|" 6 50 "|"
    ∷ stroke 6 40 "|" 7 50 "|"
    ∷ stroke 7 40 "|" 8 50 "-"
    ∷ stroke 8 40 "-" 8 51 "-"
    ∷ stroke 8 39 "-" 8 52 "-"
    ∷ stroke 8 38 "-" 7 52 "|"
    ∷ stroke 7 38 "|" 6 52 "|"
    ∷ stroke 6 38 "|" 5 52 "|"
    ∷ stroke 5 38 "|" 5 52 "|"
    ∷ stroke 4 38 "|" 4 52 "|"
    ∷ stroke 4 37 "/" 4 53 "\\"
    ∷ stroke 4 36 "\\" 5 54 "\\"
    ∷ stroke 4 35 "|" 6 55 "|"
    ∷ stroke 5 35 "|" 7 55 "|"
    ∷ stroke 6 35 "|" 8 55 "-"
    ∷ stroke 7 35 "|" 8 56 "-"
    ∷ stroke 8 35 "-" 8 56 "-"
    ∷ stroke 8 34 "-" 8 57 "-"
    ∷ stroke 8 33 "-" 7 57 "|"
    ∷ stroke 7 33 "|" 6 57 "|"
    ∷ stroke 6 33 "|" 5 56 "\\"
    ∷ stroke 5 33 "|" 4 56 "/"
    ∷ stroke 4 33 "|" 3 57 "/"
    ∷ stroke 3 33 "|" 2 57 "\\"
    ∷ stroke 2 33 "|" 2 56 "-"
    ∷ stroke 1 33 "|" 3 55 "/"
    ∷ stroke 0 33 "-" 3 54 "\\"
    ∷ stroke 0 32 "-" 2 54 "/"
    ∷ stroke 0 31 "-" 2 54 "/"
    ∷ stroke 1 31 "|" 2 55 "\\"
    ∷ stroke 2 31 "|" 2 56 "="
    ∷ stroke 3 31 "|" 1 56 "\\"
    ∷ stroke 4 31 "|" 0 56 "-"
    ∷ stroke 5 31 "|" 0 57 "-"
    ∷ stroke 6 31 "|" 0 58 "-"
    ∷ stroke 7 31 "|" 0 59 "-"
    ∷ stroke 8 31 "-" 0 60 "-"
    ∷ stroke 8 30 "-" 1 60 "/"
    ∷ stroke 8 29 "-" 2 60 "|"
    ∷ stroke 7 29 "|" 3 60 "|"
    ∷ stroke 6 29 "|" 4 60 "|"
    ∷ stroke 5 29 "|" 4 60 "|"
    ∷ stroke 4 29 "|" 5 60 "|"
    ∷ stroke 4 28 "/" 6 60 "|"
    ∷ stroke 4 27 "\\" 7 60 "\\"
    ∷ stroke 4 26 "|" 8 61 "-"
    ∷ stroke 5 26 "|" 8 62 "-"
    ∷ stroke 6 26 "|" 8 63 "-"
    ∷ stroke 7 26 "|" 8 64 "-"
    ∷ stroke 8 26 "-" 8 65 "-"
    ∷ stroke 8 25 "-" 7 66 "/"
    ∷ stroke 8 24 "-" 6 66 "|"
    ∷ stroke 7 24 "|" 6 66 "|"
    ∷ stroke 6 24 "|" 5 66 "|"
    ∷ stroke 5 24 "|" 4 65 "_"
    ∷ stroke 4 24 "|" 4 64 "_"
    ∷ stroke 3 24 "|" 5 63 "|"
    ∷ stroke 2 24 "|" 5 64 "_"
    ∷ stroke 1 24 "|" 6 64 "|"
    ∷ stroke 0 24 "-" 6 63 "_"
    ∷ stroke 0 23 "-" 6 62 "|"
    ∷ stroke 1 22 "/" 5 62 "|"
    ∷ stroke 1 21 "_" 4 62 "|"
    ∷ stroke 2 20 "|" 3 62 "|"
    ∷ stroke 3 20 "|" 2 62 "|"
    ∷ stroke 4 20 "|" 1 63 "_"
    ∷ stroke 5 20 "|" 2 64 "|"
    ∷ stroke 6 20 "|" 2 65 "_"
    ∷ stroke 7 20 "|" 2 66 "|"
    ∷ stroke 8 20 "-" 1 66 "\\"
    ∷ stroke 8 19 "-" 0 66 "-"
    ∷ stroke 8 18 "-" 0 67 "-"
    ∷ stroke 7 18 "|" 0 68 "-"
    ∷ stroke 6 18 "|" 0 69 "-"
    ∷ stroke 5 18 "|" 1 68 "/"
    ∷ stroke 4 18 "|" 2 68 "|"
    ∷ stroke 3 18 "|" 3 68 "|"
    ∷ stroke 2 18 "|" 4 68 "|"
    ∷ stroke 1 17 "_" 5 68 "|"
    ∷ stroke 1 16 "\\" 6 68 "|"
    ∷ stroke 0 15 "-" 7 68 "\\"
    ∷ stroke 1 14 "/" 8 69 "-"
    ∷ stroke 2 13 "|" 8 70 "-"
    ∷ stroke 3 13 "|" 8 71 "-"
    ∷ []
