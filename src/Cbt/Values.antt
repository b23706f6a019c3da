-- ===== src/Cbt/Values.antt =====
-- `str` of a JSON scalar.
use senet.Prelude.{ℕ, zero, suc, ◌+◌, ◌/◌, ◌%◌, [], ◌∷◌, true, false, ◌==◌, if◌then◌else◌}
use senet.Prelude.Text.{Text, text}
use senet.Prelude.Int.{pos, negsuc}
use senet.Cbt.{Scalar, null, integer, boolean, string, other}

-- the digits of a number put before `acc`; a number has fewer digits than it counts, so fuel
-- above the number is enough
digits : ℕ → ℕ → Text → Text
digits zero n acc = acc
digits (suc fuel) n acc =
    let more = digits fuel (n / 10) ((48 + n % 10) ∷ acc) in
    if n / 10 == 0 then (48 + n) ∷ acc else more

unfoldable pub show_nat : ℕ → Text
unfolding digits
show_nat n = digits (n + 1) n []

unfoldable pub str : Scalar → Text
unfolding show_nat
str null = text "None"
str (integer (pos n)) = show_nat n
str (integer (negsuc n)) = 45 ∷ show_nat (n + 1)
str (boolean true) = text "True"
str (boolean false) = text "False"
str (string s) = s
str (other s) = s
