-- ===== src/Prelude/Decimal.antt =====
-- `BigInt.prototype.toString` on a number that is not negative: its decimal digits.
use Prim.Native.Nat.{ℕ, zero, suc, ◌/◌, ◌%◌}
use Prim.Native.String
use Prim.Native.String.{String}
use mathlib.Core.Path.{◌≡◌, refl}
use mathlib.Core.List.{List, [], ◌∷◌}
use anti_soon.Prelude.Tests.{ltb, if◌then◌else◌}
use anti_soon.Prelude.Lists.{get_or}

abbrev pub digit_texts : List String
digit_texts = "0" ∷ "1" ∷ "2" ∷ "3" ∷ "4" ∷ "5" ∷ "6" ∷ "7" ∷ "8" ∷ "9" ∷ []

-- A number has fewer digits than its value plus one, which is the fuel.
unfoldable pub digits_from : ℕ → ℕ → String
digits_from zero n = ""
digits_from (suc fuel) n =
    let high = digits_from fuel (n / 10) in
    if ltb n 10 then get_or digit_texts n "" else String.◌++◌ high (get_or digit_texts (n % 10) "")

unfoldable pub to_string : ℕ → String
unfolding digits_from
to_string n = digits_from (suc n) n

to_string-sepolia : to_string 11155111 ≡ "11155111"
unfolding to_string
to_string-sepolia = refl

-- `String(n).padStart(4, "0")`
unfoldable pub pad_start_4 : ℕ → String
unfolding to_string
pad_start_4 n =
    let text = to_string n in
    if ltb n 10
    then String.◌++◌ "000" text
    else if ltb n 100
    then String.◌++◌ "00" text
    else if ltb n 1000
    then String.◌++◌ "0" text
    else text
