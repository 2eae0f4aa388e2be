-- ===== src/Relayer/Tests/Decimals.antt =====
-- A reader of decimal digits, which reads what is written of a number.
use Prim.Native.Char.{code}
use Prim.Native.String
use Prim.Native.String.append
use anti_soon.Prelude.{
  ℕ, zero, suc, ◌+◌, ◌-◌, ◌*◌, ◌/◌, ◌%◌, ◌<◌, ◌≡◌, refl, Bool, Bool-cases, inl, inr, ap, ◌∙◌,
  String, true, false, some, ltb, arith, get_or,
}
use anti_soon.Prelude.Decimal.{to_string, digits_from, digit_texts}
use anti_soon.Relayer.CursorFile.Load.{BigInts}
use anti_soon.Relayer.CursorFile.Entries.{ReadsDecimals}

unfoldable pub read_from : ℕ → String → ℕ
read_from acc String.[] = acc
read_from acc (String.◌∷◌ c s) = read_from (acc * 10 + (code c - 48)) s

read-append :
    (s t : String) (acc : ℕ) → read_from acc (String.◌++◌ s t) ≡ read_from (read_from acc s) t
unfolding read_from
read-append String.[] t acc = ap (read_from acc) (append.nil t)
read-append (String.◌∷◌ c s) t acc = ap (read_from acc) (append.cons c s t) ∙ read-append s t _

unfoldable pub is_empty : String → Bool
is_empty String.[] = true
is_empty (String.◌∷◌ c s) = false

is_empty-append : (s t : String) → is_empty t ≡ false → is_empty (String.◌++◌ s t) ≡ false
unfolding is_empty
is_empty-append String.[] t h = ap is_empty (append.nil t) ∙ h
is_empty-append (String.◌∷◌ c s) t h = ap is_empty (append.cons c s t)

read-digit :
    (d acc : ℕ)
    → d < 10
    → let s = get_or digit_texts d "" in (read_from acc s ≡ acc * 10 + d) × (is_empty s ≡ false)
unfolding read_from is_empty
read-digit zero acc h = (refl, refl)
read-digit (suc zero) acc h = (refl, refl)
read-digit (suc (suc zero)) acc h = (refl, refl)
read-digit (suc (suc (suc zero))) acc h = (refl, refl)
read-digit (suc (suc (suc (suc zero)))) acc h = (refl, refl)
read-digit (suc (suc (suc (suc (suc zero))))) acc h = (refl, refl)
read-digit (suc (suc (suc (suc (suc (suc zero)))))) acc h = (refl, refl)
read-digit (suc (suc (suc (suc (suc (suc (suc zero))))))) acc h = (refl, refl)
read-digit (suc (suc (suc (suc (suc (suc (suc (suc zero)))))))) acc h = (refl, refl)
read-digit (suc (suc (suc (suc (suc (suc (suc (suc (suc zero))))))))) acc h = (refl, refl)
read-digit (suc (suc (suc (suc (suc (suc (suc (suc (suc (suc d)))))))))) acc h =
    (omega arith, grind arith)

digits-read :
    (fuel n : ℕ)
    → n < fuel
    → (read_from 0 (digits_from fuel n) ≡ n) × (is_empty (digits_from fuel n) ≡ false)
unfolding digits_from
digits-read zero n h = (omega arith, grind arith)
digits-read (suc fuel) n h =
    let high = digits_from fuel (n / 10) in
    let last = get_or digit_texts (n % 10) "" in
    elim (Bool-cases (ltb n 10)) [
      | inl e ↦
          let (value, digit) = read-digit n 0 (grind arith) in rw e (value ∙ omega arith, digit)
      | inr e ↦
          let below : n / 10 < fuel = grind arith in
          let (value, digit) = read-digit (n % 10) (n / 10) (omega arith) in
          rw e (
            read-append high last 0
                ∙ ap (λ a. read_from a last) (digits-read fuel (n / 10) below).0
                ∙ value
                ∙ omega arith,
            is_empty-append high last digit,
          )
    ]

-- `BigInt` of decimal digits; no text is blank but the empty one
abbrev pub decimal_numbers : BigInts
decimal_numbers = record { is_blank = is_empty; big_int = λ s. some (read_from 0 s) }

pub decimal_numbers-ReadsDecimals : ReadsDecimals decimal_numbers
unfolding to_string
decimal_numbers-ReadsDecimals = record {
  not_blank = λ n. (digits-read (suc n) n (omega arith)).1;
  reads = λ n. ap some (digits-read (suc n) n (omega arith)).0;
}
