-- ===== src/Scheduler/Schedules.antt =====
-- When a schedule of backend/scheduler/scheduler.go is due.
use realmrunner.Common.{
  ℕ, suc, ◌+◌, ◌/◌, ◌%◌, ◌<◌, ◌≤◌, ◌==◌, ◌≡◌, ◌∙◌, refl, ap, ◌&&◌, true, false,
}
use realmrunner.Common.{some, List, [], ◌∷◌, ◌++◌, arith}
use realmrunner.Common.Int.{pos}
use realmrunner.Common.Text.{
  codes, is_space, is_digit, trim_left, trim_right, trim_space, value, value_from,
}
use realmrunner.Common.Atoi.{atoi, atoi-digits, all_digits, int_max}
use realmrunner.Scheduler.{split_colons, without_h, daily, due, hours_due, should_restart}

-- A number below 100 with two digits.
abbrev pub two_digits : ℕ → List ℕ
two_digits n = (b'0' + n / 10) ∷ (b'0' + n % 10) ∷ []

i_visible : is_space b'i' ≡ false
unfolding is_space
i_visible = refl

h_visible : is_space b'h' ≡ false
unfolding is_space
h_visible = refl

digit_visible : (c : ℕ) → is_digit c ≡ true → is_space c ≡ false
unfolding is_space
digit_visible c h = ground arith

value-two_digits : (n : ℕ) → value (two_digits n) ≡ n
unfolding value value_from
value-two_digits n = omega arith

tens_digit : (n : ℕ) → n < 100 → is_digit (b'0' + n / 10) ≡ true
tens_digit n h = ground arith

ones_digit : (n : ℕ) → is_digit (b'0' + n % 10) ≡ true
ones_digit n = ground arith

atoi-two_digits : (n : ℕ) → n < 100 → atoi (two_digits n) ≡ some (pos n)
atoi-two_digits n h =
    atoi-digits (b'0' + n / 10) ((b'0' + n % 10) ∷ []) (tens_digit n h) (rw (ones_digit n) refl)
      (rw (value-two_digits n) (ground arith))
    ∙ ap (λ k. some (pos k)) (value-two_digits n)

-- A text whose ends are visible stays when it is trimmed.
trim_right-visible :
    (cs : List ℕ) (c : ℕ) → is_space c ≡ false → trim_right (cs ++ c ∷ []) ≡ cs ++ c ∷ []
unfolding trim_right
trim_right-visible [] c h = rw (trim_right, h) refl
trim_right-visible (d ∷ []) c h = rw (trim_right, trim_right-visible [] c h) (ground arith)
trim_right-visible (d ∷ e ∷ cs) c h =
    rw (trim_right, trim_right-visible (e ∷ cs) c h) (ground arith)

trim_space-visible :
    (b : ℕ) (cs : List ℕ) (c : ℕ)
    → is_space b ≡ false
    → is_space c ≡ false
    → trim_space (b ∷ (cs ++ c ∷ [])) ≡ b ∷ (cs ++ c ∷ [])
unfolding trim_space trim_left
trim_space-visible b cs c hb hc = rw (trim_space, trim_left, hb) (trim_right-visible (b ∷ cs) c hc)

split_colons-digits :
    (a b c d : ℕ)
    → is_digit a ≡ true
    → is_digit b ≡ true
    → is_digit c ≡ true
    → is_digit d ≡ true
    → split_colons (a ∷ b ∷ b':' ∷ c ∷ d ∷ []) ≡ (a ∷ b ∷ []) ∷ (c ∷ d ∷ []) ∷ []
unfolding split_colons
split_colons-digits a b c d ha hb hc hd = ground arith

-- A schedule `HH:MM` is due at that hour and minute and at no other.
pub should_restart-daily :
    (h m hour minute : ℕ)
    → h < 100
    → m < 100
    → should_restart (two_digits h ++ b':' ∷ two_digits m) hour minute ≡ (hour == h && minute == m)
unfolding should_restart
should_restart-daily h m hour minute hh hm =
    rw
      (
        trim_space-visible (b'0' + h / 10) ((b'0' + h % 10) ∷ b':' ∷ (b'0' + m / 10) ∷ [])
            (b'0' + m % 10) (digit_visible (b'0' + h / 10) (tens_digit h hh))
            (digit_visible (b'0' + m % 10) (ones_digit m)),
        split_colons-digits (b'0' + h / 10) (b'0' + h % 10) (b'0' + m / 10) (b'0' + m % 10)
            (tens_digit h hh) (ones_digit h) (tens_digit m hm) (ones_digit m),
        atoi-two_digits h hh,
        atoi-two_digits m hm,
      )
      refl

without_h-append : (ds : List ℕ) → without_h (ds ++ b'h' ∷ []) ≡ ds
without_h-append [] = refl
without_h-append (d ∷ []) = refl
without_h-append (d ∷ e ∷ ds) = ap (λ x. d ∷ x) (without_h-append (e ∷ ds))

-- A schedule `interval:Nh`, for N of one digit or more and not 0, is due at the full hours that N
-- divides: it begins again at midnight.
pub should_restart-interval :
    (d : ℕ) (ds : List ℕ) (n hour minute : ℕ)
    → is_digit d ≡ true
    → all_digits ds ≡ true
    → value (d ∷ ds) ≡ suc n
    → suc n ≤ int_max
    → should_restart (codes "interval:" ++ (d ∷ ds) ++ b'h' ∷ []) hour minute
      ≡ (minute == 0 && (hour % suc n) == 0)
unfolding should_restart
should_restart-interval d ds n hour minute hd h e small =
    let read : atoi (d ∷ ds) ≡ some (pos (suc n)) =
      atoi-digits d ds hd h (ground (arith, e)) ∙ ap (λ k. some (pos k)) e in
    let text = codes "interval:" ++ (d ∷ ds) ++ b'h' ∷ [] in
    let trimmed : trim_space text ≡ text =
      trim_space-visible b'i' (codes "nterval:" ++ d ∷ ds) b'h' i_visible h_visible in
    ap (λ t. due t (daily t) hour minute) trimmed
    ∙ (ap (λ t. hours_due (atoi t) hour minute) (without_h-append (d ∷ ds))
        ∙ ap (λ x. hours_due x hour minute) read)
