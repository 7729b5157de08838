-- ===== src/Minecraft/Java/Versions.antt =====
-- RequiredJavaMajor of backend/minecraft/java.go on the version names of Minecraft 1.x.
use realmrunner.Common.{ℕ, ◌<◌, ◌≡◌, refl, true, false, none, some, List, [], ◌∷◌, ◌++◌, arith}
use realmrunner.Common.{All, All-append, append-nil, length, ltb, ◌==◌, ◌&&◌, ◌||◌, if◌then◌else◌}
use realmrunner.Common.Text.{
  is_digit, is_space, trim_space, trim_left, trim_right, span_digits-append, value, starts_no_digit,
}
use realmrunner.Server.Digits.{itoa}
use realmrunner.Server.Digits.RoundTrip.{itoa_digits}
use realmrunner.Minecraft.Java.{some_digits, dot_group, weekly, match_release, required_java_major}

-- `1.<minor>.<patch>` in decimal.
abbrev pub version_name : ℕ → ℕ → List ℕ
version_name minor patch = b'1' ∷ b'.' ∷ (itoa minor ++ b'.' ∷ itoa patch)

abbrev NoSpace : ℕ → Type 0
NoSpace c = is_space c ≡ false

digit-NoSpace : (c : ℕ) → is_digit c ≡ true → NoSpace c
unfolding is_space
digit-NoSpace c h = ground arith

digits-NoSpace : (cs : List ℕ) → All (λ c. is_digit c ≡ true) cs → All NoSpace cs
digits-NoSpace [] h = tt
digits-NoSpace (c ∷ cs) (h, hs) = (digit-NoSpace c h, digits-NoSpace cs hs)

trim_right-NoSpace : (cs : List ℕ) → All NoSpace cs → trim_right cs ≡ cs
unfolding trim_right
trim_right-NoSpace [] h = refl
trim_right-NoSpace (c ∷ cs) (h, hs) = ground (arith, trim_right-NoSpace cs hs)

trim_left-NoSpace : (cs : List ℕ) → All NoSpace cs → trim_left cs ≡ cs
unfolding trim_left
trim_left-NoSpace [] h = refl
trim_left-NoSpace (c ∷ cs) (h, hs) = ground arith

trim_space-NoSpace : (cs : List ℕ) → All NoSpace cs → trim_space cs ≡ cs
unfolding trim_space
trim_space-NoSpace cs h = ground (arith, trim_left-NoSpace cs h, trim_right-NoSpace cs h)

version_name-NoSpace : (minor patch : ℕ) → All NoSpace (version_name minor patch)
unfolding is_space
version_name-NoSpace minor patch = (
  refl,
  (
    refl,
    All-append NoSpace (itoa minor) (b'.' ∷ itoa patch)
        (digits-NoSpace (itoa minor) (itoa_digits minor).0)
        (refl, digits-NoSpace (itoa patch) (itoa_digits patch).0),
  ),
)

some_digits-value :
    (ds rest : List ℕ) → 0 < length ds → some_digits (ds, rest) ≡ some (value ds, rest)
some_digits-value [] rest h = elim h [ ]
some_digits-value (d ∷ ds) rest h = refl

dot_group-itoa :
    (n : ℕ) (rest : List ℕ)
    → starts_no_digit rest ≡ true
    → dot_group (b'.' ∷ (itoa n ++ rest)) ≡ some (n, rest)
dot_group-itoa n rest h =
    let (ds, v, len) = itoa_digits n in
    ground (arith, span_digits-append (itoa n) rest ds h, some_digits-value (itoa n) rest len, v)

weekly-dot : (c : ℕ) (rest : List ℕ) → weekly c b'.' rest ≡ none
weekly-dot c [] = refl
weekly-dot c (w ∷ cs) = ground arith

match_release-version_name :
    (minor patch : ℕ)
    → match_release (version_name minor patch)
      ≡ some (record { major = 1; minor = minor; patch = patch })
unfolding match_release
match_release-version_name minor patch = ground (
  arith,
  dot_group-itoa minor (b'.' ∷ itoa patch),
  dot_group-itoa patch [],
  append-nil (itoa patch),
)

-- What the release notes of the game ask for: Java 8, then 17 from 1.17 and 21 from 1.20.5.
abbrev pub java_of_1 : ℕ → ℕ → ℕ
java_of_1 minor patch =
    if ltb minor 17 then 8 else if ltb minor 20 || minor == 20 && ltb patch 5 then 17 else 21

-- For every version 1.minor.patch, written in decimal, RequiredJavaMajor returns 8 below 1.17, 17
-- from there up to 1.20.4, and 21 from 1.20.5 on.
pub required_java_major_1 :
    (minor patch : ℕ) → required_java_major (version_name minor patch) ≡ java_of_1 minor patch
unfolding required_java_major
required_java_major_1 minor patch = ground (
  arith,
  trim_space-NoSpace (version_name minor patch) (version_name-NoSpace minor patch),
  weekly-dot b'1' (itoa minor ++ b'.' ∷ itoa patch),
  match_release-version_name minor patch,
)
