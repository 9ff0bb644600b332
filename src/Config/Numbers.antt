-- ===== src/Config/Numbers.antt =====
-- The standard library's number readers that pkg/config/config.go uses: `strconv.ParseInt` and `Atoi`
-- with base 10, `strconv.ParseUint` and `time.ParseDuration`. Any error is `none`.
use firecracker_shim.Base.{
  ℕ, suc, ◌+◌, ◌-◌, ◌*◌, ◌/◌, ◌^◌, Bool, true, false, ◌&&◌, ◌||◌, Option, none, some, [], ◌∷◌, ◌++◌,
  leb, ltb, ◌==◌, if◌then◌else◌, ◌=?◌,
}
use firecracker_shim.Base.Int.{ℤ, pos, sub_ℕ}
use firecracker_shim.Base.Text.{Text, codes, text_eq}

abbrev pub is_digit : ℕ → Bool
is_digit c = leb b'0' c && leb c b'9'

-- The number that digits spell behind `n`, if all are digits.
unfoldable pub digits_value : ℕ → Text → Option ℕ
digits_value n [] = some n
digits_value n (c ∷ cs) =
    let rest = digits_value (n * 10 + (c - b'0')) cs in if is_digit c then rest else none

-- The least number that is too large is the bound.
abbrev pub within : ℕ → Option ℕ → Option ℕ
within bound none = none
within bound (some n) = if ltb n bound then some n else none

unfoldable pub parse_below : ℕ → Text → Option ℕ
unfolding digits_value
parse_below bound [] = none
parse_below bound (c ∷ cs) = within bound (digits_value 0 (c ∷ cs))

-- `strconv.ParseUint(s, 10, 32)`.
unfoldable pub parse_uint32 : Text → Option ℕ
unfolding parse_below
parse_uint32 s = parse_below (2 ^ 32) s

abbrev pub plus : Option ℕ → Option ℤ
plus none = none
plus (some n) = some (pos n)

abbrev pub minus : Option ℕ → Option ℤ
minus none = none
minus (some n) = some (sub_ℕ 0 n)

-- `strconv.ParseInt(s, 10, 64)`, and `strconv.Atoi(s)` where an `int` has 64 bits.
unfoldable pub parse_int : Text → Option ℤ
unfolding parse_below
parse_int [] = none
parse_int (c ∷ cs) =
    if c == b'-'
    then minus (parse_below (2 ^ 63 + 1) cs)
    else if c == b'+'
    then plus (parse_below (2 ^ 63) cs)
    else plus (parse_below (2 ^ 63) (c ∷ cs))

-- A part of a duration as far as it was read: the whole number, the digits of the fraction with
-- their count, whether there was a digit, and the unit.
pub data Phase : Type 0 where
  in_whole in_fraction in_unit : Phase

pub record Part : Type 0 where
  pub phase : Phase
  pub whole : ℕ
  pub fraction : ℕ
  pub fraction_digits : ℕ
  pub truncated : Bool
  pub has_digit : Bool
  pub unit : Text
  pub total : ℕ

unfoldable unit_of : Text → Option ℕ
unit_of u =
    if u =? codes "ns"
    then some 1
    else if u =? codes "us"
    then some 1000
    else if u =? codes "µs"
    then some 1000
    else if u =? codes "μs"
    then some 1000
    else if u =? codes "ms"
    then some 1000000
    else if u =? codes "s"
    then some 1000000000
    else if u =? codes "m"
    then some 60000000000
    else if u =? codes "h"
    then some 3600000000000
    else none

-- `leadingFraction` drops the digits that do not fit.
unfoldable fraction_digit : ℕ → Part → Part
fraction_digit c p =
    let y = p.fraction * 10 + (c - b'0') in
    if p.truncated || ltb ((2 ^ 63 - 1) / 10) p.fraction || ltb (2 ^ 63) y
    then record p { truncated = true; has_digit = true }
    else record p { fraction = y; fraction_digits = suc p.fraction_digits; has_digit = true }

abbrev start_part : ℕ → Part
start_part total = record {
  phase = in_whole;
  whole = 0;
  fraction = 0;
  fraction_digits = 0;
  truncated = false;
  has_digit = false;
  unit = [];
  total = total;
}

-- `uint64(float64(f) * (float64(unit) / scale))` with the scale 10 ^ digits is a parameter.
module _ (scaled : ℕ → ℕ → ℕ → ℕ) where
  abbrev closed_with : Part → Option ℕ → Option ℕ
  closed_with p none = none
  closed_with p (some u) =
      let extra = if p.fraction == 0 then 0 else scaled p.fraction p.fraction_digits u in
      let v = p.whole * u + extra in
      if leb (p.whole * u) (2 ^ 63) && leb v (2 ^ 63) && leb (p.total + v) (2 ^ 63)
      then some (p.total + v)
      else none

  -- A part is complete when it has a digit and a known unit.
  unfoldable closed : Part → Option ℕ
  unfolding unit_of
  closed p = if p.has_digit then closed_with p (unit_of p.unit) else none

  abbrev reopened : ℕ → Option ℕ → Option Part
  reopened c none = none
  reopened c (some total) =
      if c == b'.'
      then some (record (start_part total) { phase = in_fraction })
      else some (record (start_part total) { whole = c - b'0'; has_digit = true })

  unfoldable part_step : Phase → ℕ → Part → Option Part
  unfolding fraction_digit closed
  part_step in_whole c p =
      if is_digit c
      then some (record p { whole = p.whole * 10 + (c - b'0'); has_digit = true })
      else if c == b'.'
      then some (record p { phase = in_fraction })
      else if p.has_digit
      then some (record p { phase = in_unit; unit = c ∷ [] })
      else none
  part_step in_fraction c p =
      if is_digit c
      then some (fraction_digit c p)
      else if c == b'.'
      then none
      else some (record p { phase = in_unit; unit = c ∷ [] })
  part_step in_unit c p =
      if is_digit c || c == b'.'
      then reopened c (closed p)
      else some (record p { unit = p.unit ++ c ∷ [] })

  abbrev run_parts : Option Part → Text → Option ℕ
  unfolding part_step closed
  run_parts none cs = none
  run_parts (some p) [] = closed p
  run_parts (some p) (c ∷ cs) = run_parts (part_step p.phase c p) cs

  unfoldable magnitude : Text → Option ℕ
  unfolding run_parts
  magnitude s = if s =? codes "0" then some 0 else run_parts (some (start_part 0)) s

  -- `time.ParseDuration`, in nanoseconds.
  unfoldable pub parse_duration : Text → Option ℤ
  unfolding magnitude
  parse_duration [] = none
  parse_duration (c ∷ cs) =
      if c == b'-'
      then minus (magnitude cs)
      else plus (within (2 ^ 63) (if c == b'+' then magnitude cs else magnitude (c ∷ cs)))
