-- ===== src/Vterm/Params.antt =====
-- internal/vterm/vterm.go: `parseNums`, `numOr1`, `clamp`, `min2`, `max2`, and the forms in which
-- the handlers read a parameter. Parameters are words: `cur*10 + digit` wraps.
pub mod Decimal
use pitviper.Base.{
  ℕ, ◌-◌, Bool, ◌&&◌, leb, ◌==◌, List, [], ◌∷◌, slt, add, sub, mul, if◌then◌else◌, get_or,
}

unfoldable pub clamp : ℕ → ℕ → ℕ → ℕ
clamp v lo hi = if slt v lo then lo else if slt hi v then hi else v

unfoldable pub min2 : ℕ → ℕ → ℕ
min2 a b = if slt a b then a else b

unfoldable pub max2 : ℕ → ℕ → ℕ
max2 a b = if slt b a then a else b

-- `c >= '0' && c <= '9'`
unfoldable pub is_digit : ℕ → Bool
is_digit c = leb b'0' c && leb c b'9'

-- The loop of `parseNums`, at the number `cur` read so far. Go ranges over the runes of the string;
-- a rune that is no digit and no `;` is skipped, so the bytes that encode it may be skipped singly.
unfoldable pub parse_from : ℕ → List ℕ → List ℕ
parse_from cur [] = cur ∷ []
parse_from cur (c ∷ cs) =
    let digit = parse_from (add (mul cur 10) (c - b'0')) cs in
    let next = parse_from 0 cs in
    let skip = parse_from cur cs in
    if is_digit c then digit else if c == b';' then cur ∷ next else skip

-- The last `append` always runs, since the string is not empty.
unfoldable pub parse_nums : List ℕ → List ℕ
parse_nums [] = []
parse_nums (c ∷ cs) = parse_from 0 (c ∷ cs)

-- `numOr1(nums, 0)`
unfoldable pub num_or1 : List ℕ → ℕ
num_or1 [] = 1
num_or1 (n ∷ ns) = if n == 0 then 1 else n

-- `n := 1; if len(nums) > 0 && nums[0] > 0 { n = nums[0] }`
unfoldable pub pos_or1 : List ℕ → ℕ
pos_or1 [] = 1
pos_or1 (n ∷ ns) = if slt 0 n then n else 1

-- `n := 0; if len(nums) > 0 { n = nums[0] }`
unfoldable pub num_or0 : List ℕ → ℕ
num_or0 [] = 0
num_or0 (n ∷ ns) = n

-- `x := 0; if len(nums) >= i+1 && nums[i] > 0 { x = nums[i] - 1 }`; a number past the end reads as
-- 0.
unfoldable pub coord : List ℕ → ℕ → ℕ
coord nums i = let n : ℕ = get_or nums i 0 in if slt 0 n then sub n 1 else 0

-- `x := d; if len(nums) >= i+1 && nums[i] > 0 { x = nums[i] }`
unfoldable pub bound_or : List ℕ → ℕ → ℕ → ℕ
bound_or nums i d = let n : ℕ = get_or nums i 0 in if slt 0 n then n else d
