-- ===== src/Reconcile/Int.antt =====
-- The 64-bit integers of src-tauri/src/reconcile.rs.
use duegood.Base.{
  ℕ, zero, suc, ◌+◌, ◌-◌, ◌*◌, ◌/◌, ◌%◌, ◌^◌, Bool, true, false, leb, ltb, if◌then◌else◌,
}

-- `negsuc n` is `-(n + 1)`
pub data ℤ : Type 0 where
  pos negsuc : ℕ → ℤ

-- one number less another
abbrev pub diff : ℕ → ℕ → ℤ
diff a b = if leb b a then pos (a - b) else negsuc (b - a - 1)

abbrev pub neg : ℤ → ℤ
neg (pos zero) = pos 0
neg (pos (suc n)) = negsuc n
neg (negsuc n) = pos (suc n)

infixl 65 ◌+ℤ◌
abbrev pub ◌+ℤ◌ : ℤ → ℤ → ℤ
pos a +ℤ pos b = pos (a + b)
pos a +ℤ negsuc b = diff a (b + 1)
negsuc a +ℤ pos b = diff b (a + 1)
negsuc a +ℤ negsuc b = negsuc (a + b + 1)

infixl 65 ◌-ℤ◌
abbrev pub ◌-ℤ◌ : ℤ → ℤ → ℤ
a -ℤ b = a +ℤ neg b

-- a product with a number that is not negative
infixl 70 ◌*ℤ◌
abbrev pub ◌*ℤ◌ : ℤ → ℕ → ℤ
pos a *ℤ k = pos (a * k)
negsuc a *ℤ k = neg (pos ((a + 1) * k))

-- `/`, which rounds towards zero
infixl 70 ◌/ℤ◌
abbrev pub ◌/ℤ◌ : ℤ → ℕ → ℤ
pos a /ℤ k = pos (a / k)
negsuc a /ℤ k = neg (pos ((a + 1) / k))

-- `div_euclid` and `rem_euclid` by a positive number
abbrev pub div_euclid : ℤ → ℕ → ℤ
div_euclid (pos a) k = pos (a / k)
div_euclid (negsuc a) k = negsuc (a / k)

abbrev pub rem_euclid : ℤ → ℕ → ℕ
rem_euclid (pos a) k = a % k
rem_euclid (negsuc a) k = k - 1 - a % k

abbrev pub is_negative : ℤ → Bool
is_negative (pos _) = false
is_negative (negsuc _) = true

-- the order
abbrev pub less : ℤ → ℤ → Bool
less a b = is_negative (a -ℤ b)

-- what 64 bits keep of a sum or a product
unfoldable pub wrap : ℤ → ℤ
wrap a = let n = rem_euclid a (2 ^ 64) in if ltb n (2 ^ 63) then pos n else diff n (2 ^ 64)

-- `as u32`
abbrev pub as_u32 : ℤ → ℕ
as_u32 a = rem_euclid a (2 ^ 32)
