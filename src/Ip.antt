-- ===== src/Ip.antt =====
-- `is_ip` of src/core/util.cpp.
use minbif.Prelude.{
  ℕ, zero, suc, ◌+◌, ◌-◌, ◌*◌, ◌%◌, ◌^◌, Bool, true, false, not, ◌&&◌, ◌||◌, [], ◌∷◌, Text, first,
  is_digit, is_empty, leb, ◌==◌, if◌then◌else◌,
}
use minbif.Result.{Result, ok, err, undefined}

-- strtol (ip, &ptr, 10) of a text that begins with a digit: the number, and the text at ptr
unfoldable pub strtol : ℕ → Text → ℕ × Text
strtol n [] = (n, [])
strtol n (c ∷ cs) = if is_digit c then strtol (10 * n + (c - 48)) cs else (n, c ∷ cs)

-- A long of 64 bits, which strtol stops at its maximum, as an int of 32 bits: whether it is from 0 to 255.
unfoldable pub is_byte : ℕ → Bool
is_byte n = leb ((if leb n (2 ^ 63 - 1) then n else 2 ^ 63 - 1) % 2 ^ 32) 255

-- The loop of is_ip, with the number of rounds that are left; behind the text's end nothing may be read.
unfoldable pub is_ip_loop : ℕ → Text → Result Bool
is_ip_loop zero ip = ok true
is_ip_loop (suc left) ip =
    let (d, ptr) = strtol 0 ip in
    if not (is_digit (first ip))
    then ok false
    else if not (is_byte d)
    then ok false
    else if not (is_empty ptr) && (not (first ptr == b'.') || left == 0)
    then ok false
    else elim ptr [
      | [] ↦ (if left == 0 then ok true else err undefined)
      | c ∷ rest ↦ is_ip_loop left rest
    ]

unfoldable pub is_ip : Text → Result Bool
is_ip ip = is_ip_loop 4 ip
