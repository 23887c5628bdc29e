-- ===== src/Util/Numbers/RoundTrip.antt =====
-- Numbers that are printed and read again.
use filehub_cloud.Base.{
  ℕ, suc, ◌^◌, ◌<◌, ℤ, pos, negsuc, decimal, ◌≡◌, arith, refl, sym, ap, subst, ◌∙◌,
}
use filehub_cloud.Schema.Results.{string}
use filehub_cloud.Conn.Mysql.{atoi}
use filehub_cloud.Conn.Mysql.Numerals.{atoi-decimal, decimal-head}
use filehub_cloud.Client.Link.{signed}
use filehub_cloud.Util.Numbers.{atoll, int2_string, string2_int}

atoll-decimal : (n : ℕ) → atoll (decimal n) ≡ pos (atoi (string (decimal n)))
unfolding atoll
atoll-decimal n =
    let (c, s, e, digit) = decimal-head n in
    subst (λ t. atoll t ≡ pos (atoi (string t))) (sym e) (ground (arith, digit))

pub atoll-signed : (i : ℤ) → atoll (signed i) ≡ i
unfolding atoll signed
atoll-signed (pos n) = atoll-decimal n ∙ ap pos (atoi-decimal n)
atoll-signed (negsuc n) = rw (atoi-decimal (suc n)) refl

-- A number below 2^31 is read as it was printed.
string2_int-int2_string : (n : ℕ) → n < 2 ^ 31 → string2_int (int2_string n) ≡ n
unfolding string2_int int2_string
string2_int-int2_string n small = rw (atoll-decimal n) (omega (arith, atoi-decimal n))
