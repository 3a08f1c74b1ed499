-- ===== src/ChartCache/Names.antt =====
-- internal/helm/chart/cache/cache.go, `basename`: the FNV-1a hash of the repository in hexadecimal,
-- and the reference.
use Prim.Native.Nat.{bit_xor}
use flux_build.Base.{
  ℕ, zero, suc, ◌+◌, ◌-◌, ◌*◌, ◌/◌, ◌%◌, ◌^◌, [], ◌∷◌, ◌++◌, ltb, ◌==◌, nat_eq, if◌then◌else◌,
}
use flux_build.Base.Text.{Text}
use flux_build.Chart.Reference.{RemoteReference, to_text}

-- `fnv.New32a`: xor with the byte, then multiply, modulo 2^32
fnv32a_from : ℕ → Text → ℕ
fnv32a_from h [] = h
fnv32a_from h (b ∷ s) = fnv32a_from (bit_xor h b * 16777619 % 2 ^ 32) s

unfoldable pub fnv32a : Text → ℕ
unfolding fnv32a_from
fnv32a s = fnv32a_from 2166136261 s

lower_hex : ℕ → ℕ
lower_hex d = if ltb d 10 then b'0' + d else b'a' + (d - 10)

-- `%x`: a 32-bit number has eight hexadecimal digits at most, which is the fuel.
hex_digits : ℕ → ℕ → Text → Text
hex_digits zero n acc = acc
hex_digits (suc f) n acc =
    let more = hex_digits f (n / 16) (lower_hex (n % 16) ∷ acc) in
    if n / 16 == 0 then lower_hex (n % 16) ∷ acc else more

unfoldable pub hex32 : ℕ → Text
unfolding lower_hex hex_digits
hex32 n = hex_digits 8 n []

unfoldable pub basename : Text → RemoteReference → Text
unfolding fnv32a hex32
basename repo ref = hex32 (fnv32a repo) ++ (b'%' ∷ to_text ref)
