-- ===== src/Fingerprint.antt =====
-- bindings/python/nlsql.py: `_py_fingerprint`, FNV-1a over the UTF-8 bytes, modulo 2 ^ 64.
use Prim.Native.Nat.{bit_xor}
use nlsqlc.Base.{
  ℕ, ◌+◌, ◌*◌, ◌/◌, ◌%◌, ◌^◌, String, List, [], ◌∷◌, ◌++◌, ltb, if◌then◌else◌, ◌≡◌, refl,
}
use nlsqlc.Base.Text.{codes}

-- `s.encode('utf-8')`
unfoldable pub utf8_bytes : ℕ → List ℕ
utf8_bytes c =
    if ltb c 0x80
    then c ∷ []
    else if ltb c 0x800
    then (0xc0 + c / 64) ∷ (0x80 + c % 64) ∷ []
    else if ltb c 0x10000
    then (0xe0 + c / 4096) ∷ (0x80 + c / 64 % 64) ∷ (0x80 + c % 64) ∷ []
    else (0xf0 + c / 262144) ∷ (0x80 + c / 4096 % 64) ∷ (0x80 + c / 64 % 64) ∷ (0x80 + c % 64) ∷ []

unfoldable pub encode : List ℕ → List ℕ
unfolding utf8_bytes
encode [] = []
encode (c ∷ cs) = utf8_bytes c ++ encode cs

unfoldable pub mix : ℕ → ℕ → ℕ
mix h b = (bit_xor h b * 1099511628211) % 2 ^ 64

unfoldable pub mix_all : ℕ → List ℕ → ℕ
unfolding mix
mix_all h [] = h
mix_all h (b ∷ bs) = mix_all (mix h b) bs

unfoldable pub fingerprint : String → ℕ
unfolding encode mix_all
fingerprint s = mix_all 1469598103934665603 (encode (codes s))

fingerprint_runs : fingerprint "a" ≡ 4953267810257967366
unfolding fingerprint
fingerprint_runs = refl
