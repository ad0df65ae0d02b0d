-- ===== src/Trim.antt =====
-- `strings.TrimSpace` of Go's standard library, which blockchain.go applies to each private key. A
-- text is its code points.
pub mod Laws
use Prim.Native.Char.{Char, code}
use chainlink_polkadot.Prelude.{ℕ, String, Bool, true, false, ◌||◌, ◌&&◌, leb, ◌==◌, if◌then◌else◌}

-- `unicode.IsSpace`
unfoldable pub is_space : ℕ → Bool
is_space c =
    leb 9 c && leb c 13
    || c == 32
    || c == 0x85
    || c == 0xa0
    || c == 0x1680
    || leb 0x2000 c && leb c 0x200a
    || c == 0x2028
    || c == 0x2029
    || c == 0x202f
    || c == 0x205f
    || c == 0x3000

unfoldable pub trim_left : String → String
trim_left String.[] = String.[]
trim_left (String.◌∷◌ c s) =
    let rest = trim_left s in if is_space (code c) then rest else String.◌∷◌ c s

-- A character that has only spaces behind it is dropped if it is one.
abbrev pub keep_left : Bool → Char → String → String
keep_left true c String.[] = String.[]
keep_left true c (String.◌∷◌ d s) = String.◌∷◌ c (String.◌∷◌ d s)
keep_left false c s = String.◌∷◌ c s

unfoldable pub trim_right : String → String
trim_right String.[] = String.[]
trim_right (String.◌∷◌ c s) = keep_left (is_space (code c)) c (trim_right s)

unfoldable pub trim_space : String → String
unfolding trim_left trim_right
trim_space s = trim_right (trim_left s)
