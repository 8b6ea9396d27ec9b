-- ===== src/Tests/Identifiers.antt =====
-- An identifier made of sixteen bytes.
use simply_se.Base.{ℕ, ◌/◌, ◌≡◌, refl, List, [], ◌∷◌, get_or, length}
use simply_se.Identifiers.{random_uuid, stamp, read_bytes, read_digits, read_bytes-random_uuid}

abbrev sixteen : List ℕ
sixteen =
    0 ∷ 17 ∷ 34 ∷ 51 ∷ 68 ∷ 85 ∷ 102 ∷ 119 ∷ 136 ∷ 153 ∷ 170 ∷ 187 ∷ 204 ∷ 221 ∷ 238 ∷ 255 ∷ []

uuid_length : length (random_uuid sixteen) ≡ 36
unfolding random_uuid
uuid_length = refl

read_bytes-random_uuid_example :
    (read_bytes (read_digits (random_uuid sixteen)) ≡ stamp sixteen)
    × (get_or (stamp sixteen) 6 0 / 16 ≡ 4)
    × (get_or (stamp sixteen) 8 0 / 64 ≡ 2)
read_bytes-random_uuid_example = read_bytes-random_uuid sixteen refl
