-- ===== src/Identifiers.antt =====
-- The identifiers of frontend/src/lib/uuid.ts where the browser has no `crypto.randomUUID`: a
-- version 4 UUID from 16 random bytes. A character is a dash or a hexadecimal digit, by its value.
use simply_se.Base.{
  ℕ, zero, suc, ◌+◌, ◌-◌, ◌*◌, ◌/◌, ◌%◌, ◌<◌, ◌≡◌, refl, sym, ap, ap₂, ◌∙◌, List, [], ◌∷◌, ◌++◌,
  map, take, drop, length, get_or, arith, take-append-drop,
}

pub data Symbol : Type 0 where
  dash : Symbol
  digit : ℕ → Symbol

unfoldable pub update : ℕ → (ℕ → ℕ) → List ℕ → List ℕ
update i f [] = []
update zero f (b ∷ bytes) = f b ∷ bytes
update (suc i) f (b ∷ bytes) = b ∷ update i f bytes

-- `(b & 0x0f) | 0x40` and `(b & 0x3f) | 0x80`: the bits that are set are clear in what is kept.
abbrev pub with_version : ℕ → ℕ
with_version b = b % 16 + 64

abbrev pub with_variant : ℕ → ℕ
with_variant b = b % 64 + 128

unfoldable pub stamp : List ℕ → List ℕ
unfolding update
stamp bytes = update 8 with_variant (update 6 with_version bytes)

-- `b.toString(16).padStart(2, "0")` for each byte, joined.
unfoldable pub hex : List ℕ → List ℕ
hex [] = []
hex (b ∷ bytes) = b / 16 ∷ b % 16 ∷ hex bytes

abbrev slice : ℕ → ℕ → List ℕ → List ℕ
slice a b xs = take (b - a) (drop a xs)

abbrev digits : List ℕ → List Symbol
digits xs = map (λ d. digit d) xs

unfoldable pub with_dashes : List ℕ → List Symbol
with_dashes h =
    digits (slice 0 8 h)
    ++ dash
      ∷ (digits (slice 8 12 h)
          ++ dash
            ∷ (digits (slice 12 16 h)
                ++ dash ∷ (digits (slice 16 20 h) ++ dash ∷ digits (drop 20 h))))

unfoldable pub random_uuid : List ℕ → List Symbol
unfolding stamp hex with_dashes
random_uuid bytes = with_dashes (hex (stamp bytes))

-- Reading an identifier back: its digits, two for each byte.
unfoldable pub read_digits : List Symbol → List ℕ
read_digits [] = []
read_digits (dash ∷ s) = read_digits s
read_digits (digit d ∷ s) = d ∷ read_digits s

unfoldable pub read_bytes : List ℕ → List ℕ
read_bytes [] = []
read_bytes (d ∷ []) = []
read_bytes (d ∷ e ∷ ds) = (d * 16 + e) ∷ read_bytes ds

read_digits-digits :
    (xs : List ℕ) (s : List Symbol) → read_digits (digits xs ++ s) ≡ xs ++ read_digits s
unfolding read_digits
read_digits-digits [] s = refl
read_digits-digits (x ∷ xs) s = ap (λ ys. x ∷ ys) (read_digits-digits xs s)

read_digits_all : (xs : List ℕ) → read_digits (digits xs) ≡ xs
unfolding read_digits
read_digits_all [] = refl
read_digits_all (x ∷ xs) = ap (λ ys. x ∷ ys) (read_digits_all xs)

drop-nil : (m : ℕ) → drop {A = ℕ} m [] ≡ []
drop-nil zero = refl
drop-nil (suc m) = refl

drop-drop : (m n k : ℕ) (xs : List ℕ) → n + m ≡ k → drop m (drop n xs) ≡ drop k xs
drop-drop m zero k xs h = ap (λ i. drop i xs) (let e : m ≡ k = omega arith in e)
drop-drop m (suc n) k [] h = drop-nil m ∙ sym (drop-nil k)
drop-drop m (suc n) zero (x ∷ xs) h = absurd (omega arith)
drop-drop m (suc n) (suc k) (x ∷ xs) h = drop-drop m n k xs (omega arith)

-- A part, and what follows it.
part :
    (m n k : ℕ) (xs rest : List ℕ)
    → n + m ≡ k
    → rest ≡ drop k xs
    → take m (drop n xs) ++ rest ≡ drop n xs
part m n k xs rest h e =
    ap (λ ys. take m (drop n xs) ++ ys) (e ∙ sym (drop-drop m n k xs h))
    ∙ take-append-drop m (drop n xs)

read_digits-with_dashes : (h : List ℕ) → read_digits (with_dashes h) ≡ h
unfolding with_dashes read_digits
read_digits-with_dashes h =
    let e20 = read_digits_all (drop 20 h) in
    let e16 =
      read_digits-digits (slice 16 20 h) (dash ∷ digits (drop 20 h)) ∙ part 4 16 20 h _ refl e20 in
    let e12 = read_digits-digits (slice 12 16 h) _ ∙ part 4 12 16 h _ refl e16 in
    let e8 = read_digits-digits (slice 8 12 h) _ ∙ part 4 8 12 h _ refl e12 in
    read_digits-digits (slice 0 8 h) _ ∙ part 8 0 8 h _ refl e8

read_bytes-hex : (bytes : List ℕ) → read_bytes (hex bytes) ≡ bytes
unfolding read_bytes hex
read_bytes-hex [] = refl
read_bytes-hex (b ∷ bytes) =
    ap₂ (λ x xs. x ∷ xs) (let e : b / 16 * 16 + b % 16 ≡ b = omega arith in e)
      (read_bytes-hex bytes)

stamped :
    (i : ℕ) (f : ℕ → ℕ) (bytes : List ℕ)
    → i < length bytes
    → get_or (update i f bytes) i 0 ≡ f (get_or bytes i 0)
unfolding update
stamped i f [] h = absurd (omega arith)
stamped zero f (b ∷ bytes) h = refl
stamped (suc i) f (b ∷ bytes) h = stamped i f bytes (omega arith)

length-update : (i : ℕ) (f : ℕ → ℕ) (bytes : List ℕ) → length (update i f bytes) ≡ length bytes
unfolding update
length-update i f [] = refl
length-update zero f (b ∷ bytes) = refl
length-update (suc i) f (b ∷ bytes) = ap suc (length-update i f bytes)

-- A later byte that is set leaves the earlier ones.
earlier :
    (i j : ℕ) (f : ℕ → ℕ) (bytes : List ℕ)
    → i < j
    → get_or (update j f bytes) i 0 ≡ get_or bytes i 0
unfolding update
earlier i j f [] h = refl
earlier i zero f (b ∷ bytes) h = absurd (omega arith)
earlier zero (suc j) f (b ∷ bytes) h = refl
earlier (suc i) (suc j) f (b ∷ bytes) h = earlier i j f bytes (omega arith)

-- Reading the digits of an identifier back gives its bytes, the random ones with the version and the
-- variant set; so two identifiers are equal only if those bytes are. Of 16 bytes, the seventh begins
-- with the digit 4 of the version, and the ninth with the two bits 10 of the variant.
pub read_bytes-random_uuid :
    (bytes : List ℕ)
    → length bytes ≡ 16
    → (read_bytes (read_digits (random_uuid bytes)) ≡ stamp bytes)
      × (get_or (stamp bytes) 6 0 / 16 ≡ 4)
      × (get_or (stamp bytes) 8 0 / 64 ≡ 2)
unfolding random_uuid stamp
read_bytes-random_uuid bytes h =
    let first = update 6 with_version bytes in
    let version =
      earlier 6 8 with_variant first (omega arith) ∙ stamped 6 with_version bytes (omega arith) in
    let variant =
      stamped 8 with_variant first (omega (arith, length-update 6 with_version bytes)) in
    (
      ap read_bytes (read_digits-with_dashes (hex (stamp bytes))) ∙ read_bytes-hex (stamp bytes),
      omega (arith, version),
      omega (arith, variant),
    )
